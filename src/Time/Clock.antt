-- ===== src/Time/Clock.antt =====
-- `VectorClock` of core-rs/src/time.rs. Partition ids are numbers; a counter is a `u64` that wraps.
use pgress.Prelude.{
  ℕ, ◌≤◌, max, ◌≡◌, refl, ◌∙◌, ◌↔◌, arith, Bool, true, ◌&&◌, [], ◌∷◌, Option, none, some, leb, eqb,
  eqb_iff, if◌then◌else◌, Map, get, insert, get-insert, nat_eq, Distinct,
}
use pgress.Prelude.Words.{inc64}

abbrev pub VectorClock : Type 0
VectorClock = Map ℕ ℕ

abbrev pub or_zero : Option ℕ → ℕ
or_zero none = 0
or_zero (some v) = v

-- `get(&partition).copied().unwrap_or(0)`.
unfoldable pub time_of : ℕ → VectorClock → ℕ
time_of p c = or_zero (get p c)

unfoldable pub tick : ℕ → VectorClock → VectorClock
unfolding time_of
tick p c = insert p (inc64 (time_of p c)) c

unfoldable pub set_time : ℕ → ℕ → VectorClock → VectorClock
set_time p v c = insert p v c

-- The loop over the entries of the other clock.
unfoldable pub merge : VectorClock → VectorClock → VectorClock
unfolding time_of
merge c [] = c
merge c ((p, v) ∷ other) = merge (insert p (max (time_of p c) v) c) other

-- `other.0.iter().all(|(&p, &v)| self.get(p) >= v)`.
unfoldable pub dominates : VectorClock → VectorClock → Bool
unfolding time_of
dominates c [] = true
dominates c ((p, v) ∷ other) = leb v (time_of p c) && dominates c other

time_of-insert :
    (q p v : ℕ) (c : VectorClock) → time_of q (insert p v c) ≡ (if eqb p q then v else time_of q c)
unfolding time_of
time_of-insert q p v c = ground (arith, get-insert q p v c)

-- `tick` moves the one partition on, and no other.
pub time_of-tick :
    (p q : ℕ) (c : VectorClock)
    → time_of q (tick p c) ≡ (if eqb p q then inc64 (time_of q c) else time_of q c)
unfolding tick
time_of-tick p q c = time_of-insert q p _ c ∙ ground (arith, eqb_iff p q)

time_of-cons :
    (q p v : ℕ) (c : VectorClock) → time_of q ((p, v) ∷ c) ≡ (if eqb p q then v else time_of q c)
unfolding time_of get
time_of-cons q p v c = ground arith

absent : (p : ℕ) (c : VectorClock) → get p c ≡ none → time_of p c ≡ 0
unfolding time_of
absent p c h = rw h

time_of-nil : (q : ℕ) → time_of q [] ≡ 0
unfolding time_of get
time_of-nil q = refl

-- A merged clock is the greater of the two at every partition, if the second has one entry for each
-- partition.
time_of-merge :
    (q : ℕ) (c d : VectorClock)
    → Distinct d
    → time_of q (merge c d) ≡ max (time_of q c) (time_of q d)
unfolding merge
time_of-merge q c [] h = omega (arith, time_of-nil q)
time_of-merge q c ((p, v) ∷ d) h =
    time_of-merge q (insert p (max (time_of p c) v) c) d h.1
    ∙ ground (
      arith,
      time_of-insert q p (max (time_of p c) v) c,
      time_of-cons q p v d,
      absent p d h.0,
      eqb_iff p q,
    )

-- One clock dominates another, which has one entry for each partition, exactly if it is at least as
-- far on at every partition.
dominates_iff :
    (c d : VectorClock)
    → Distinct d
    → (dominates c d ≡ true) ↔ ((q : ℕ) → time_of q d ≤ time_of q c)
unfolding dominates
dominates_iff c [] h = (λ e q. omega (arith, time_of-nil q), λ all. refl)
dominates_iff c ((p, v) ∷ d) h = (
  λ e q.
      ground (arith, (dominates_iff c d h.1).0 (ground arith) q, time_of-cons q p v d, eqb_iff p q),
  λ all.
      let head : leb v (time_of p c) ≡ true = ground (arith, all p, time_of-cons p p v d) in
      let rest : dominates c d ≡ true =
        (dominates_iff c d h.1).1
          λ q. ground (arith, all q, time_of-cons q p v d, absent p d h.0, eqb_iff p q) in
      rw (head, rest),
)
