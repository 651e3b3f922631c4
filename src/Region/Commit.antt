-- ===== src/Region/Commit.antt =====
-- What one committed output of a compiled region (core-rs/src/region.rs) does to the masks and the
-- store.
use pgress.Prelude.{
  ℕ, ◌/◌, ◌%◌, ◌<◌, ◌≡◌, ◌≢◌, ◌⊎◌, refl, subst, ◌∙◌, inl, inr, arith, true, List, [], ◌∷◌, length,
  length-set, get_or, get_or-set_self, get_or-set_ne, eqb, ltb, Bool-cases, ==→eq, nat_eq,
}
use pgress.Prelude.Bits.{bit-le}
use pgress.Prelude.Sorting.{member}
use pgress.Ternary.{T, neg}
use pgress.Values.{ValueStore, set_by_dense, get_by_dense}
use pgress.Values.Planes.{digit}
use pgress.Region.Run.{raise, raise_after}
use pgress.Region.Digits.{On, length-raise, On-raise, On-raise_kept}

pub raise_after-kept :
    (i : ℕ) (rows pending : List ℕ) (e : ℕ) → On pending e → On (raise_after i rows pending) e
raise_after-kept i [] pending e on = on
raise_after-kept i (row ∷ rows) pending e on = elim (Bool-cases (ltb i row)) [
  | inl below ↦
      rw below (raise_after-kept i rows (raise row pending) e (On-raise_kept row e pending on))
  | inr above ↦ rw above (raise_after-kept i rows pending e on)
]

pub length-raise_after :
    (i : ℕ) (rows pending : List ℕ) → length (raise_after i rows pending) ≡ length pending
length-raise_after i [] pending = refl
length-raise_after i (row ∷ rows) pending = elim (Bool-cases (ltb i row)) [
  | inl below ↦ rw below (length-raise_after i rows (raise row pending) ∙ length-raise row pending)
  | inr above ↦ rw above (length-raise_after i rows pending)
]

pub raise_after-On :
    (i : ℕ) (rows pending : List ℕ) (e : ℕ)
    → member e rows ≡ true
    → i < e
    → e / 64 < length pending
    → On (raise_after i rows pending) e
unfolding member
raise_after-On i [] pending e m after h = cc
raise_after-On i (row ∷ rows) pending e m after h = elim (Bool-cases (eqb row e)) [
  | inl hit ↦
      let same_row : row ≡ e = ==→eq row e hit in
      let below : ltb i row ≡ true = ground arith in
      rw below (
        raise_after-kept i rows (raise row pending) e (
          subst (λ (r : ℕ). On (raise row pending) r) same_row
            (On-raise row pending (omega arith))))
  | inr miss ↦ elim (Bool-cases (ltb i row)) [
    | inl below ↦ rw below (
        raise_after-On i rows (raise row pending) e (ground arith) after
          (omega (arith, length-raise row pending)))
    | inr above ↦ rw above (raise_after-On i rows pending e (ground arith) after h)
  ]
]

pub get_by_dense-set_self :
    (d : ℕ) (v : T) (vs : ValueStore)
    → d < length vs.cache
    → get_by_dense d (set_by_dense d v vs) ≡ v
unfolding get_by_dense set_by_dense
get_by_dense-set_self d v vs h = get_or-set_self vs.cache d v neg h

pub get_by_dense-set_ne :
    (d e : ℕ) (v : T) (vs : ValueStore)
    → d ≢ e
    → get_by_dense e (set_by_dense d v vs) ≡ get_by_dense e vs
unfolding get_by_dense set_by_dense
get_by_dense-set_ne d e v vs ne = get_or-set_ne vs.cache d e v neg ne

pub length-set_by_dense :
    (d : ℕ) (v : T) (vs : ValueStore) → length (set_by_dense d v vs).cache ≡ length vs.cache
unfolding set_by_dense
length-set_by_dense d v vs = length-set vs.cache d v

-- A list of slots has a dirty one, or none of its slots is dirty.
pub some_dirty :
    (dirty_slots cols : List ℕ)
    → ((col : ℕ) × (member col cols ≡ true) × On dirty_slots col)
      ⊎ ((col : ℕ) → member col cols ≡ true → digit dirty_slots col ≡ 0)
unfolding member
some_dirty dirty_slots [] = inr λ col m. cc
some_dirty dirty_slots (c ∷ cols) = elim (Bool-cases (eqb (digit dirty_slots c) 1)) [
  | inl on ↦ inl (c, ground arith, ==→eq _ 1 on)
  | inr off ↦ elim (some_dirty dirty_slots cols) [
    | inl (col, m, on) ↦ inl (col, ground arith, on)
    | inr clean ↦
        let zero_here : digit dirty_slots c ≡ 0 =
          ground (arith, bit-le (get_or dirty_slots (c / 64) 0) (c % 64)) in
        inr λ col m. elim (Bool-cases (eqb c col)) [
          | inl hit ↦ subst (λ (k : ℕ). digit dirty_slots k ≡ 0) (==→eq c col hit) zero_here
          | inr miss ↦ clean col (ground arith)
        ]
  ]
]
