-- ===== src/Values/Planes.antt =====
-- The invariant of value_store.rs: the planes hold the bits of the cache. `alloc`, `set_by_dense`,
-- `set` and `dealloc` keep it.
use pgress.Prelude.{
  ℕ, zero, suc, ◌+◌, ◌-◌, ◌/◌, ◌%◌, ◌^◌, ◌<◌, bit_and, bit_or, ◌≡◌, refl, ap, ◌∙◌, inl, inr, arith,
  Bool, true, false, not, List, [], ◌∷◌, ◌++◌, length, get_or, set, length-append, length-set, eqb,
  if◌then◌else◌, Bool-cases, insert, nat_eq, ==→eq, get_or-set,
}
use pgress.Prelude.Bits.{bit, zero-bit, bit-le, bit-bit_and, bit-bit_or}
use pgress.Prelude.Words.{not64, shl64, shr, bit-shl64_one, bit-not64, bit_and-lt, bit_or-lt}
use pgress.Ternary.{T, neg, pos, same, repr}
use pgress.Ternary.Fold.{one_if}
use pgress.Values.{ValueStore, new, words, grow, alloc, write_bit, set_by_dense, get_by_dense}

-- Every word of a plane has 64 digits.
abbrev pub Wide : List ℕ → Type 0
Wide plane = (w : ℕ) → get_or plane w 0 < 2 ^ 64

-- The digit of a slot.
abbrev pub digit : List ℕ → ℕ → ℕ
digit plane d = bit (get_or plane (d / 64) 0) (d % 64)

-- Both planes have the words that the cache takes, and slot by slot the first one marks pos and the
-- second one zero.
pub record PlanesMatch (vs : ValueStore) : Type 0 where
  pub size_p0 : length vs.plane_p0 ≡ words (length vs.cache)
  pub size_p1 : length vs.plane_p1 ≡ words (length vs.cache)
  pub wide_p0 : Wide vs.plane_p0
  pub wide_p1 : Wide vs.plane_p1
  pub marks_pos : (d : ℕ) → digit vs.plane_p0 d ≡ one_if (same (get_by_dense d vs) pos)
  pub marks_zero : (d : ℕ) → digit vs.plane_p1 d ≡ one_if (same (get_by_dense d vs) T.zero)

zero-bit_slot : (d : ℕ) → digit [] d ≡ 0
zero-bit_slot d = zero-bit (d % 64)

pub new-PlanesMatch : PlanesMatch new
unfolding get_by_dense
new-PlanesMatch = record {
  size_p0 = refl;
  size_p1 = refl;
  wide_p0 = λ w. omega arith;
  wide_p1 = λ w. omega arith;
  marks_pos = zero-bit_slot;
  marks_zero = zero-bit_slot;
}

-- Pushing the default changes no reading.
pub get_or-push :
    {A : Type 0} (xs : List A) (v : A) (i : ℕ) → get_or (xs ++ v ∷ []) i v ≡ get_or xs i v
get_or-push [] v zero = refl
get_or-push [] v (suc i) = refl
get_or-push (x ∷ xs) v zero = refl
get_or-push (x ∷ xs) v (suc i) = get_or-push xs v i

-- What the growing loop does: it adds words to both planes and leaves all else as it reads.
record Grown (rounds : ℕ) (vs vs' : ValueStore) : Type 0 where
  cache_kept : vs'.cache ≡ vs.cache
  idx_kept : vs'.idx ≡ vs.idx
  longer_p0 : length vs'.plane_p0 ≡ length vs.plane_p0 + rounds
  longer_p1 : length vs'.plane_p1 ≡ length vs.plane_p1 + rounds
  reads_p0 : (w : ℕ) → get_or vs'.plane_p0 w 0 ≡ get_or vs.plane_p0 w 0
  reads_p1 : (w : ℕ) → get_or vs'.plane_p1 w 0 ≡ get_or vs.plane_p1 w 0

grow-Grown : (rounds : ℕ) (vs : ValueStore) → Grown rounds vs (grow rounds vs)
unfolding grow
grow-Grown zero vs = record {
  cache_kept = refl;
  idx_kept = refl;
  longer_p0 = omega arith;
  longer_p1 = omega arith;
  reads_p0 = λ w. refl;
  reads_p1 = λ w. refl;
}
grow-Grown (suc rounds) vs =
    let vs' : ValueStore = record vs {
      plane_p0 = vs.plane_p0 ++ 0 ∷ [];
      plane_p1 = vs.plane_p1 ++ 0 ∷ [];
    } in
    let rest = grow-Grown rounds vs' in
    record {
      cache_kept = rest.cache_kept;
      idx_kept = rest.idx_kept;
      longer_p0 = omega (arith, rest.longer_p0, length-append vs.plane_p0 (0 ∷ []));
      longer_p1 = omega (arith, rest.longer_p1, length-append vs.plane_p1 (0 ∷ []));
      reads_p0 = λ w. rest.reads_p0 w ∙ get_or-push vs.plane_p0 0 w;
      reads_p1 = λ w. rest.reads_p1 w ∙ get_or-push vs.plane_p1 0 w;
    }

-- A write of one word that moves one digit, read back at any slot.
pub digit-set :
    (d e v : ℕ) (plane : List ℕ) (x : ℕ)
    → d / 64 < length plane
    → ((i : ℕ) → i < 64 → bit x i ≡ (if eqb i (d % 64) then v else bit (get_or plane (d / 64) 0) i))
    → digit (set plane (d / 64) x) e ≡ (if eqb e d then v else digit plane e)
digit-set d e v plane x h moved =
    rw (get_or-set plane (d / 64) (e / 64) x 0 h) (elim (Bool-cases (eqb (d / 64) (e / 64))) [
      | inl here ↦ rw here (
          ground (
            arith,
            moved (e % 64),
            ap (λ (w : ℕ). bit (get_or plane w 0) (e % 64)) (==→eq (d / 64) (e / 64) here),
          ))
      | inr away ↦ rw away (ground arith)
    ])

digit-write_bit :
    (on : Bool) (d e : ℕ) (plane : List ℕ)
    → d / 64 < length plane
    → Wide plane
    → digit (write_bit on d (shl64 1 (d % 64)) plane) e
      ≡ (if eqb e d then one_if on else digit plane e)
unfolding write_bit
digit-write_bit true d e plane h wide =
    let x = get_or plane (d / 64) 0 in
    let mask = shl64 1 (d % 64) in
    digit-set d e 1 plane (bit_or x mask) h
      λ i p. ground (arith, bit-bit_or x mask i, bit-shl64_one (d % 64) i p, bit-le x i)
digit-write_bit false d e plane h wide =
    let x = get_or plane (d / 64) 0 in
    let mask = shl64 1 (d % 64) in
    let short : mask < 2 ^ 64 = omega arith in
    digit-set d e 0 plane (bit_and x (not64 mask)) h λ i p. ground (
      arith,
      bit-bit_and x (not64 mask) i,
      bit-not64 mask i short p,
      bit-shl64_one (d % 64) i p,
      bit-le x i,
    )

Wide-set : (plane : List ℕ) (w x : ℕ) → Wide plane → x < 2 ^ 64 → Wide (set plane w x)
Wide-set [] w x h p j = h j
Wide-set (y ∷ plane) zero x h p zero = p
Wide-set (y ∷ plane) zero x h p (suc j) = h (suc j)
Wide-set (y ∷ plane) (suc w) x h p zero = h 0
Wide-set (y ∷ plane) (suc w) x h p (suc j) = Wide-set plane w x (λ i. h (suc i)) p j

write_bit-Wide :
    (on : Bool) (d : ℕ) (plane : List ℕ)
    → Wide plane
    → Wide (write_bit on d (shl64 1 (d % 64)) plane)
unfolding write_bit
write_bit-Wide true d plane h =
    Wide-set plane (d / 64) _ h (bit_or-lt 64 _ _ (h (d / 64)) (omega arith))
write_bit-Wide false d plane h = Wide-set plane (d / 64) _ h (bit_and-lt 64 _ _ (h (d / 64)))

length-write_bit :
    (on : Bool) (d mask : ℕ) (plane : List ℕ) → length (write_bit on d mask plane) ≡ length plane
unfolding write_bit
length-write_bit true d mask plane = length-set plane (d / 64) _
length-write_bit false d mask plane = length-set plane (d / 64) _

-- The two bits of the discriminant.
repr_bits :
    (v : T)
    → (one_if (not (eqb (bit_and (repr v) 1) 0)) ≡ one_if (same v pos))
      × (one_if (not (eqb (shr (repr v) 1) 0)) ≡ one_if (same v T.zero))
repr_bits neg = (refl, refl)
repr_bits pos = (refl, refl)
repr_bits T.zero = (refl, refl)

-- A write at a slot that was handed out keeps the planes and the cache together.
pub set_by_dense-PlanesMatch :
    (d : ℕ) (val : T) (vs : ValueStore)
    → d < length vs.cache
    → PlanesMatch vs
    → PlanesMatch (set_by_dense d val vs)
unfolding set_by_dense get_by_dense
set_by_dense-PlanesMatch d val vs h m =
    let in0 : d / 64 < length vs.plane_p0 = omega (arith, m.size_p0) in
    let in1 : d / 64 < length vs.plane_p1 = omega (arith, m.size_p1) in
    record {
      size_p0 = rw (length-write_bit _ d _ vs.plane_p0, length-set vs.cache d val) m.size_p0;
      size_p1 = rw (length-write_bit _ d _ vs.plane_p1, length-set vs.cache d val) m.size_p1;
      wide_p0 = write_bit-Wide _ d vs.plane_p0 m.wide_p0;
      wide_p1 = write_bit-Wide _ d vs.plane_p1 m.wide_p1;
      marks_pos = λ e. ground (
        arith,
        digit-write_bit (not (eqb (bit_and (repr val) 1) 0)) d e vs.plane_p0 in0 m.wide_p0,
        repr_bits val,
        get_or-set vs.cache d e val neg h,
        m.marks_pos e,
      );
      marks_zero = λ e. ground (
        arith,
        digit-write_bit (not (eqb (shr (repr val) 1) 0)) d e vs.plane_p1 in1 m.wide_p1,
        repr_bits val,
        get_or-set vs.cache d e val neg h,
        m.marks_zero e,
      );
    }

pub alloc-PlanesMatch : (id : ℕ) (vs : ValueStore) → PlanesMatch vs → PlanesMatch (alloc id vs).0
unfolding alloc get_by_dense
alloc-PlanesMatch id vs m =
    let n = length vs.cache in
    let vs' : ValueStore = record vs {
      cache = vs.cache ++ neg ∷ [];
      idx = insert id (n % 2 ^ 32) vs.idx;
    } in
    let rounds = words (length vs'.cache) - length vs.plane_p0 in
    let g = grow-Grown rounds vs' in
    let more : length vs'.cache ≡ n + 1 = length-append vs.cache (neg ∷ []) in
    let cells : (d : ℕ) → get_or (grow rounds vs').cache d neg ≡ get_or vs.cache d neg =
      λ d. rw g.cache_kept (get_or-push vs.cache neg d) in
    record {
      size_p0 = rw g.cache_kept (omega (arith, g.longer_p0, m.size_p0, more));
      size_p1 = rw g.cache_kept (omega (arith, g.longer_p1, m.size_p0, m.size_p1, more));
      wide_p0 = λ w. rw (g.reads_p0 w) (m.wide_p0 w);
      wide_p1 = λ w. rw (g.reads_p1 w) (m.wide_p1 w);
      marks_pos = λ d. rw (g.reads_p0 (d / 64), cells d) (m.marks_pos d);
      marks_zero = λ d. rw (g.reads_p1 (d / 64), cells d) (m.marks_zero d);
    }

-- What the growing loop leaves alone.
pub grow_kept :
    (rounds : ℕ) (vs : ValueStore)
    → ((grow rounds vs).cache ≡ vs.cache) × ((grow rounds vs).idx ≡ vs.idx)
grow_kept rounds vs = let g = grow-Grown rounds vs in (g.cache_kept, g.idx_kept)
