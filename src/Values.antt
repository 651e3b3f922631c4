-- ===== src/Values.antt =====
-- The dense value cache of core-rs/src/value_store.rs: the cache, the map from node ids to slots and
-- the two bit planes, with the word-parallel range operations. A `u32` slot is a number below 2^32 in
-- the source; `alloc` writes the cast out. A slot outside the vectors is never handed out (the
-- source panics on it, or reads unchecked): here a write there changes nothing and a read gives neg.
pub mod Planes
pub mod Slots
pub mod Extremum
pub mod Scan
pub mod Swar
use pgress.Prelude.{
  ℕ, zero, suc, ◌+◌, ◌-◌, ◌*◌, ◌/◌, ◌%◌, ◌^◌, min, max, bit_and, bit_or, Bool, true, false, not,
  ◌||◌, List, [], ◌∷◌, ◌++◌, Option, none, some, length, get_or, set, ltb, leb, eqb, if◌then◌else◌,
  Map, get, insert, nat_eq,
}
use pgress.Prelude.Words.{not64, shl64, shr, max64}
use pgress.Ternary.{T, neg, pos, repr}

pub record ValueStore : Type 0 where
  pub cache : List T
  pub idx : Map ℕ ℕ
  pub plane_p0 : List ℕ
  pub plane_p1 : List ℕ

abbrev pub new : ValueStore
new = record { cache = []; idx = []; plane_p0 = []; plane_p1 = [] }

-- The words that `n` slots take.
abbrev pub words : ℕ → ℕ
words n = (n + 63) / 64

-- The loop that pushes zero words on both planes, by the number of rounds left.
unfoldable pub grow : ℕ → ValueStore → ValueStore
grow zero vs = vs
grow (suc rounds) vs =
    grow rounds (record vs { plane_p0 = vs.plane_p0 ++ 0 ∷ []; plane_p1 = vs.plane_p1 ++ 0 ∷ [] })

unfoldable pub alloc : ℕ → ValueStore → ValueStore × ℕ
unfolding grow
alloc id vs =
    let dense = length vs.cache % 2 ^ 32 in
    let vs' = record vs { cache = vs.cache ++ neg ∷ []; idx = insert id dense vs.idx } in
    (grow (words (length vs'.cache) - length vs'.plane_p0) vs', dense)

-- `plane[word] |= mask` if the flag is up, and `plane[word] &= !mask` if it is not.
unfoldable pub write_bit : Bool → ℕ → ℕ → List ℕ → List ℕ
write_bit on d mask plane =
    let word = d / 64 in
    if on
    then set plane word (bit_or (get_or plane word 0) mask)
    else set plane word (bit_and (get_or plane word 0) (not64 mask))

unfoldable pub set_by_dense : ℕ → T → ValueStore → ValueStore
unfolding write_bit
set_by_dense d val vs =
    let mask = shl64 1 (d % 64) in
    record vs {
      plane_p0 = write_bit (not (eqb (bit_and (repr val) 1) 0)) d mask vs.plane_p0;
      plane_p1 = write_bit (not (eqb (shr (repr val) 1) 0)) d mask vs.plane_p1;
      cache = set vs.cache d val;
    }

abbrev pub set_slot : Option ℕ → T → ValueStore → ValueStore
set_slot none val vs = vs
set_slot (some dense) val vs = set_by_dense dense val vs

-- `ValueStore::set`: an unknown node is ignored.
unfoldable pub set_value : ℕ → T → ValueStore → ValueStore
set_value id val vs = set_slot (get id vs.idx) val vs

unfoldable pub get_by_dense : ℕ → ValueStore → T
get_by_dense d vs = get_or vs.cache d neg

abbrev pub read_slot : Option ℕ → ValueStore → T
read_slot none vs = neg
read_slot (some dense) vs = get_by_dense dense vs

-- `ValueStore::get`: an unknown node reads neg.
unfoldable pub get_value : ℕ → ValueStore → T
get_value id vs = read_slot (get id vs.idx) vs

unfoldable pub dense_index : ℕ → ValueStore → Option ℕ
dense_index id vs = get id vs.idx

unfoldable pub dealloc : ℕ → ValueStore → ValueStore
dealloc id vs = set_slot (get id vs.idx) neg vs

-- The digits of word `w` whose slots lie in the range from `start` up to `end`.
unfoldable pub range_mask : ℕ → ℕ → ℕ → ℕ
range_mask start end w =
    let w_lo = w * 64 in
    let w_hi = w_lo + 64 in
    let lo = max start w_lo - w_lo in
    let hi = min end w_hi - w_lo in
    let lo_mask = if eqb lo 0 then max64 else shl64 max64 lo in
    let hi_mask = if eqb hi 64 then max64 else shl64 1 hi - 1 in
    if leb w_hi start || leb end w_lo then 0 else bit_and lo_mask hi_mask

-- The bits that `meet_all_range` and `join_any_range` test in word `w`, under the range's mask.
unfoldable pub neg_bits : ValueStore → ℕ → ℕ → ℕ
neg_bits vs mask w =
    let p0m = bit_and (get_or vs.plane_p0 w 0) mask in
    let p1m = bit_and (get_or vs.plane_p1 w 0) mask in
    bit_and (bit_and (not64 p0m) (not64 p1m)) mask

unfoldable pub pos_bits : ValueStore → ℕ → ℕ → ℕ
pos_bits vs mask w =
    let p0m = bit_and (get_or vs.plane_p0 w 0) mask in
    let p1m = bit_and (get_or vs.plane_p1 w 0) mask in bit_and p0m (not64 p1m)

unfoldable pub zero_bits : ValueStore → ℕ → ℕ → ℕ
zero_bits vs mask w =
    let p0m = bit_and (get_or vs.plane_p0 w 0) mask in
    let p1m = bit_and (get_or vs.plane_p1 w 0) mask in bit_and (not64 p0m) p1m

-- `if mask == 0 { continue; }`, then the test of the bits.
abbrev pub tests : (ℕ → ℕ → ℕ) → ℕ → ℕ → ℕ → Bool
tests bits start end w =
    let mask = range_mask start end w in if eqb mask 0 then false else not (eqb (bits mask w) 0)

-- The loop over the words, by the number of words left: a hit returns at once, a zero is kept
-- in mind.
unfoldable pub scan_words : (ℕ → Bool) → (ℕ → Bool) → T → T → ℕ → ℕ → Bool → T
scan_words hit zeroes first last zero w has_zero = if has_zero then T.zero else last
scan_words hit zeroes first last (suc rounds) w has_zero =
    let rest = scan_words hit zeroes first last rounds (w + 1) (has_zero || zeroes w) in
    if hit w then first else rest

unfoldable pub meet_all_range : ValueStore → ℕ → ℕ → T
unfolding scan_words neg_bits zero_bits range_mask
meet_all_range vs start len =
    let end = start + len in
    let w0 = start / 64 in
    let w1 = words end in
    if eqb len 0
    then pos
    else scan_words (tests (neg_bits vs) start end) (tests (zero_bits vs) start end) neg pos
        (min w1 (length vs.plane_p0) - w0) w0 false

unfoldable pub join_any_range : ValueStore → ℕ → ℕ → T
unfolding scan_words pos_bits zero_bits range_mask
join_any_range vs start len =
    let end = start + len in
    let w0 = start / 64 in
    let w1 = words end in
    if eqb len 0
    then neg
    else scan_words (tests (pos_bits vs) start end) (tests (zero_bits vs) start end) pos neg
        (min w1 (length vs.plane_p0) - w0) w0 false
