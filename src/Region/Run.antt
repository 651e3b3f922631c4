-- ===== src/Region/Run.antt =====
-- `run_compiled_region` of core-rs/src/region.rs.
use pgress.Prelude.{
  ℕ, zero, suc, ◌+◌, ◌-◌, ◌*◌, ◌/◌, ◌%◌, bit_and, Bool, true, List, [], ◌∷◌, ◌++◌, Option, none,
  some, length, get_or, map, foldl, ltb, leb, eqb, if◌then◌else◌,
}
use pgress.Prelude.Words.{shl64, shr}
use pgress.Ternary.{T, same}
use pgress.Values.{
  ValueStore, write_bit, set_by_dense, get_by_dense, meet_all_range, join_any_range,
}
use pgress.Node.{ComputeRule, identity, meet_all_of, join_any_of, eval}
use pgress.Region.{CompiledRegion}
use pgress.Region.Index.{slice, row_cols, u32}

-- `words[d / 64] |= 1u64 << (d % 64)`; past the words nothing is written, as the guard on
-- `dirty_slots` has it.
unfoldable pub raise : ℕ → List ℕ → List ℕ
unfolding write_bit
raise d plane = write_bit true d (shl64 1 (d % 64)) plane

-- `(words[i / 64] >> (i % 64)) & 1 != 0`.
unfoldable pub is_raised : ℕ → List ℕ → Bool
is_raised i plane = eqb (bit_and (shr (get_or plane (i / 64) 0) (i % 64)) 1) 1

-- The bisection of `keys[lo..hi]`. A round drops the middle key at least, so a round for each key is
-- enough; on keys that do not ascend it can miss the key.
unfoldable pub bisect : ℕ → ℕ → List ℕ → ℕ → ℕ → Option ℕ
bisect zero col ks lo hi = none
bisect (suc fuel) col ks lo hi =
    let mid = (lo + hi) / 2 in
    let key = get_or ks mid 0 in
    let rest =
      bisect fuel col ks (if ltb key col then mid + 1 else lo) (if ltb key col then hi else mid) in
    if leb hi lo then none else if eqb key col then some mid else rest

-- `keys.binary_search(&col)`: the position of the key, if it is found.
unfoldable pub binary_search : ℕ → List ℕ → Option ℕ
unfolding bisect
binary_search col ks = bisect (length ks) col ks 0 (length ks)

abbrev pub rows_at : CompiledRegion → Option ℕ → List ℕ
rows_at region none = []
rows_at region (some k) =
    slice (get_or region.col_inv_offsets k 0) (get_or region.col_inv_offsets (k + 1) 0)
      region.col_inv_rows

-- The rows that the index names for a slot.
unfoldable pub readers : CompiledRegion → ℕ → List ℕ
unfolding binary_search
readers region col = rows_at region (binary_search col region.col_inv_keys)

abbrev pub raise_all : List ℕ → List ℕ → List ℕ
raise_all rows pending = foldl (λ p row. raise row p) pending rows

-- `word.trailing_zeros()` of a word that is not zero, by the digits left.
unfoldable pub trailing_zeros : ℕ → ℕ → ℕ
trailing_zeros zero w = 0
trailing_zeros (suc digits) w =
    let rest = trailing_zeros digits (w / 2) in if eqb (w % 2) 1 then 0 else suc rest

-- The `while` loop over the digits of one word. Each round clears a digit, so 64 are enough.
unfoldable pub push_word : CompiledRegion → ℕ → ℕ → ℕ → List ℕ → List ℕ
unfolding readers raise trailing_zeros
push_word region zero wi w pending = pending
push_word region (suc fuel) wi w pending =
    let col = u32 (wi * 64 + trailing_zeros 64 w) in
    let rest =
      push_word region fuel wi (bit_and w (w - 1)) (raise_all (readers region col) pending) in
    if eqb w 0 then pending else rest

-- Phase 1: the words of `dirty_slots`, from word `wi` on.
unfoldable pub push_words : CompiledRegion → ℕ → List ℕ → List ℕ → List ℕ
unfolding push_word
push_words region wi [] pending = pending
push_words region wi (word ∷ words) pending =
    push_words region (wi + 1) words (push_word region 64 wi word pending)

abbrev pub zeros : ℕ → List ℕ
zeros zero = []
zeros (suc n) = 0 ∷ zeros n

unfoldable pub initial_pending : CompiledRegion → List ℕ → List ℕ
unfolding push_words
initial_pending region dirty_slots =
    push_words region 0 dirty_slots (zeros ((length region.members + 63) / 64))

abbrev pub row_deps : CompiledRegion → ℕ → List ℕ
row_deps region i = row_cols region.dep_offsets region.dep_cols i

abbrev pub rule_at : CompiledRegion → ℕ → ComputeRule
rule_at region i = get_or region.rules i identity

abbrev pub output_at : CompiledRegion → ℕ → ℕ
output_at region i = get_or region.outputs i 0

-- `dep_buf`.
abbrev pub gather : CompiledRegion → ℕ → ValueStore → List T
gather region i vs = map (λ col. get_by_dense col vs) (row_deps region i)

abbrev pub eval_contiguous : CompiledRegion → ℕ → ℕ → ℕ → ComputeRule → ValueStore → Option T
eval_contiguous region i first dep_count meet_all_of vs = some (meet_all_range vs first dep_count)
eval_contiguous region i first dep_count join_any_of vs = some (join_any_range vs first dep_count)
eval_contiguous region i first dep_count rule vs = eval rule (gather region i vs)

abbrev pub eval_hinted : CompiledRegion → ℕ → ℕ → Option ℕ → ValueStore → Option T
eval_hinted region i dep_count none vs = eval (rule_at region i) (gather region i vs)
eval_hinted region i dep_count (some first) vs =
    eval_contiguous region i first dep_count (rule_at region i) vs

unfoldable pub eval_row : CompiledRegion → ℕ → ValueStore → Option T
eval_row region i vs =
    let dep_count = u32 (get_or region.dep_offsets (i + 1) 0 - get_or region.dep_offsets i 0) in
    eval_hinted region i dep_count (get_or region.contig_start i none) vs

-- What phase 2 carries.
pub record Pass : Type 0 where
  pub store : ValueStore
  pub dirty_slots : List ℕ
  pub pending : List ℕ
  pub changed : List (ℕ × T × T)

-- Downstream rows only.
abbrev pub raise_after : ℕ → List ℕ → List ℕ → List ℕ
raise_after i rows pending = foldl (λ p row. if ltb i row then raise row p else p) pending rows

-- A new value of a row.
unfoldable pub commit : CompiledRegion → ℕ → T → Pass → Pass
unfolding raise readers get_by_dense set_by_dense
commit region i new_val pass =
    let out_dense = output_at region i in
    let old_val = get_by_dense out_dense pass.store in
    if same old_val new_val then pass else record {
      store = set_by_dense out_dense new_val pass.store;
      changed = pass.changed ++ (get_or region.members i 0, old_val, new_val) ∷ [];
      dirty_slots = raise out_dense pass.dirty_slots;
      pending = raise_after i (readers region out_dense) pass.pending;
    }

abbrev pub commit_some : CompiledRegion → ℕ → Option T → Pass → Pass
commit_some region i none pass = pass
commit_some region i (some new_val) pass = commit region i new_val pass

-- One round of phase 2.
unfoldable pub run_row : CompiledRegion → ℕ → Pass → Pass
unfolding is_raised eval_row commit
run_row region i pass =
    if is_raised i pass.pending
    then commit_some region i (eval_row region i pass.store) pass
    else pass

-- Phase 2 from row `i` on, by the number of rows left.
unfoldable pub run_rows : CompiledRegion → ℕ → ℕ → Pass → Pass
unfolding run_row
run_rows region zero i pass = pass
run_rows region (suc rounds) i pass = run_rows region rounds (i + 1) (run_row region i pass)

-- The changed outputs, the store and the dirty slots afterwards.
unfoldable pub run_compiled_region :
    CompiledRegion → ValueStore → List ℕ → List (ℕ × T × T) × ValueStore × List ℕ
unfolding run_rows initial_pending
run_compiled_region region vs dirty_slots =
    let n_rows = length region.members in
    let pass = run_rows region n_rows 0 (record {
      store = vs;
      dirty_slots = dirty_slots;
      pending = initial_pending region dirty_slots;
      changed = [];
    }) in
    if eqb n_rows 0 then ([], vs, dirty_slots) else (pass.changed, pass.store, pass.dirty_slots)
