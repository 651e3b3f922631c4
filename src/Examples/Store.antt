-- ===== src/Examples/Store.antt =====
-- The value store and the counters at concrete inputs.
use pgress.Prelude.{◌≡◌, ◌<◌, ◌+◌, ◌^◌, ◌≤◌, arith, [], ◌∷◌, get, insert, length, drop, take}
use pgress.Ternary.{T, neg, pos, meet_all, join_any, propagation_state}
use pgress.Values.{
  ValueStore, new, alloc, set_value, get_value, dense_index, meet_all_range, join_any_range,
  set_by_dense, grow,
}
use pgress.Values.Planes.{new-PlanesMatch}
use pgress.Values.Slots.{IsStore, alloc-IsStore, set_value-IsStore, get_value-set_value}
use pgress.Values.Swar.{ranges_lem}
use pgress.Deps.Counters.{
  DepCounters, Counts, no_counts, Counts-nil, add_value, add_value-Counts, update, update-Counts,
  eval_aggregate, eval_aggregate-state,
}

pub new-IsStore : IsStore new
unfolding dense_index get
new-IsStore = record {
  planes = new-PlanesMatch;
  in_range = λ id d e. ground arith;
  apart = λ i j d e f. ground arith;
}

abbrev one_slot : ValueStore
one_slot = (alloc 7 new).0

abbrev two_slots : ValueStore
two_slots = (alloc 8 one_slot).0

one_slot-IsStore : IsStore one_slot
one_slot-IsStore = alloc-IsStore 7 new (omega arith) new-IsStore

one_slot_small : length one_slot.cache < 2 ^ 32
unfolding alloc grow
one_slot_small = omega arith

alloc-IsStore_example : IsStore two_slots
alloc-IsStore_example = alloc-IsStore 8 one_slot one_slot_small one_slot-IsStore

two_slots-IsStore : IsStore two_slots
two_slots-IsStore = alloc-IsStore 8 one_slot one_slot_small one_slot-IsStore

get_value-set_value_example : get_value 8 (set_value 8 pos two_slots) ≡ pos
unfolding alloc grow dense_index get insert
get_value-set_value_example = get_value-set_value 8 8 pos two_slots two_slots-IsStore

abbrev written : ValueStore
written = set_value 8 pos two_slots

written_length : 0 + 2 ≤ length written.cache
unfolding alloc grow set_value set_by_dense get insert
written_length = omega arith

ranges_example :
    (meet_all_range written 0 2 ≡ meet_all (take 2 (drop 0 written.cache)))
    × (join_any_range written 0 2 ≡ join_any (take 2 (drop 0 written.cache)))
ranges_example =
    ranges_lem written (set_value-IsStore 8 pos two_slots two_slots-IsStore).planes 0 2
      written_length

abbrev counted : DepCounters
counted = add_value neg (add_value pos no_counts)

counted-Counts : Counts counted (neg ∷ pos ∷ [])
counted-Counts =
    add_value-Counts neg (add_value pos no_counts) (pos ∷ []) (omega arith)
      (add_value-Counts pos no_counts [] (omega arith) Counts-nil)

update-Counts_example : Counts (update pos T.zero counted) (neg ∷ T.zero ∷ [])
update-Counts_example = update-Counts pos T.zero counted (neg ∷ []) [] (omega arith) counted-Counts

eval_aggregate-state_example : eval_aggregate counted ≡ neg
unfolding propagation_state
eval_aggregate-state_example = eval_aggregate-state counted (neg ∷ pos ∷ []) counted-Counts
