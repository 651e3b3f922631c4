-- ===== src/Deps/Counters.antt =====
-- The per-subscriber counters of core-rs/src/deps.rs, `u32` and wrapping, and that they answer what
-- `propagation_state` answers.
use pgress.Prelude.{
  ℕ, ◌+◌, ◌-◌, ◌^◌, ◌<◌, ◌≡◌, refl, arith, List, [], ◌∷◌, ◌++◌, length, ltb, if◌then◌else◌,
}
use pgress.Prelude.Words.{add32}
use pgress.Ternary.{T, neg, pos, same, PropState, ready, pending, conflicted, propagation_state}
use pgress.Ternary.Fold.{count, count-sum, count-append, propagation_state-by_counts}

pub record DepCounters : Type 0 where
  pub neg_count : ℕ
  pub zero_count : ℕ
  pub pos_count : ℕ

abbrev pub no_counts : DepCounters
no_counts = record { neg_count = 0; zero_count = 0; pos_count = 0 }

unfoldable pub total : DepCounters → ℕ
total c = add32 (add32 c.neg_count c.zero_count) c.pos_count

unfoldable pub eval_aggregate : DepCounters → T
eval_aggregate c = if ltb 0 c.zero_count then T.zero else if ltb 0 c.neg_count then neg else pos

unfoldable pub add_value : T → DepCounters → DepCounters
add_value neg c = record c { neg_count = add32 c.neg_count 1 }
add_value pos c = record c { pos_count = add32 c.pos_count 1 }
add_value T.zero c = record c { zero_count = add32 c.zero_count 1 }

-- `saturating_sub` is the subtraction of ℕ.
unfoldable pub remove_value : T → DepCounters → DepCounters
remove_value neg c = record c { neg_count = c.neg_count - 1 }
remove_value pos c = record c { pos_count = c.pos_count - 1 }
remove_value T.zero c = record c { zero_count = c.zero_count - 1 }

unfoldable pub update : T → T → DepCounters → DepCounters
unfolding add_value remove_value
update old new c = if same old new then c else add_value new (remove_value old c)

-- The counters of a list of fewer than 2^32 dependency values.
pub record Counts (c : DepCounters) (vals : List T) : Type 0 where
  pub negs : c.neg_count ≡ count neg vals
  pub zeros : c.zero_count ≡ count T.zero vals
  pub poss : c.pos_count ≡ count pos vals

pub Counts-nil : Counts no_counts []
Counts-nil = record { negs = refl; zeros = refl; poss = refl }

pub add_value-Counts :
    (v : T) (c : DepCounters) (vals : List T)
    → length vals + 1 < 2 ^ 32
    → Counts c vals
    → Counts (add_value v c) (v ∷ vals)
unfolding add_value
add_value-Counts neg c vals h k = ground (arith, count-sum vals)
add_value-Counts pos c vals h k = ground (arith, count-sum vals)
add_value-Counts T.zero c vals h k = ground (arith, count-sum vals)

-- Counters that count fewer than 2^32 dependency values go on counting when one dependency, wherever
-- it stands among them, changes its value.
pub update-Counts :
    (old new : T) (c : DepCounters) (before after : List T)
    → length (before ++ old ∷ after) < 2 ^ 32
    → Counts c (before ++ old ∷ after)
    → Counts (update old new c) (before ++ new ∷ after)
unfolding update add_value remove_value
update-Counts old new c before after h k = ground (
  arith,
  count-sum (before ++ old ∷ after),
  count-append neg before (old ∷ after),
  count-append pos before (old ∷ after),
  count-append T.zero before (old ∷ after),
  count-append neg before (new ∷ after),
  count-append pos before (new ∷ after),
  count-append T.zero before (new ∷ after),
)

pub remove_value-Counts :
    (v : T) (c : DepCounters) (before after : List T)
    → Counts c (before ++ v ∷ after)
    → Counts (remove_value v c) (before ++ after)
unfolding remove_value
remove_value-Counts v c before after k = ground (
  arith,
  count-append neg before (v ∷ after),
  count-append pos before (v ∷ after),
  count-append T.zero before (v ∷ after),
  count-append neg before after,
  count-append pos before after,
  count-append T.zero before after,
)

pub total-Counts :
    (c : DepCounters) (vals : List T) → length vals < 2 ^ 32 → Counts c vals → total c ≡ length vals
unfolding total
total-Counts c vals h k = ground (arith, count-sum vals)

-- The value that stands for each dependency state.
abbrev pub value_of_state : PropState → T
value_of_state conflicted = T.zero
value_of_state pending = neg
value_of_state ready = pos

-- Counters that count the dependency values give the state that the scan over the values gives.
pub eval_aggregate-state :
    (c : DepCounters) (vals : List T)
    → Counts c vals
    → eval_aggregate c ≡ value_of_state (propagation_state vals)
unfolding eval_aggregate
eval_aggregate-state c vals k = ground (arith, propagation_state-by_counts vals)
