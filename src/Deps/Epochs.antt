-- ===== src/Deps/Epochs.antt =====
-- The adjacency epochs of deps.rs, and the
-- subscribers that are active at a time.
use mathlib.Core.Option.{get_or}
use pgress.Prelude.{
  ℕ, ◌+◌, ◌<◌, ◌≤◌, ◌^◌, max, ◌≡◌, refl, ap, arith, Bool, true, ◌||◌, List, [], ◌∷◌, Option, none,
  some, ap₂, subst, sym, Map, entry, remove, pair_eq, if◌then◌else◌, get, insert, modify,
  get-insert, nat_eq, eqb, eqb_iff,
}
use pgress.Prelude.Sorting.{member, discard, add}
use pgress.Time.{ProductTime}
use pgress.Deps.{
  DepRegistry, adj_epoch, bump_epoch, subscribe_with_meta, subscribe_with_meta_indexed, unsubscribe,
  drop_ordered, drop_position, position, subs_vec, meta_of, push,
}
use pgress.Deps.Window.{DepMeta, is_active_at}

-- `map(adj_epoch).max().unwrap_or(0)`.
unfoldable pub max_epoch_for_nodes : List ℕ → DepRegistry → ℕ
max_epoch_for_nodes [] r = 0
max_epoch_for_nodes (n ∷ nodes) r = max (adj_epoch n r) (max_epoch_for_nodes nodes r)

abbrev pub active : Option DepMeta → ProductTime → Bool
active none t = true
active (some m) t = is_active_at m t

abbrev pub active_among : List ℕ → ℕ → ProductTime → DepRegistry → List ℕ
active_among [] source t r = []
active_among (sub ∷ subs) source t r =
    let rest = active_among subs source t r in
    if active (meta_of source sub r) t then sub ∷ rest else rest

unfoldable pub active_subs_for : ℕ → ProductTime → DepRegistry → List ℕ
active_subs_for source t r = active_among (subs_vec source r) source t r

-- No epoch lies beyond the counter.
abbrev pub IsFresh : DepRegistry → Type 0
IsFresh r = (n : ℕ) → adj_epoch n r ≤ r.adj_epoch_counter

max_epoch-le :
    (nodes : List ℕ) (r : DepRegistry)
    → IsFresh r
    → max_epoch_for_nodes nodes r ≤ r.adj_epoch_counter
unfolding max_epoch_for_nodes
max_epoch-le [] r f = omega arith
max_epoch-le (n ∷ nodes) r f = omega (arith, f n, max_epoch-le nodes r f)

max_epoch-member :
    (n : ℕ) (nodes : List ℕ) (r : DepRegistry)
    → member n nodes ≡ true
    → adj_epoch n r ≤ max_epoch_for_nodes nodes r
unfolding max_epoch_for_nodes member
max_epoch-member n [] r h = ground arith
max_epoch-member n (k ∷ nodes) r h = ground (arith, eqb_iff k n, max_epoch-member n nodes r)

adj_epoch-bump_epoch :
    (n j : ℕ) (r : DepRegistry)
    → r.adj_epoch_counter + 1 < 2 ^ 64
    → adj_epoch j (bump_epoch n r) ≡ (if eqb n j then r.adj_epoch_counter + 1 else adj_epoch j r)
unfolding adj_epoch bump_epoch
adj_epoch-bump_epoch n j r h = ground (arith, get-insert j n (r.adj_epoch_counter + 1) r.adj_epochs)

adj_epoch_counter-bump_epoch :
    (n : ℕ) (r : DepRegistry)
    → r.adj_epoch_counter + 1 < 2 ^ 64
    → (bump_epoch n r).adj_epoch_counter ≡ r.adj_epoch_counter + 1
unfolding bump_epoch
adj_epoch_counter-bump_epoch n r h = ground arith

bump_epoch-IsFresh :
    (n : ℕ) (r : DepRegistry)
    → r.adj_epoch_counter + 1 < 2 ^ 64
    → IsFresh r
    → IsFresh (bump_epoch n r)
bump_epoch-IsFresh n r h f j =
    ground (arith, adj_epoch-bump_epoch n j r h, f j, adj_epoch_counter-bump_epoch n r h)

-- Two bumps, one after the other, make every set of nodes that has one of the two stale.
bumped_twice :
    (a b n : ℕ) (nodes : List ℕ) (r : DepRegistry)
    → r.adj_epoch_counter + 2 < 2 ^ 64
    → IsFresh r
    → (eqb a n || eqb b n) ≡ true
    → member n nodes ≡ true
    → max_epoch_for_nodes nodes r < max_epoch_for_nodes nodes (bump_epoch b (bump_epoch a r))
bumped_twice a b n nodes r h f e m =
    let r1 = bump_epoch a r in
    let c1 = adj_epoch_counter-bump_epoch a r (omega arith) in
    ground (
      arith,
      c1,
      adj_epoch-bump_epoch a n r (omega arith),
      adj_epoch-bump_epoch b n r1 (omega (arith, c1)),
      max_epoch-le nodes r f,
      max_epoch-member n nodes (bump_epoch b r1) m,
    )

-- The parts of the registry that the epochs are read from.
abbrev epochs : DepRegistry → ℕ × Map ℕ ℕ
epochs r = (r.adj_epoch_counter, r.adj_epochs)

max_epoch-epochs :
    (nodes : List ℕ) (r s : DepRegistry)
    → epochs r ≡ epochs s
    → max_epoch_for_nodes nodes r ≡ max_epoch_for_nodes nodes s
unfolding max_epoch_for_nodes adj_epoch
max_epoch-epochs [] r s e = refl
max_epoch-epochs (n ∷ nodes) r s e =
    ap₂ max (ap (λ (p : ℕ × Map ℕ ℕ). get_or (get n p.1) 0) e) (max_epoch-epochs nodes r s e)

IsFresh-epochs : (r s : DepRegistry) → epochs r ≡ epochs s → IsFresh r → IsFresh s
unfolding adj_epoch
IsFresh-epochs r s e f n = subst (λ (p : ℕ × Map ℕ ℕ). get_or (get n p.1) 0 ≤ p.0) e (f n)

drop_position-epochs :
    (o : Option ℕ) (sub : ℕ) (r : DepRegistry) → epochs (drop_position o sub r) ≡ epochs r
drop_position-epochs none sub r = refl
drop_position-epochs (some i) sub r = refl

-- What `unsubscribe` does before it moves the epochs.
abbrev dropped : ℕ → ℕ → DepRegistry → DepRegistry
dropped src sub r =
    let r' = drop_ordered src sub (record r {
      deps = modify sub (discard src) r.deps;
      subs = modify src (discard sub) r.subs;
    }) in
    record r' { dep_meta = remove (src, sub) r'.dep_meta }

abbrev linked : ℕ → ℕ → DepMeta → DepRegistry → DepRegistry
linked src sub meta r = record r {
  deps = entry sub [] (add src) r.deps;
  subs = entry src [] (add sub) r.subs;
  ordered_deps = entry sub [] (push src) r.ordered_deps;
  dep_meta = insert (src, sub) meta r.dep_meta;
}

abbrev linked_indexed : ℕ → ℕ → ℕ → DepMeta → DepRegistry → DepRegistry
linked_indexed src sub dense meta r = record (linked src sub meta r) {
  ordered_dep_indices = entry sub [] (push dense) r.ordered_dep_indices;
}

dropped-epochs : (src sub : ℕ) (r : DepRegistry) → epochs (dropped src sub r) ≡ epochs r
unfolding drop_ordered
dropped-epochs src sub r =
    drop_position-epochs (position src (get_or (get sub r.ordered_deps) [])) sub
      (record r { deps = modify sub (discard src) r.deps; subs = modify src (discard sub) r.subs })

stale_after :
    (a b n : ℕ) (nodes : List ℕ) (r s : DepRegistry)
    → epochs s ≡ epochs r
    → r.adj_epoch_counter + 2 < 2 ^ 64
    → IsFresh r
    → (eqb a n || eqb b n) ≡ true
    → member n nodes ≡ true
    → max_epoch_for_nodes nodes r < max_epoch_for_nodes nodes (bump_epoch b (bump_epoch a s))
stale_after a b n nodes r s q h f e m = rw⁻¹ (max_epoch-epochs nodes s r q) (
    bumped_twice a b n nodes s (omega (arith, ap (λ (p : ℕ × Map ℕ ℕ). p.0) q))
      (IsFresh-epochs r s (sym q) f) e m)

-- A subscription, with the source's slot or without it, and the end of one raise the greatest epoch
-- of every list of nodes that has one of the two nodes. The epochs are those of the counter so far,
-- which does not wrap.
pub max_epoch_for_nodes-grows :
    (src sub dense n : ℕ) (nodes : List ℕ) (meta : DepMeta) (r : DepRegistry)
    → r.adj_epoch_counter + 2 < 2 ^ 64
    → IsFresh r
    → (eqb src n || eqb sub n) ≡ true
    → member n nodes ≡ true
    → (max_epoch_for_nodes nodes r < max_epoch_for_nodes nodes (subscribe_with_meta src sub meta r))
      × (max_epoch_for_nodes nodes r
          < max_epoch_for_nodes nodes (subscribe_with_meta_indexed src sub dense meta r))
      × (max_epoch_for_nodes nodes r < max_epoch_for_nodes nodes (unsubscribe src sub r))
unfolding subscribe_with_meta subscribe_with_meta_indexed unsubscribe
max_epoch_for_nodes-grows src sub dense n nodes meta r h f e m = (
  stale_after src sub n nodes r (linked src sub meta r) refl h f e m,
  stale_after src sub n nodes r (linked_indexed src sub dense meta r) refl h f e m,
  stale_after src sub n nodes r (dropped src sub r) (dropped-epochs src sub r) h f e m,
)
