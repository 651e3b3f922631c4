-- ===== src/Deps/Removal.antt =====
-- The removal of a node from the dependency registry.
use mathlib.Core.Option.{get_or}
use pgress.Prelude.{
  ℕ, ◌≡◌, refl, ◌∙◌, ap, arith, false, ◌&&◌, List, [], ◌∷◌, eqb, eqb_iff, if◌then◌else◌, Map, get,
  remove, modify, get-remove, nat_eq, inl, inr, Bool-cases,
}
use pgress.Prelude.Sorting.{discard, member}
use pgress.Deps.{
  DepRegistry, deps_of, subs_of, unsubscribe, unsubscribe_all, forget_source, remove_node,
  drop_ordered, position, bump_epoch,
}
use pgress.Deps.Registry.{
  Mirrors, unsubscribe-Mirrors, unsubscribe-sets, member-modify, drop_position-sets,
}

unsubscribe_all-Mirrors :
    (upstream : List ℕ) (id : ℕ) (r : DepRegistry)
    → Mirrors r
    → Mirrors (unsubscribe_all upstream id r)
unfolding unsubscribe_all
unsubscribe_all-Mirrors [] id r h = h
unsubscribe_all-Mirrors (src ∷ upstream) id r h =
    unsubscribe_all-Mirrors upstream id (unsubscribe src id r) (unsubscribe-Mirrors src id r h)

member-unsubscribe :
    (s t src sub : ℕ) (r : DepRegistry)
    → member s (deps_of t (unsubscribe src sub r))
      ≡ (if eqb sub t && eqb src s then false else member s (deps_of t r))
unfolding deps_of
member-unsubscribe s t src sub r =
    let (d, u) = unsubscribe-sets src sub r in rw d (member-modify s src sub t r.deps)

member-unsubscribe_all :
    (s : ℕ) (upstream : List ℕ) (id : ℕ) (r : DepRegistry)
    → member s (deps_of id (unsubscribe_all upstream id r))
      ≡ (if member s upstream then false else member s (deps_of id r))
unfolding unsubscribe_all member
member-unsubscribe_all s [] id r = refl
member-unsubscribe_all s (src ∷ upstream) id r =
    member-unsubscribe_all s upstream id (unsubscribe src id r)
    ∙ ground (arith, member-unsubscribe s id src id r)

forget_source-subs :
    (id : ℕ) (downstream : List ℕ) (r : DepRegistry) → (forget_source id downstream r).subs ≡ r.subs
unfolding forget_source drop_ordered
forget_source-subs id [] r = refl
forget_source-subs id (sub ∷ downstream) r =
    forget_source-subs id downstream _
    ∙ (drop_position-sets (position id (get_or (get sub r.ordered_deps) [])) sub
        (record r { deps = modify sub (discard id) r.deps })).1

member-forget_source :
    (s t id : ℕ) (downstream : List ℕ) (r : DepRegistry)
    → member s (deps_of t (forget_source id downstream r))
      ≡ (if eqb id s && member t downstream then false else member s (deps_of t r))
unfolding forget_source drop_ordered member deps_of
member-forget_source s t id [] r = ground arith
member-forget_source s t id (sub ∷ downstream) r =
    let kept =
      (drop_position-sets (position id (get_or (get sub r.ordered_deps) [])) sub
        (record r { deps = modify sub (discard id) r.deps })).0 in
    member-forget_source s t id downstream _
    ∙ rw kept (ground (arith, member-modify s id sub t r.deps))

-- The registry before the entries of the node itself go: all its subscriptions have ended.
abbrev detached : ℕ → DepRegistry → DepRegistry
detached id r = unsubscribe_all (deps_of id r) id r

detached_reads : (id s : ℕ) (r : DepRegistry) → member s (deps_of id (detached id r)) ≡ false
detached_reads id s r =
    member-unsubscribe_all s (deps_of id r) id r
    ∙ (elim (Bool-cases (member s (deps_of id r))) [ inl e ↦ rw e refl | inr e ↦ rw e refl ])

member-get-remove :
    (a id k : ℕ) (m : Map ℕ (List ℕ))
    → member a (get_or (get k (remove id m)) [])
      ≡ (if eqb id k then false else member a (get_or (get k m) []))
unfolding member
member-get-remove a id k m = ground (arith, get-remove k id m)

remove_node-deps :
    (id s t : ℕ) (r : DepRegistry)
    → member s (deps_of t (remove_node id r)) ≡ (
        if eqb id t
        then false
        else if eqb id s && member t (subs_of id (detached id r))
        then false
        else member s (deps_of t (detached id r)))
unfolding remove_node bump_epoch deps_of subs_of
remove_node-deps id s t r =
    let r1 = detached id r in
    let down = get_or (get id r1.subs) [] in
    member-get-remove s id t (forget_source id down r1).deps
    ∙ ground (arith, member-forget_source s t id down r1)

remove_node-subs :
    (id s t : ℕ) (r : DepRegistry)
    → member t (subs_of s (remove_node id r))
      ≡ (if eqb id s then false else member t (subs_of s (detached id r)))
unfolding remove_node bump_epoch deps_of subs_of
remove_node-subs id s t r =
    let r1 = detached id r in
    let down = get_or (get id r1.subs) [] in
    member-get-remove t id s (forget_source id down r1).subs
    ∙ ground (arith, ap (λ m. get_or (get s m) []) (forget_source-subs id down r1))

-- Removing a node from a registry whose two adjacency maps mirror each other keeps them mirrors, and
-- leaves no node that the removed one depends on, and none that depends on it.
pub remove_node-Mirrors :
    (id : ℕ) (r : DepRegistry)
    → Mirrors r
    → Mirrors (remove_node id r)
      × ((t : ℕ)
          → (member t (deps_of id (remove_node id r)) ≡ false)
            × (member id (deps_of t (remove_node id r)) ≡ false))
remove_node-Mirrors id r h =
    let m1 = unsubscribe_all-Mirrors (deps_of id r) id r h in
    (
      λ s t. ground (
        arith,
        remove_node-deps id s t r,
        remove_node-subs id s t r,
        m1 s t,
        m1 s id,
        m1 id t,
        detached_reads id s r,
        eqb_iff id s,
        eqb_iff id t,
      ),
      λ t. (
        ground (arith, remove_node-deps id t id r),
        ground (arith, remove_node-deps id id t r, m1 id t),
      ),
    )
