-- ===== src/Deps/Registry.antt =====
-- The two adjacency maps of the dependency registry mirror each other.
use mathlib.Core.Option.{get_or}
use pgress.Prelude.{
  ℕ, ◌≡◌, refl, arith, false, ◌&&◌, List, [], Option, none, some, eqb, eqb_iff, if◌then◌else◌, get,
  entry, modify, Map, get-insert, get-modify, nat_eq, inl, inr, Option-cases,
}
use pgress.Prelude.Sorting.{add, discard, member, member-add, member-discard}
use pgress.Deps.{
  DepRegistry, deps_of, subs_of, subscribe_with_meta, unsubscribe, bump_epoch, drop_ordered,
  drop_position, position,
}
use pgress.Deps.Window.{DepMeta}

-- A source is a dependency of a node exactly if the node is a subscriber of the source.
abbrev pub Mirrors : DepRegistry → Type 0
Mirrors r = (s t : ℕ) → member s (deps_of t r) ≡ member t (subs_of s r)

deps_of-subscribe :
    (src sub t : ℕ) (m : DepMeta) (r : DepRegistry)
    → deps_of t (subscribe_with_meta src sub m r)
      ≡ (if eqb sub t then add src (deps_of t r) else deps_of t r)
unfolding subscribe_with_meta deps_of entry
deps_of-subscribe src sub t m r =
    ground (arith, get-insert t sub (add src (get_or (get sub r.deps) [])) r.deps, eqb_iff sub t)

subs_of-subscribe :
    (src sub s : ℕ) (m : DepMeta) (r : DepRegistry)
    → subs_of s (subscribe_with_meta src sub m r)
      ≡ (if eqb src s then add sub (subs_of s r) else subs_of s r)
unfolding subscribe_with_meta subs_of entry
subs_of-subscribe src sub s m r =
    ground (arith, get-insert s src (add sub (get_or (get src r.subs) [])) r.subs, eqb_iff src s)

-- A subscription keeps the two adjacency maps mirrors of each other.
pub subscribe-Mirrors :
    (src sub : ℕ) (m : DepMeta) (r : DepRegistry)
    → Mirrors r
    → Mirrors (subscribe_with_meta src sub m r)
subscribe-Mirrors src sub m r h s t =
    rw (deps_of-subscribe src sub t m r, subs_of-subscribe src sub s m r)
      (ground (
        arith,
        member-add s src (deps_of t r),
        member-add t sub (subs_of s r),
        h s t,
        eqb_iff src s,
        eqb_iff sub t,
      ))

pub drop_position-sets :
    (o : Option ℕ) (sub : ℕ) (r : DepRegistry)
    → ((drop_position o sub r).deps ≡ r.deps) × ((drop_position o sub r).subs ≡ r.subs)
drop_position-sets none sub r = (refl, refl)
drop_position-sets (some i) sub r = (refl, refl)

pub unsubscribe-sets :
    (src sub : ℕ) (r : DepRegistry)
    → ((unsubscribe src sub r).deps ≡ modify sub (discard src) r.deps)
      × ((unsubscribe src sub r).subs ≡ modify src (discard sub) r.subs)
unfolding unsubscribe bump_epoch drop_ordered
unsubscribe-sets src sub r =
    drop_position-sets (position src (get_or (get sub r.ordered_deps) [])) sub
      (record r { deps = modify sub (discard src) r.deps; subs = modify src (discard sub) r.subs })

-- What a set of a map is after one element has gone from the set of one key.
pub member-modify :
    (a b j k : ℕ) (m : Map ℕ (List ℕ))
    → member a (get_or (get k (modify j (discard b) m)) [])
      ≡ (if eqb j k && eqb b a then false else member a (get_or (get k m) []))
unfolding member
member-modify a b j k m = elim (Option-cases (get k m)) [
  | inl e ↦ ground (arith, e, get-modify k j (discard b) m)
  | inr (xs, e) ↦ ground (arith, e, get-modify k j (discard b) m, member-discard a b xs)
]

-- The end of a subscription keeps the two adjacency maps mirrors of each other.
pub unsubscribe-Mirrors :
    (src sub : ℕ) (r : DepRegistry) → Mirrors r → Mirrors (unsubscribe src sub r)
unfolding deps_of subs_of
unsubscribe-Mirrors src sub r h s t =
    let (d, u) = unsubscribe-sets src sub r in
    rw (d, u, member-modify s src sub t r.deps, member-modify t sub src s r.subs)
      (ground (arith, h s t, eqb_iff src s, eqb_iff sub t))
