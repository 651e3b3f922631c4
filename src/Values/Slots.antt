-- ===== src/Values/Slots.antt =====
-- Slots of value_store.rs: what `alloc` hands out, and that reads and writes by node id go to them.
use native.Mathlib.Nat.{mod-eq_of_lt}
use pgress.Prelude.{
  ℕ, ◌-◌, ◌%◌, ◌^◌, ◌<◌, ◌≡◌, ap, ◌∙◌, inl, inr, arith, [], ◌∷◌, ◌++◌, none, some, length, get_or,
  length-append, length-set, get_or-set, get_or-past, eqb, eqb_iff, if◌then◌else◌, Bool-cases,
  Option-cases, get, insert, get-insert, nat_eq,
}
use pgress.Ternary.{T, neg}
use pgress.Values.{
  ValueStore, words, alloc, set_by_dense, set_value, get_by_dense, get_value, dense_index, dealloc,
}
use pgress.Values.Planes.{
  PlanesMatch, set_by_dense-PlanesMatch, alloc-PlanesMatch, grow_kept, get_or-push,
}

-- The planes match the cache, every slot on record is inside it, and no two nodes share one.
pub record IsStore (vs : ValueStore) : Type 0 where
  pub planes : PlanesMatch vs
  pub in_range : (id d : ℕ) → dense_index id vs ≡ some d → d < length vs.cache
  pub apart : (i j d : ℕ) → dense_index i vs ≡ some d → dense_index j vs ≡ some d → i ≡ j

abbrev pushed : ℕ → ValueStore → ValueStore
pushed id vs = record vs {
  cache = vs.cache ++ neg ∷ [];
  idx = insert id (length vs.cache % 2 ^ 32) vs.idx;
}

abbrev new_words : ℕ → ValueStore → ℕ
new_words id vs = words (length (pushed id vs).cache) - length vs.plane_p0

-- `alloc` appends one neg cell and records its place for the node.
alloc_cells : (id : ℕ) (vs : ValueStore) → (alloc id vs).0.cache ≡ vs.cache ++ neg ∷ []
unfolding alloc
alloc_cells id vs = (grow_kept (new_words id vs) (pushed id vs)).0

pub dense_index-alloc :
    (id i : ℕ) (vs : ValueStore)
    → length vs.cache < 2 ^ 32
    → dense_index i (alloc id vs).0
      ≡ (if eqb id i then some (length vs.cache) else dense_index i vs)
unfolding alloc dense_index
dense_index-alloc id i vs h =
    ap (get i) (grow_kept (new_words id vs) (pushed id vs)).1
    ∙ get-insert i id (length vs.cache % 2 ^ 32) vs.idx
    ∙ ground (arith, mod-eq_of_lt h)

-- `alloc` on a store with fewer than 2^32 slots keeps it well-formed: the planes match the cache, every
-- slot on record is inside it, and no two nodes share one.
pub alloc-IsStore :
    (id : ℕ) (vs : ValueStore) → length vs.cache < 2 ^ 32 → IsStore vs → IsStore (alloc id vs).0
alloc-IsStore id vs h s = record {
  planes = alloc-PlanesMatch id vs s.planes;
  in_range = λ i d e.
      rw (alloc_cells id vs, length-append vs.cache (neg ∷ []))
        (ground (arith, dense_index-alloc id i vs h, s.in_range i d));
  apart = λ i j d p q. ground (
    arith,
    dense_index-alloc id i vs h,
    dense_index-alloc id j vs h,
    s.in_range i d,
    s.in_range j d,
    s.apart i j d,
  );
}

-- The new node reads neg; every other node reads what it read.
pub get_value-alloc :
    (id j : ℕ) (vs : ValueStore)
    → length vs.cache < 2 ^ 32
    → get_value j (alloc id vs).0 ≡ (if eqb id j then neg else get_value j vs)
unfolding get_value get_by_dense
get_value-alloc id j vs h =
    let look : get j (alloc id vs).0.idx
        ≡ (if eqb id j then some (length vs.cache) else get j vs.idx) =
      (unfold dense_index in dense_index-alloc id j vs h) in
    let cell : (d : ℕ) → get_or (alloc id vs).0.cache d neg ≡ get_or vs.cache d neg =
      λ d. rw (alloc_cells id vs) (get_or-push vs.cache neg d) in
    rw look (elim (Bool-cases (eqb id j)) [
      | inl hit ↦ rw hit (cell (length vs.cache) ∙ get_or-past vs.cache _ neg (omega arith))
      | inr miss ↦
          rw miss (elim (Option-cases (get j vs.idx)) [ inl e ↦ rw e | inr (d, e) ↦ rw e (cell d) ])
    ])

set_by_dense-IsStore :
    (d : ℕ) (val : T) (vs : ValueStore)
    → d < length vs.cache
    → IsStore vs
    → IsStore (set_by_dense d val vs)
unfolding set_by_dense dense_index
set_by_dense-IsStore d val vs h s = record {
  planes = set_by_dense-PlanesMatch d val vs h s.planes;
  in_range = λ i c e. rw (length-set vs.cache d val) (s.in_range i c e);
  apart = s.apart;
}

-- A write by id, to a known or an unknown node, keeps the invariant.
pub set_value-IsStore :
    (id : ℕ) (val : T) (vs : ValueStore) → IsStore vs → IsStore (set_value id val vs)
unfolding set_value
set_value-IsStore id val vs s = elim (Option-cases (get id vs.idx)) [
  | inl e ↦ rw e s
  | inr (d, e) ↦ rw e (set_by_dense-IsStore d val vs (s.in_range id d (unfold dense_index in e)) s)
]

pub dealloc-IsStore : (id : ℕ) (vs : ValueStore) → IsStore vs → IsStore (dealloc id vs)
unfolding dealloc
dealloc-IsStore id vs s = unfold set_value in set_value-IsStore id neg vs s

-- In a well-formed store a write by id is read back under that id, if the node is known, and no other
-- node reads it.
pub get_value-set_value :
    (id j : ℕ) (val : T) (vs : ValueStore)
    → IsStore vs
    → get_value j (set_value id val vs) ≡ (
        if eqb id j then elim (dense_index id vs) [ none ↦ neg | some d ↦ val ] else get_value j vs)
unfolding set_value set_by_dense get_value get_by_dense dense_index
get_value-set_value id j val vs s = elim (Option-cases (get id vs.idx)) [
  | inl e ↦ rw e (ground (arith, e, eqb_iff id j))
  | inr (d, e) ↦ rw e (elim (Option-cases (get j vs.idx)) [
    | inl f ↦ rw f (ground (arith, e, f, eqb_iff id j))
    | inr (c, f) ↦
        rw f (
          ground (arith, e, f, get_or-set vs.cache d c val neg (s.in_range id d e), s.apart id j d))
  ])
]
