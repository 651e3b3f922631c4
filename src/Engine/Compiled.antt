-- ===== src/Engine/Compiled.antt =====
-- The circuits of `compile_region` (core-rs/src/engine.rs), and how they meet the runs of
-- core-rs/src/region.rs.
use mathlib.Core.List.{append_assoc, append-nil}
use pgress.Prelude.{
  ◌>>=◌, ℕ, suc, ◌≡◌, refl, ap, subst, ◌∙◌, inl, inr, arith, List, [], ◌∷◌, ◌++◌, Option, none,
  some, length, length-append, eqb, if◌then◌else◌, Bool-cases, Option-cases, ==→eq, nat_eq,
}
use pgress.Prelude.Sorting.{sort}
use pgress.Graph.{Graph, node}
use pgress.Deps.{DepRegistry, ordered_dep_indices_of}
use pgress.Values.{ValueStore, dense_index}
use pgress.Region.{CompiledRegion}
use pgress.Region.Index.{u32, build_region_inv}
use pgress.Region.Named.{inv_of}
use pgress.Engine.Compile.{
  Csr, empty_csr, topo_sort, kahn, degrees, ready_ids, push_cols, push_col, cols_of, rule_of_node,
  push_row, push_rows, compile_region,
}

-- The slots of the outputs are those of the members, one for one.
abbrev pub SlotsOf : ValueStore → List ℕ → List ℕ → Type 0
SlotsOf vs [] [] = Unit
SlotsOf vs (id ∷ ids) (slot ∷ slots) = (dense_index id vs ≡ some slot) × SlotsOf vs ids slots
SlotsOf _ _ _ = ⊥

SlotsOf-push :
    (vs : ValueStore) (ids slots : List ℕ) (id slot : ℕ)
    → SlotsOf vs ids slots
    → dense_index id vs ≡ some slot
    → SlotsOf vs (ids ++ id ∷ []) (slots ++ slot ∷ [])
SlotsOf-push vs [] [] id slot s e = (e, tt)
SlotsOf-push vs [] (t ∷ slots) id slot s e = absurd s
SlotsOf-push vs (j ∷ ids) [] id slot s e = absurd s
SlotsOf-push vs (j ∷ ids) (t ∷ slots) id slot (p, s) e = (p, SlotsOf-push vs ids slots id slot s e)

-- The vectors so far, for the members that the loop has passed.
record Filled (vs : ValueStore) (ids : List ℕ) (c : Csr) : Type 0 where
  slots : SlotsOf vs ids c.outputs
  as_many_rules : length c.rules ≡ length ids
  one_offset_more : length c.dep_offsets ≡ suc (length ids)

-- What pushing columns leaves alone.
push_cols-kept :
    (dis : List ℕ) (c : Csr)
    → ((push_cols dis c).outputs ≡ c.outputs)
      × ((push_cols dis c).rules ≡ c.rules)
      × ((push_cols dis c).dep_offsets ≡ c.dep_offsets)
unfolding push_col
push_cols-kept [] c = (refl, refl, refl)
push_cols-kept (di ∷ dis) c = push_cols-kept dis (push_col di c)

module _ (graph : Graph) (deps : DepRegistry) (vs : ValueStore) where
  abbrev FilledIf : List ℕ → Option Csr → Type 0
  FilledIf ids none = Unit
  FilledIf ids (some c) = Filled vs ids c

  push_row-Filled :
      (ids : List ℕ) (id : ℕ) (c : Csr)
      → Filled vs ids c
      → FilledIf (ids ++ id ∷ []) (push_row graph deps vs id c)
  unfolding push_row
  push_row-Filled ids id c f = elim (Option-cases (dense_index id vs)) [
    | inl unmapped ↦ rw unmapped tt
    | inr (slot, e) ↦
        rw e (elim (Option-cases (cols_of (ordered_dep_indices_of id deps) id deps vs)) [
          | inl unmapped ↦ rw unmapped tt
          | inr (cols, g) ↦
              let start : Csr = record c {
                outputs = c.outputs ++ slot ∷ [];
                rules = c.rules ++ rule_of_node (node id graph) ∷ [];
              } in
              let kept = push_cols-kept cols start in
              let more = length-append ids (id ∷ []) in
              rw g (record {
                slots = rw kept.0 (SlotsOf-push vs ids c.outputs id slot f.slots e);
                as_many_rules = rw kept.1 (
                    length-append c.rules (rule_of_node (node id graph) ∷ [])
                    ∙ omega (arith, f.as_many_rules, more));
                one_offset_more =
                    length-append (push_cols cols start).dep_offsets
                      (u32 (length (push_cols cols start).dep_cols) ∷ [])
                    ∙ omega (arith, ap length kept.2, f.one_offset_more, more);
              })
        ])
  ]

  push_rows-Filled :
      (topo ids : List ℕ) (c : Csr)
      → Filled vs ids c
      → FilledIf (ids ++ topo) (push_rows graph deps vs topo c)
  unfolding push_rows
  push_rows-Filled [] ids c f = rw (append-nil ids) f
  push_rows-Filled (id ∷ topo) ids c f =
      let row = push_row-Filled ids id c f in
      elim (Option-cases (push_row graph deps vs id c)) [
        | inl unmapped ↦ rw unmapped tt
        | inr (c', e) ↦
            let filled : Filled vs (ids ++ id ∷ []) c' = subst (FilledIf (ids ++ id ∷ [])) e row in
            rw e (
              subst (λ (l : List ℕ). FilledIf l (push_rows graph deps vs topo c'))
                (append_assoc ids (id ∷ []) topo)
                (push_rows-Filled topo (ids ++ id ∷ []) c' filled))
      ]

-- What a circuit has in parallel.
pub record IsParallel (vs : ValueStore) (members : List ℕ) (region : CompiledRegion) : Type 0 where
  pub size : length region.members ≡ length members
  pub slots : SlotsOf vs region.members region.outputs
  pub as_many_rules : length region.rules ≡ length region.members
  pub one_offset_more : length region.dep_offsets ≡ suc (length region.members)
  pub index_built :
      inv_of region ≡ build_region_inv region.dep_offsets region.dep_cols (length region.members)

abbrev LongAs : ℕ → Option (List ℕ) → Type 0
LongAs n none = Unit
LongAs n (some topo) = length topo ≡ n

-- `if topo.len() != members.len() { return None; }`.
checked-LongAs :
    (n : ℕ) (o : Option (List ℕ))
    → LongAs n (o >>= λ topo. if eqb (length topo) n then some topo else none)
checked-LongAs n none = tt
checked-LongAs n (some topo) = elim (Bool-cases (eqb (length topo) n)) [
  | inl fits ↦ rw fits (==→eq (length topo) n fits)
  | inr short ↦ rw short tt
]

length-topo_sort :
    (members : List ℕ) (deps : DepRegistry) → LongAs (length members) (topo_sort members deps)
unfolding topo_sort
length-topo_sort members deps = checked-LongAs (length members) (
    kahn members deps (length members) (degrees members members deps [])
      (sort (ready_ids (degrees members members deps []))) [])

abbrev ParallelIf : ValueStore → List ℕ → Option CompiledRegion → Type 0
ParallelIf vs members none = Unit
ParallelIf vs members (some region) = IsParallel vs members region

compile_region-ParallelIf :
    (members : List ℕ) (graph : Graph) (deps : DepRegistry) (vs : ValueStore) (epoch : ℕ)
    → ParallelIf vs members (compile_region members graph deps vs epoch)
unfolding compile_region
compile_region-ParallelIf members graph deps vs epoch =
    let long = length-topo_sort members deps in
    elim (Option-cases (topo_sort members deps)) [
      | inl cyclic ↦ rw cyclic tt
      | inr (topo, e) ↦
          let size : length topo ≡ length members = subst (LongAs (length members)) e long in
          let start : Filled vs [] empty_csr = record {
            slots = tt;
            as_many_rules = refl;
            one_offset_more = refl;
          } in
          let rows = push_rows-Filled graph deps vs topo [] empty_csr start in
          rw e (elim (Option-cases (push_rows graph deps vs topo empty_csr)) [
            | inl unmapped ↦ rw unmapped tt
            | inr (c, f) ↦
                let filled : Filled vs topo c = subst (FilledIf graph deps vs topo) f rows in
                rw f (record {
                  size = size;
                  slots = filled.slots;
                  as_many_rules = filled.as_many_rules;
                  one_offset_more = filled.one_offset_more;
                  index_built = refl;
                })
          ])
    ]

-- The layout of a circuit that `compile_region` gives: it has as many members as were asked for, each
-- with a rule and with the output slot that the store has for it, one row offset more than rows, and
-- the index and hints that `build_region_inv` builds for its rows.
pub compile_region-IsParallel :
    (members : List ℕ) (graph : Graph) (deps : DepRegistry) (vs : ValueStore) (epoch : ℕ)
    (region : CompiledRegion)
    → compile_region members graph deps vs epoch ≡ some region
    → IsParallel vs members region
compile_region-IsParallel members graph deps vs epoch region h =
    subst (ParallelIf vs members) h (compile_region-ParallelIf members graph deps vs epoch)
