-- ===== src/Region/Consistent.antt =====
-- A run of a compiled region (core-rs/src/region.rs): the two phases together.
use pgress.Prelude.{
  ℕ, zero, suc, ◌+◌, ◌/◌, ◌≤◌, ◌<◌, ◌≡◌, ◌≢◌, ◌⊎◌, refl, sym, ap, subst, ◌∙◌, inl, inr, arith, true,
  false, List, [], some, some-inj, length, eqb, Bool-cases, Option-cases, ==→eq, nat_eq,
}
use pgress.Prelude.Sorting.{member}
use pgress.Ternary.{T, same}
use pgress.Ternary.Algebra.{same→eq}
use pgress.Values.{ValueStore, set_by_dense, get_by_dense}
use pgress.Values.Planes.{PlanesMatch, Wide, digit, set_by_dense-PlanesMatch}
use pgress.Node.{eval}
use pgress.Region.{CompiledRegion}
use pgress.Region.Run.{
  Pass, row_deps, rule_at, output_at, gather, readers, is_raised, eval_row, commit, run_row,
  run_rows, initial_pending, run_compiled_region,
}
use pgress.Region.Row.{IsCircuit, gather-set, eval_row-gather}
use pgress.Region.Named.{IsBuilt, readers_iff}
use pgress.Region.Digits.{On, is_raised_iff}
use pgress.Region.Marks.{length-initial_pending, initial_pending-On}
use pgress.Region.Commit.{
  raise_after-kept, length-raise_after, raise_after-On, get_by_dense-set_self, get_by_dense-set_ne,
  length-set_by_dense, some_dirty,
}

-- The output of row `r` holds what its rule gives on its dependencies, if it gives anything.
abbrev pub Settled : CompiledRegion → ValueStore → ℕ → Type 0
Settled region vs r =
    (v : T)
    → eval (rule_at region r) (gather region r vs) ≡ some v
    → get_by_dense (output_at region r) vs ≡ v

module _ (cells : ℕ) (region : CompiledRegion) (circuit : IsCircuit cells region)
    (built : IsBuilt region) where
  -- Before row `i`: the rows before it are settled, and each other one is settled or on the mask.
  record Before (i : ℕ) (pass : Pass) : Type 0 where
    planes : PlanesMatch pass.store
    size : length pass.store.cache ≡ cells
    room : length pass.pending ≡ (length region.members + 63) / 64
    done : (r : ℕ) → r < i → r < length region.members → Settled region pass.store r
    ahead :
        (r : ℕ)
        → i ≤ r
        → r < length region.members
        → On pass.pending r ⊎ Settled region pass.store r

  -- A write of one output leaves settled every row that does not read it, but for its own.
  Settled-set :
      (r d : ℕ) (v : T) (vs : ValueStore)
      → member d (row_deps region r) ≡ false
      → output_at region r ≢ d
      → Settled region vs r
      → Settled region (set_by_dense d v vs) r
  Settled-set r d v vs unread other settled w e =
      get_by_dense-set_ne d (output_at region r) v vs (λ p. other (sym p))
      ∙ settled w (
          subst (λ (xs : List T). eval (rule_at region r) xs ≡ some w)
            (gather-set region r d v vs unread) e)

  unread_by :
      (i r : ℕ)
      → i < length region.members
      → r < length region.members
      → r ≤ i
      → member (output_at region i) (row_deps region r) ≡ false
  unread_by i r h p q = elim (Bool-cases (member (output_at region i) (row_deps region r))) [
    | inl reads ↦ absurd (let after = circuit.ordered r i p h reads in omega arith)
    | inr no_read ↦ no_read
  ]

  -- A row that is settled needs no round.
  skip-Before :
      (i : ℕ) (pass : Pass) → Settled region pass.store i → Before i pass → Before (suc i) pass
  skip-Before i pass settled b = record {
    planes = b.planes;
    size = b.size;
    room = b.room;
    done = λ r p q. elim (Bool-cases (eqb r i)) [
      | inl now ↦ subst (λ (k : ℕ). Settled region pass.store k) (sym (==→eq r i now)) settled
      | inr before ↦ b.done r (ground arith) q
    ];
    ahead = λ r p q. b.ahead r (omega arith) q;
  }

  commit-Before :
      (i : ℕ) (v : T) (pass : Pass)
      → i < length region.members
      → eval (rule_at region i) (gather region i pass.store) ≡ some v
      → Before i pass
      → Before (suc i) (commit region i v pass)
  unfolding commit
  commit-Before i v pass h e b =
      let d = output_at region i in
      let old = get_by_dense d pass.store in
      let inside : d < length pass.store.cache = rw b.size (circuit.outputs_in i h) in
      elim (Bool-cases (same old v)) [
        | inl kept ↦
            rw kept (skip-Before i pass (λ w e'. same→eq old v kept ∙ some-inj (sym e ∙ e')) b)
        | inr changed ↦ rw changed (record {
          planes = set_by_dense-PlanesMatch d v pass.store inside b.planes;
          size = length-set_by_dense d v pass.store ∙ b.size;
          room = length-raise_after i (readers region d) pass.pending ∙ b.room;
          done = λ r p q. elim (Bool-cases (eqb r i)) [
            | inl now ↦
                subst (λ (k : ℕ). Settled region (set_by_dense d v pass.store) k)
                  (sym (==→eq r i now))
                  (λ w e'.
                    get_by_dense-set_self d v pass.store inside
                    ∙ some-inj (
                        sym e
                        ∙ ap (eval (rule_at region i)) (
                            sym (
                              gather-set region i d v pass.store (unread_by i i h h (omega arith))))
                        ∙ e'))
            | inr before ↦
                Settled-set r d v pass.store (unread_by i r h q (omega arith))
                  (λ same_slot. let clash = circuit.apart r i q h same_slot in ground arith)
                  (b.done r (ground arith) q)
          ];
          ahead = λ r p q. elim (b.ahead r (omega arith) q) [
            | inl on ↦ inl (raise_after-kept i (readers region d) pass.pending r on)
            | inr settled ↦ elim (Bool-cases (member d (row_deps region r))) [
              | inl reads ↦ inl (
                  raise_after-On i (readers region d) pass.pending r
                    ((readers_iff region r d built).1 (q, reads)) p (omega (arith, b.room)))
              | inr no_read ↦ inr (
                  Settled-set r d v pass.store no_read
                    (λ same_slot. let clash = circuit.apart r i q h same_slot in omega arith)
                    settled)
            ]
          ];
        })
      ]

  run_row-Before :
      (i : ℕ) (pass : Pass)
      → i < length region.members
      → Before i pass
      → Before (suc i) (run_row region i pass)
  unfolding run_row
  run_row-Before i pass h b =
      let fits : IsCircuit (length pass.store.cache) region = rw b.size circuit in
      let row = eval_row-gather region i pass.store fits built b.planes h in
      elim (Bool-cases (is_raised i pass.pending)) [
        | inl on ↦ rw on (elim (Option-cases (eval_row region i pass.store)) [
          | inl nothing ↦ rw nothing (skip-Before i pass (λ w e. ground (arith, row, e, nothing)) b)
          | inr (v, e) ↦ rw e (commit-Before i v pass h (sym row ∙ e) b)
        ])
        | inr off ↦ rw off (
            skip-Before i pass
              (elim (b.ahead i (omega arith) h) [
                | inl on ↦ absurd (ground (arith, is_raised_iff i pass.pending))
                | inr settled ↦ settled
              ])
              b)
      ]

  run_rows-Before :
      (rounds i : ℕ) (pass : Pass)
      → rounds + i ≡ length region.members
      → Before i pass
      → Before (length region.members) (run_rows region rounds i pass)
  unfolding run_rows
  run_rows-Before zero i pass e b = subst (λ (k : ℕ). Before k pass) (omega arith) b
  run_rows-Before (suc rounds) i pass e b =
      let next : i + 1 ≡ suc i = omega arith in
      subst
        (λ (k : ℕ).
          Before (length region.members) (run_rows region rounds k (run_row region i pass)))
        (sym next)
        (run_rows-Before rounds (suc i) (run_row region i pass) (omega arith)
          (run_row-Before i pass (omega arith) b))

-- A run of a circuit that fits the store, with its index and hints as they are built, on a store
-- whose planes match its cache: if before the run every row is settled that reads no dirty slot, then
-- after it every row is settled, which means that its output holds what its rule gives, if anything,
-- on its dependencies as they are after the run. The planes match the cache after it, too.
pub run_compiled_region-Settled :
    (region : CompiledRegion) (vs : ValueStore) (dirty_slots : List ℕ)
    → IsCircuit (length vs.cache) region
    → IsBuilt region
    → PlanesMatch vs
    → Wide dirty_slots
    → ((r : ℕ)
        → r < length region.members
        → ((col : ℕ) → member col (row_deps region r) ≡ true → digit dirty_slots col ≡ 0)
        → Settled region vs r)
    → PlanesMatch (run_compiled_region region vs dirty_slots).1
      × ((r : ℕ)
          → r < length region.members
          → Settled region (run_compiled_region region vs dirty_slots).1 r)
unfolding run_compiled_region
run_compiled_region-Settled region vs dirty_slots circuit built planes wide clean =
    let start : Pass = record {
      store = vs;
      dirty_slots = dirty_slots;
      pending = initial_pending region dirty_slots;
      changed = [];
    } in
    let room = length-initial_pending region dirty_slots in
    let before : Before (length vs.cache) region circuit built 0 start = record {
      planes = planes;
      size = refl;
      room = room;
      done = λ r p q. absurd (omega arith);
      ahead = λ r p q. elim (some_dirty dirty_slots (row_deps region r)) [
        | inl (col, m, on) ↦ inl (
            initial_pending-On region dirty_slots col r wide
              (omega (arith, circuit.deps_in r col q m, circuit.small)) on
              ((readers_iff region r col built).1 (q, m)) q)
        | inr none_dirty ↦ inr (clean r q none_dirty)
      ];
    } in
    let after =
      run_rows-Before (length vs.cache) region circuit built (length region.members) 0 start
        (omega arith) before in
    elim (Bool-cases (eqb (length region.members) 0)) [
      | inl empty ↦ rw empty (planes, λ r q. absurd (ground arith))
      | inr rows ↦ rw rows (after.planes, λ r q. after.done r q q)
    ]
