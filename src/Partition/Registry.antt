-- ===== src/Partition/Registry.antt =====
-- The labels that the partition registry compiles.
use pgress.Prelude.{
  ℕ, ◌≡◌, refl, ◌∙◌, ap, arith, Option, none, some, get, insert, get-insert, nat_eq, min,
}
use pgress.Prelude.Bits.{bit, bit-bit_and}
use pgress.Partition.{
  EdgeLabel, CompiledEdgeLabel, EmittedAuth, PartitionDecl, PartitionRegistry, register, compile,
  compile_label, authority_gate, narrow, decl_of,
}
use pgress.Partition.Gate.{Within, authority_gate_iff}

narrow-Within :
    (o : Option PartitionDecl) (label : CompiledEdgeLabel)
    → Within (narrow o label).causal_scope_bits label.causal_scope_bits
narrow-Within none label i = omega arith
narrow-Within (some decl) label i =
    omega (arith, bit-bit_and label.causal_scope_bits decl.causal_domain.scope_bits i)

narrow-rest :
    (o : Option PartitionDecl) (label : CompiledEdgeLabel)
    → ((narrow o label).capability ≡ label.capability)
      × ((narrow o label).lattice_class ≡ label.lattice_class)
narrow-rest none label = (refl, refl)
narrow-rest (some decl) label = (refl, refl)

-- Compiling a label for a partition never opens the gate further: what passes the label compiled for
-- the partition passes the label compiled alone.
pub compile_label-narrows :
    (label : EdgeLabel) (source : Option ℕ) (r : PartitionRegistry) (emitted : EmittedAuth)
    → authority_gate (compile_label label source r) emitted ≡ none
    → authority_gate (compile label) emitted ≡ none
unfolding compile_label
compile_label-narrows label source r emitted h =
    let o = decl_of source r in
    let (cap, scope, class) = (authority_gate_iff (compile_label label source r) emitted).0 h in
    let (same_cap, same_class) = narrow-rest o (compile label) in
    (authority_gate_iff (compile label) emitted).1 (
      (λ i. omega (arith, cap i, ap (λ x. bit x i) same_cap)),
      (λ i. omega (arith, scope i, narrow-Within o (compile label) i)),
      (λ i. omega (arith, class i, ap (λ x. bit x i) same_class)),
    )

-- For a registered partition the compiled scope is the label's scope cut down to its domain, digit
-- by digit.
pub compile_label-register :
    (label : EdgeLabel) (decl : PartitionDecl) (r : PartitionRegistry) (i : ℕ)
    → bit (compile_label label (some decl.id) (register decl r)).causal_scope_bits i
      ≡ min (bit label.causal_scope.scope_bits i) (bit decl.causal_domain.scope_bits i)
unfolding compile_label compile register
compile_label-register label decl r i =
    let found : get decl.id (insert decl.id decl r) ≡ some decl =
      get-insert decl.id decl.id decl r ∙ ground arith in
    rw found (bit-bit_and label.causal_scope.scope_bits decl.causal_domain.scope_bits i)
