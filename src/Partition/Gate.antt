-- ===== src/Partition/Gate.antt =====
-- The authority gate: bit masks as sets, and what an admission means.
use pgress.Prelude.{ℕ, ◌≡◌, ◌↔◌, ◌≤◌, bit_and, arith, true, none, eqb_iff, ap}
use pgress.Prelude.Bits.{bit, bit-bit_and, bit_ext}
use pgress.Partition.{
  CompiledEdgeLabel, EmittedAuth, PartitionDecl, flows_to, allows, scope_contains, authority_gate,
  from_local,
}

-- `a` is a subset of `b`, digit by digit.
abbrev pub Within : ℕ → ℕ → Type 0
Within a b = (i : ℕ) → bit a i ≤ bit b i

left-Within : (a b : ℕ) → (bit_and a b ≡ a) ↔ Within a b
left-Within a b = (
  λ e i. ground (arith, bit-bit_and a b i, ap (λ x. bit x i) e),
  λ h. bit_ext (bit_and a b) a λ i. ground (arith, bit-bit_and a b i, h i),
)

right-Within : (a b : ℕ) → (bit_and b a ≡ a) ↔ Within a b
right-Within a b = (
  λ e i. ground (arith, bit-bit_and b a i, ap (λ x. bit x i) e),
  λ h. bit_ext (bit_and b a) a λ i. ground (arith, bit-bit_and b a i, h i),
)

-- A lattice class flows to exactly those that have all of its digits.
pub flows_to_iff : (a b : ℕ) → (flows_to a b ≡ true) ↔ Within a b
unfolding flows_to
flows_to_iff a b = (
  λ e. (left-Within a b).0 ((eqb_iff (bit_and a b) a).0 e),
  λ h. (eqb_iff (bit_and a b) a).1 ((left-Within a b).1 h),
)

pub flows_to-antisym : (a b : ℕ) → flows_to a b ≡ true → flows_to b a ≡ true → a ≡ b
flows_to-antisym a b p q =
    bit_ext a b λ i. omega (arith, (flows_to_iff a b).0 p i, (flows_to_iff b a).0 q i)

-- The gate opens exactly if the emitted capability and scope are within those of the label and the
-- emitted class flows to that of the label.
pub authority_gate_iff :
    (compiled : CompiledEdgeLabel) (emitted : EmittedAuth)
    → (authority_gate compiled emitted ≡ none) ↔ (
        Within emitted.capability compiled.capability
        × Within emitted.scope_bits compiled.causal_scope_bits
        × Within emitted.class compiled.lattice_class)
unfolding authority_gate allows scope_contains flows_to
authority_gate_iff c e =
    let a = right-Within e.capability c.capability in
    let s = right-Within e.scope_bits c.causal_scope_bits in
    let f = left-Within e.class c.lattice_class in
    (
      λ o. (a.0 (ground arith), s.0 (ground arith), f.0 (ground arith)),
      λ (p, q, r). ground (arith, a.1 p, s.1 q, f.1 r),
    )

-- A local push is stopped by the lattice only: capability and scope are those of the label itself.
pub authority_gate-from_local :
    (compiled : CompiledEdgeLabel) (decl : PartitionDecl)
    → (authority_gate compiled (from_local compiled decl) ≡ none)
      ↔ (flows_to decl.lattice_class compiled.lattice_class ≡ true)
authority_gate-from_local c d =
    let gate = authority_gate_iff c (from_local c d) in
    let flow = flows_to_iff d.lattice_class c.lattice_class in
    (
      λ o. flow.1 (unfold from_local in (gate.0 o).2),
      λ h. gate.1 (unfold from_local in ((λ i. omega arith), (λ i. omega arith), flow.0 h)),
    )
