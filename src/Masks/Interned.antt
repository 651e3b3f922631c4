-- ===== src/Masks/Interned.antt =====
-- Interning gives every mask one id, and every id resolves to its mask.
use native.Mathlib.Nat.{mod-eq_of_lt}
use pgress.Prelude.{
  ℕ, zero, suc, ◌%◌, ◌^◌, ◌<◌, ◌≡◌, refl, ◌∙◌, arith, List, [], ◌∷◌, ◌++◌, none, some, length,
  get_elem?, get, insert, get-insert, Key, eqb, if◌then◌else◌, inl, inr, Option-cases, ==-refl,
}
use pgress.Masks.{MaskRegistry, intern, known, resolve}

get_elem?-push {ℓ} :
    {A : Type ℓ} (xs : List A) (x : A) (i : ℕ)
    → get_elem? (xs ++ x ∷ []) i ≡ (if eqb i (length xs) then some x else get_elem? xs i)
get_elem?-push [] x zero = refl
get_elem?-push [] x (suc i) = ground arith
get_elem?-push (y ∷ xs) x zero = ground arith
get_elem?-push (y ∷ xs) x (suc i) = ground (arith, get_elem?-push xs x i)

get_elem?-past {ℓ} :
    {A : Type ℓ} (xs : List A) (x : A) (i : ℕ) → get_elem? xs i ≡ some x → i < length xs
get_elem?-past [] x i h = ground arith
get_elem?-past (y ∷ xs) x zero h = ground arith
get_elem?-past (y ∷ xs) x (suc i) h = ground (arith, get_elem?-past xs x i)

module _ {ℓ} {A : Type ℓ} ⦃e : Key A⦄ where
  -- The two sides of the registry name the same pairs.
  pub record IsInterned (r : MaskRegistry A) : Type ℓ where
    pub resolves : (m : A) (id : ℕ) → get m r.by_mask ≡ some id → resolve id r ≡ some m
    pub finds : (m : A) (id : ℕ) → resolve id r ≡ some m → get m r.by_mask ≡ some id

  fresh-IsInterned :
      (m : A) (r : MaskRegistry A)
      → length r.by_id < 2 ^ 32
      → get m r.by_mask ≡ none
      → IsInterned r
      → IsInterned (known none m r).0
  unfolding resolve
  fresh-IsInterned m r h n k = record {
    resolves = λ l id f. ground (
      arith,
      get-insert l m (length r.by_id % 2 ^ 32) r.by_mask,
      get_elem?-push r.by_id m id,
      mod-eq_of_lt h,
      k.resolves l id,
      get_elem?-past r.by_id l id,
      e.key_iff m l,
    );
    finds = λ l id f. ground (
      arith,
      n,
      get-insert l m (length r.by_id % 2 ^ 32) r.by_mask,
      get_elem?-push r.by_id m id,
      mod-eq_of_lt h,
      k.finds l id,
      e.key_iff m l,
    );
  }

  -- Interning into a registry of fewer than 2^32 masks keeps the invariant.
  pub intern-IsInterned :
      (m : A) (r : MaskRegistry A)
      → length r.by_id < 2 ^ 32
      → IsInterned r
      → IsInterned (intern m r).0
  unfolding intern
  intern-IsInterned m r h k = elim (Option-cases (get m r.by_mask)) [
    | inl n ↦ rw n (fresh-IsInterned m r h n k)
    | inr (id, f) ↦ rw f k
  ]

  -- In a registry of fewer than 2^32 masks whose two sides name the same pairs, the id that interning
  -- returns resolves to the mask, and interning it again changes nothing and returns the same id.
  pub intern_lem :
      (m : A) (r : MaskRegistry A)
      → length r.by_id < 2 ^ 32
      → IsInterned r
      → (resolve (intern m r).1 (intern m r).0 ≡ some m) × (intern m (intern m r).0 ≡ intern m r)
  unfolding intern resolve
  intern_lem m r h k = elim (Option-cases (get m r.by_mask)) [
    | inl n ↦
        let found : get m (insert m (length r.by_id % 2 ^ 32) r.by_mask)
            ≡ some (length r.by_id % 2 ^ 32) =
          get-insert m m (length r.by_id % 2 ^ 32) r.by_mask ∙ ground (arith, ==-refl m) in
        rw n (
          ground (arith, get_elem?-push r.by_id m (length r.by_id % 2 ^ 32), mod-eq_of_lt h),
          rw found refl,
        )
    | inr (id, f) ↦ rw (f, f) ((unfold resolve in k.resolves m id f), refl)
  ]
