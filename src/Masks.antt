-- ===== src/Masks.antt =====
-- The interned projection masks of core-rs/src/mask.rs. A `MaskId` is its `u32`; `intern` writes the
-- cast out. All that is asked of a mask is its derived equality.
pub mod Interned
use pgress.Prelude.{
  ℕ, ◌%◌, ◌^◌, List, [], ◌∷◌, ◌++◌, Option, none, some, length, get_elem?, Map, get, insert, Key,
}

pub record MaskRegistry {ℓ} (A : Type ℓ) : Type ℓ where
  pub by_mask : Map A ℕ
  pub by_id : List A

abbrev pub new {ℓ} : {A : Type ℓ} → MaskRegistry A
new = record { by_mask = []; by_id = [] }

module _ {ℓ} {A : Type ℓ} ⦃e : Key A⦄ where
  abbrev pub known : Option ℕ → A → MaskRegistry A → MaskRegistry A × ℕ
  known (some id) mask r = (r, id)
  known none mask r =
      let id = length r.by_id % 2 ^ 32 in
      (record { by_mask = insert mask id r.by_mask; by_id = r.by_id ++ mask ∷ [] }, id)

  unfoldable pub intern : A → MaskRegistry A → MaskRegistry A × ℕ
  intern mask r = known (get mask r.by_mask) mask r

-- `None` where the source panics.
unfoldable pub resolve {ℓ} : {A : Type ℓ} → ℕ → MaskRegistry A → Option A
resolve id r = get_elem? r.by_id id
