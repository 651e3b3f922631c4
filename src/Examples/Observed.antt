-- ===== src/Examples/Observed.antt =====
-- Sensitivities and interned masks at concrete inputs.
use pgress.Prelude.{ℕ, ◌≡◌, ◌<◌, ◌^◌, arith, length, some, get, nat_eq}
use pgress.Masks.{MaskRegistry, new, intern, resolve}
use pgress.Masks.Interned.{IsInterned, intern-IsInterned, intern_lem}

new-IsInterned : IsInterned {A = ℕ} new
unfolding get resolve
new-IsInterned = record { resolves = λ m id h. ground arith; finds = λ m id h. ground arith }

abbrev one_mask : MaskRegistry ℕ
one_mask = (intern 17 new).0

one_mask-IsInterned : IsInterned one_mask
one_mask-IsInterned = intern-IsInterned 17 new (omega arith) new-IsInterned

one_mask_small : length one_mask.by_id < 2 ^ 32
unfolding intern get
one_mask_small = omega arith

intern_example :
    (resolve (intern 23 one_mask).1 (intern 23 one_mask).0 ≡ some 23)
    × (intern 23 (intern 23 one_mask).0 ≡ intern 23 one_mask)
intern_example = intern_lem 23 one_mask one_mask_small one_mask-IsInterned
