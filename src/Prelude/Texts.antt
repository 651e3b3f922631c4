-- ===== src/Prelude/Texts.antt =====
-- Equality of strings, for keys and type names.
use Prim.Native.String.{String}
use text.Mathlib.Text.{◌==◌ as str_eq}
use text.Mathlib.TextEquality.{eq_iff}
use pgress.Prelude.{Key}

instance abbrev pub string_eq : Key String
string_eq = record { same_key = str_eq; key_iff = eq_iff }
