-- ===== src/Base/Text.antt =====
-- Text as lists of bytes. A `const char*` is `none` for a null pointer, and otherwise the bytes
-- before its terminator.
use Prim.Native.Nat.{ℕ}
use Prim.Native.Char.{code}
use Prim.Native.String.{String}
use mathlib.Core.Bool.{Bool, true, false, ◌&&◌}
use mathlib.Core.Path.{◌≡◌, refl}
use mathlib.Core.List.{List, [], ◌∷◌}
use mathlib.Core.Option.{Option}
use native.Mathlib.Omega.{arith}
use cuddly_train.Base.Tests.{◌==◌}

abbrev pub CString : Type 0
CString = Option (List ℕ)

abbrev pub codes : String → List ℕ
codes String.[] = []
codes (String.◌∷◌ c s) = code c ∷ codes s

-- `strcmp(a, b) == 0`.
unfoldable pub str_eq : List ℕ → List ℕ → Bool
str_eq [] [] = true
str_eq [] (y ∷ ys) = false
str_eq (x ∷ xs) [] = false
str_eq (x ∷ xs) (y ∷ ys) = (x == y) && str_eq xs ys

pub str_eq_refl : (xs : List ℕ) → str_eq xs xs ≡ true
unfolding str_eq
str_eq_refl [] = refl
str_eq_refl (x ∷ xs) = ground (arith, str_eq_refl xs)

pub str_eq_sound : (xs ys : List ℕ) → str_eq xs ys ≡ true → xs ≡ ys
unfolding str_eq
str_eq_sound [] [] h = refl
str_eq_sound [] (y ∷ ys) h = ground arith
str_eq_sound (x ∷ xs) [] h = ground arith
str_eq_sound (x ∷ xs) (y ∷ ys) h = ground (arith, str_eq_sound xs ys)

pub str_eq_comm : (xs ys : List ℕ) → str_eq xs ys ≡ str_eq ys xs
unfolding str_eq
str_eq_comm [] [] = refl
str_eq_comm [] (y ∷ ys) = refl
str_eq_comm (x ∷ xs) [] = refl
str_eq_comm (x ∷ xs) (y ∷ ys) = ground (arith, str_eq_comm xs ys)
