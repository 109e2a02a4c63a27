-- ===== src/Prelude/Strings.antt =====
-- Go strings and byte slices: lists of bytes.
use Prim.Native.Nat.{ℕ, zero, suc, ◌+◌}
use Prim.Native.Char.{code}
use Prim.Native.String.{String}
use mathlib.Core.Path.{◌≡◌, refl}
use mathlib.Core.Logic.{◌↔◌}
use mathlib.Core.Bool.{Bool, true, false, ◌&&◌}
use mathlib.Core.List.{List, [], ◌∷◌, ◌++◌}
use native.Mathlib.Omega.{arith}
use iplsgo.Prelude.Tests.{eqb, Comparable}

abbrev pub Str : Type 0
Str = List ℕ

-- An ASCII literal.
abbrev pub bytes : String → Str
bytes String.[] = []
bytes (String.◌∷◌ c s) = code c ∷ bytes s

unfoldable pub str_eq : Str → Str → Bool
str_eq [] [] = true
str_eq [] (y ∷ ys) = false
str_eq (x ∷ xs) [] = false
str_eq (x ∷ xs) (y ∷ ys) = eqb x y && str_eq xs ys

pub str_eq_iff : (s t : Str) → (str_eq s t ≡ true) ↔ (s ≡ t)
unfolding str_eq
str_eq_iff [] [] = ground arith
str_eq_iff [] (y ∷ ys) = ground arith
str_eq_iff (x ∷ xs) [] = ground arith
str_eq_iff (x ∷ xs) (y ∷ ys) = ground (arith, str_eq_iff xs ys)

pub str_eq_refl : (s : Str) → str_eq s s ≡ true
str_eq_refl s = (str_eq_iff s s).1 refl

instance abbrev pub str_Eq : Comparable Str
str_Eq = record { same = str_eq; same_iff = str_eq_iff }

module _ {ℓ} {A : Type ℓ} where
  abbrev pub length : List A → ℕ
  length [] = 0
  length (x ∷ xs) = suc (length xs)

  pub length-append : (xs ys : List A) → length (xs ++ ys) ≡ length xs + length ys
  length-append [] ys = omega arith
  length-append (x ∷ xs) ys = omega (arith, length-append xs ys)

  abbrev pub is_empty : List A → Bool
  is_empty [] = true
  is_empty (x ∷ xs) = false

  abbrev pub drop : ℕ → List A → List A
  drop zero xs = xs
  drop (suc n) [] = []
  drop (suc n) (x ∷ xs) = drop n xs
