-- ===== src/Prelude/Int.antt =====
-- Go's signed integers. `negsuc n` is -(n + 1).
use Prim.Native.Nat.{ℕ, ◌-◌, ◌%◌, ◌^◌}
use mathlib.Core.Path.{◌≡◌}
use mathlib.Core.Logic.{◌↔◌}
use mathlib.Core.Bool.{Bool, true, false}
use native.Mathlib.Omega.{arith}
use iplsgo.Prelude.Tests.{eqb, ltb, if◌then◌else◌, Comparable}

pub data ℤ : Type 0 where
  pos : ℕ → ℤ
  negsuc : ℕ → ℤ

abbrev int_eq : ℤ → ℤ → Bool
int_eq (pos n) (pos m) = eqb n m
int_eq (negsuc n) (negsuc m) = eqb n m
int_eq _ _ = false

pub int_eq_iff : (a b : ℤ) → (int_eq a b ≡ true) ↔ (a ≡ b)
int_eq_iff (pos n) (pos m) = ground arith
int_eq_iff (pos n) (negsuc m) = ground arith
int_eq_iff (negsuc n) (pos m) = ground arith
int_eq_iff (negsuc n) (negsuc m) = ground arith

instance abbrev pub int_Eq : Comparable ℤ
int_Eq = record { same = int_eq; same_iff = int_eq_iff }

abbrev pub is_negative : ℤ → Bool
is_negative (pos n) = false
is_negative (negsuc n) = true

-- The 64 bits of an integer, and the integer of 64 bits.
unfoldable pub to_word : ℤ → ℕ
to_word (pos n) = n % 2 ^ 64
to_word (negsuc n) = 2 ^ 64 - 1 - n % 2 ^ 64

unfoldable pub of_word : ℕ → ℤ
of_word w = if ltb w (2 ^ 63) then pos w else negsuc (2 ^ 64 - 1 - w)
