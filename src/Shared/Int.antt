-- ===== src/Shared/Int.antt =====
-- Go's `int64`, as its bit pattern: a number below 2 ^ 64, negative from 2 ^ 63 on; and exit codes.
use Prim.Native.Nat.{ℕ, zero, suc, ◌+◌, ◌%◌, ◌^◌}
use mathlib.Core.Bool.{Bool, true, false}
use auto_restic.Shared.Tests.{leb, nat_eq}

abbrev pub i64_mod : ℕ
i64_mod = 2 ^ 64

abbrev pub i64_sign : ℕ
i64_sign = 2 ^ 63

abbrev pub add64 : ℕ → ℕ → ℕ
add64 a b = (a + b) % i64_mod

-- x < 0
abbrev pub is_neg : ℕ → Bool
is_neg x = leb i64_sign x

-- An `int`, where it may be negative; `negsuc n` is -(n + 1).
pub data ℤ : Type 0 where
  pos : ℕ → ℤ
  negsuc : ℕ → ℤ

abbrev pub is_zero : ℤ → Bool
is_zero (pos zero) = true
is_zero (pos (suc n)) = false
is_zero (negsuc n) = false

abbrev pub int_eq : ℤ → ℤ → Bool
int_eq (pos a) (pos b) = nat_eq a b
int_eq (negsuc a) (negsuc b) = nat_eq a b
int_eq _ _ = false
