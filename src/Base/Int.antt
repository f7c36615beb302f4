-- ===== src/Base/Int.antt =====
-- int64, and int on a 64-bit machine: the number below 2 ^ 64 that is the two's complement pattern.
-- Sums and differences wrap around; from 2 ^ 63 on a pattern stands for a negative number.
use Prim.Native.Nat.{ℕ, ◌+◌, ◌-◌, ◌*◌, ◌%◌, ◌^◌, ◌≤◌, ◌<◌}
use mathlib.Core.Path.{◌≡◌}
use mathlib.Core.Logic.{◌↔◌}
use mathlib.Core.Bool.{Bool, true}
use native.Mathlib.Omega.{arith}
use resource_topology_export.Base.Tests.{ltb, leb}

abbrev pub Int64 : Type 0
Int64 = ℕ

abbrev pub int64_mod : ℕ
int64_mod = 2 ^ 64

-- The first negative pattern, -2 ^ 63.
abbrev pub int64_min : ℕ
int64_min = 2 ^ 63

-- -1
abbrev pub minus_one : Int64
minus_one = 2 ^ 64 - 1

unfoldable pub add64 : Int64 → Int64 → Int64
add64 a b = (a + b) % int64_mod

unfoldable pub sub64 : Int64 → Int64 → Int64
sub64 a b = (a + int64_mod - b % int64_mod) % int64_mod

unfoldable pub mul64 : Int64 → Int64 → Int64
mul64 a b = a * b % int64_mod

-- a < 0
unfoldable pub is_negative : Int64 → Bool
is_negative a = leb int64_min (a % int64_mod)

-- a < b, as signed numbers
unfoldable pub lt64 : Int64 → Int64 → Bool
lt64 a b = ltb ((a + int64_min) % int64_mod) ((b + int64_min) % int64_mod)

-- int64(u), int(u) of an unsigned or longer number
unfoldable pub to_int64 : ℕ → Int64
to_int64 n = n % int64_mod

-- An int64 pattern that stands for a number that is not negative.
abbrev pub NonNegative : Int64 → Type 0
NonNegative a = a < int64_min

-- A pattern that stands for a positive number.
abbrev pub IsPositive : Int64 → Type 0
IsPositive a = (0 < a % int64_mod) × (a % int64_mod < int64_min)

pub lt64_zero_iff : (a : Int64) → (lt64 0 a ≡ true) ↔ IsPositive a
unfolding lt64
lt64_zero_iff a = (λ h. ground arith, λ h. ground (arith, h.0, h.1))

pub add64_swap : (a b c : Int64) → add64 (add64 a b) c ≡ add64 (add64 a c) b
unfolding add64
add64_swap a b c = omega arith

pub add64_assoc : (a b c : Int64) → add64 (add64 a b) c ≡ add64 a (add64 b c)
unfolding add64
add64_assoc a b c = omega arith

pub add64-eq-add : (a b : Int64) → a + b < int64_mod → add64 a b ≡ a + b
unfolding add64
add64-eq-add a b h = omega arith

pub sub64_negative :
    (a b : Int64) → NonNegative a → NonNegative b → is_negative (sub64 a b) ≡ ltb a b
unfolding is_negative sub64
sub64_negative a b h k = ground arith

pub sub64-eq-sub : (a b : Int64) → NonNegative a → NonNegative b → b ≤ a → sub64 a b ≡ a - b
unfolding sub64
sub64-eq-sub a b h k le = omega arith

pub lt64-eq-ltb : (a b : Int64) → NonNegative a → NonNegative b → lt64 a b ≡ ltb a b
unfolding lt64
lt64-eq-ltb a b h k = ground arith
