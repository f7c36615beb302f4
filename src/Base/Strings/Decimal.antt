-- ===== src/Base/Strings/Decimal.antt =====
-- Numbers printed by fmt's %d and read back by strconv.ParseInt.
use Prim.Native.Nat.{ℕ, zero, suc, ◌+◌, ◌-◌, ◌*◌, ◌/◌, ◌%◌, ◌^◌, ◌≤◌, ◌<◌}
use native.Mathlib.Nat.{pow-suc}
use mathlib.Core.Path.{◌≡◌, ap, ◌∙◌}
use mathlib.Core.Bool.{true, false}
use mathlib.Core.Option.{none, some}
use mathlib.Core.List.{[], ◌∷◌, ◌++◌}
use mathlib.Core.Logic.{inl, inr}
use native.Mathlib.Omega.{arith}
use resource_topology_export.Base.Tests.{Text, Bool-cases, ltb}
use resource_topology_export.Base.Int.{int64_min, int64_mod}
use resource_topology_export.Base.Strings.{
  format_digits, format_uint, read_digits, parsed_magnitude, parse_int,
}

read_digits_snoc :
    (s : Text) (acc m d : ℕ)
    → read_digits acc s ≡ some m
    → d < 10
    → m * 10 + d < int64_mod
    → read_digits acc (s ++ (48 + d) ∷ []) ≡ some (m * 10 + d)
unfolding read_digits
read_digits_snoc [] acc m d h lt fits = ground arith
read_digits_snoc (c ∷ s) acc m d h lt fits =
    ground (arith, read_digits_snoc s (acc * 10 + (c - 48)) m d)

format_digits_short : (f n : ℕ) → ltb n 10 ≡ true → format_digits (suc f) n ≡ (48 + n) ∷ []
unfolding format_digits
format_digits_short f n h = rw h

format_digits_long :
    (f n : ℕ)
    → ltb n 10 ≡ false
    → format_digits (suc f) n ≡ format_digits f (n / 10) ++ (48 + n % 10) ∷ []
unfolding format_digits
format_digits_long f n h = rw h

read_one : (n : ℕ) → n < 10 → read_digits 0 ((48 + n) ∷ []) ≡ some n
unfolding read_digits
read_one n h = ground arith

last_digit : (n : ℕ) → n / 10 * 10 + n % 10 ≡ n
last_digit n = omega arith

-- Enough digits: what was printed is read back.
read_digits-format_digits :
    (f n : ℕ) → n < 10 ^ suc f → n < int64_mod → read_digits 0 (format_digits (suc f) n) ≡ some n
read_digits-format_digits zero n h fits =
    rw (format_digits_short zero n (ground arith)) (read_one n (omega arith))
read_digits-format_digits (suc f) n h fits = elim (Bool-cases (ltb n 10)) [
  | inl e ↦ rw (format_digits_short (suc f) n e) (read_one n (ground arith))
  | inr e ↦
      let below : n / 10 < 10 ^ suc f = omega (arith, pow-suc 10 (suc f)) in
      rw (format_digits_long (suc f) n e) (
        read_digits_snoc (format_digits (suc f) (n / 10)) 0 (n / 10) (n % 10)
          (read_digits-format_digits f (n / 10) below (omega arith)) (omega arith) (omega arith)
        ∙ ap some (last_digit n))
]

-- What is printed begins with a digit.
format_digits_head : (f n : ℕ) → (c : ℕ) × (s : Text) × (format_digits (suc f) n ≡ c ∷ s) × (48 ≤ c)
format_digits_head zero n = elim (Bool-cases (ltb n 10)) [
  | inl e ↦ (48 + n, [], format_digits_short zero n e, omega arith)
  | inr e ↦ (48 + n % 10, [], unfold format_digits in format_digits_long zero n e, omega arith)
]
format_digits_head (suc f) n = elim (Bool-cases (ltb n 10)) [
  | inl e ↦ (48 + n, [], format_digits_short (suc f) n e, omega arith)
  | inr e ↦
      let (c, s, q, le) = format_digits_head f (n / 10) in
      (
        c,
        s ++ (48 + n % 10) ∷ [],
        format_digits_long (suc f) n e ∙ ap (λ t. t ++ (48 + n % 10) ∷ []) q,
        le,
      )
]

parse_int_digit :
    (c : ℕ) (s : Text) → 48 ≤ c → parse_int (c ∷ s) ≡ parsed_magnitude false (read_digits 0 (c ∷ s))
unfolding parse_int
parse_int_digit c s le = ground arith

parsed_magnitude_fits :
    (n : ℕ) → n < int64_min → parsed_magnitude false (some n) ≡ record { value = n; error = none }
unfolding parsed_magnitude
parsed_magnitude_fits n lt = ground arith

parse_int_magnitude :
    (c : ℕ) (s : Text) (n : ℕ)
    → 48 ≤ c
    → n < int64_min
    → read_digits 0 (c ∷ s) ≡ some n
    → parse_int (c ∷ s) ≡ record { value = n; error = none }
parse_int_magnitude c s n le lt e =
    parse_int_digit c s le ∙ ap (parsed_magnitude false) e ∙ parsed_magnitude_fits n lt

-- strconv.ParseInt reads back what %d printed, with no error, for every number below 2 ^ 63.
pub parse_int-format_uint :
    (n : ℕ) → n < int64_min → parse_int (format_uint n) ≡ record { value = n; error = none }
unfolding format_uint
parse_int-format_uint n h =
    let (c, s, q, le) = format_digits_head 19 n in
    rw q (
      parse_int_magnitude c s n le h
        (rw (← q) (read_digits-format_digits 19 n (omega arith) (omega arith))))
