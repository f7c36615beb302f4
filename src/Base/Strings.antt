-- ===== src/Base/Strings.antt =====
-- The parts of Go's strings, strconv and path/filepath that the program uses, on texts as lists of
-- bytes.
pub mod Decimal
pub mod Pieces
use Prim.Native.Nat.{ℕ, zero, suc, ◌+◌, ◌-◌, ◌*◌, ◌/◌, ◌%◌, ◌^◌, ◌<◌}
use Prim.Native.Char.{code}
use Prim.Native.String.{String}
use mathlib.Core.Path.{◌≡◌, refl}
use mathlib.Core.Bool.{Bool, true, false, ◌&&◌, ◌||◌}
use mathlib.Core.Option.{Option, none, some}
use mathlib.Core.List.{List, [], ◌∷◌, ◌++◌, reverse}
use native.Mathlib.Omega.{arith}
use resource_topology_export.Base.Tests.{Text, ltb, leb, nat_beq, if◌then◌else◌}
use resource_topology_export.Base.Int.{Int64, int64_min, int64_mod}

-- A literal of the source, as bytes.
abbrev pub codes : String → Text
codes String.[] = []
codes (String.◌∷◌ c s) = code c ∷ codes s

-- strings.HasPrefix(s, prefix)
unfoldable pub has_prefix : Text → Text → Bool
has_prefix s [] = true
has_prefix [] (p ∷ ps) = false
has_prefix (c ∷ s) (p ∷ ps) = nat_beq c p && has_prefix s ps

-- strings.Contains(s, sub)
unfoldable pub contains : Text → Text → Bool
contains [] sub = has_prefix [] sub
contains (c ∷ s) sub = let later = contains s sub in if has_prefix (c ∷ s) sub then true else later

-- strings.Split(s, sep) for a separator of one byte: always one piece more than separators.
unfoldable pub split_onto : ℕ → Text → Text → List Text
split_onto sep piece [] = piece ∷ []
split_onto sep piece (c ∷ s) =
    let fresh = piece ∷ split_onto sep [] s in
    let longer = split_onto sep (piece ++ c ∷ []) s in if nat_beq c sep then fresh else longer

unfoldable pub split : ℕ → Text → List Text
unfolding split_onto
split sep s = split_onto sep [] s

-- An ASCII white space, as strings.TrimSpace cuts it.
unfoldable pub is_space : ℕ → Bool
is_space c = leb 9 c && leb c 13 || nat_beq c 32

unfoldable pub trim_left : (ℕ → Bool) → Text → Text
trim_left cut [] = []
trim_left cut (c ∷ s) = let rest = trim_left cut s in if cut c then rest else c ∷ s

-- strings.Trim(s, cutset), and strings.TrimSpace(s) for the test `is_space`
unfoldable pub trim : (ℕ → Bool) → Text → Text
unfolding trim_left
trim cut s = reverse (trim_left cut (reverse (trim_left cut s)))

-- strings.ToLower(s) on ASCII
unfoldable pub to_lower : Text → Text
to_lower [] = []
to_lower (c ∷ s) = (if leb 65 c && leb c 90 then c + 32 else c) ∷ to_lower s

-- fmt.Sprintf("%d", n) of an unsigned number, on fuel for the digits
unfoldable pub format_digits : ℕ → ℕ → Text
format_digits zero n = []
format_digits (suc f) n =
    let shorter = format_digits f (n / 10) ++ (48 + n % 10) ∷ [] in
    if ltb n 10 then (48 + n) ∷ [] else shorter

-- Twenty digits are enough for 64 bits.
unfoldable pub format_uint : ℕ → Text
unfolding format_digits
format_uint n = format_digits 20 n

-- fmt.Sprintf("%d", n) of a signed number
unfoldable pub format_int : Int64 → Text
unfolding format_uint
format_int n = if leb int64_min n then b'-' ∷ format_uint (int64_mod - n) else format_uint n

-- The loop of strconv.ParseUint: it stops at the first byte that is no digit, or at the first digit
-- with which the number needs more than 64 bits, and then gives the largest one.
unfoldable pub read_digits : ℕ → Text → Option ℕ
read_digits acc [] = some acc
read_digits acc (c ∷ s) =
    let next = acc * 10 + (c - 48) in
    let rest = read_digits next s in
    if leb 48 c && leb c 57 then if leb int64_mod next then some (int64_mod - 1) else rest else none

pub data ParseError : Type 0 where
  bad_syntax : ParseError
  out_of_range : ParseError

pub record Parsed : Type 0 where
  pub value : Int64
  pub error : Option ParseError

unfoldable pub parsed_magnitude : Bool → Option ℕ → Parsed
parsed_magnitude minus none = record { value = 0; error = some bad_syntax }
parsed_magnitude false (some n) =
    if ltb n int64_min
    then record { value = n; error = none }
    else record { value = int64_min - 1; error = some out_of_range }
parsed_magnitude true (some n) =
    if leb n int64_min
    then record { value = (int64_mod - n) % int64_mod; error = none }
    else record { value = int64_min; error = some out_of_range }

unfoldable pub parse_unsigned : Bool → Text → Parsed
unfolding read_digits parsed_magnitude
parse_unsigned minus [] = record { value = 0; error = some bad_syntax }
parse_unsigned minus (c ∷ s) = parsed_magnitude minus (read_digits 0 (c ∷ s))

-- strconv.ParseInt(s, 10, 64), and strconv.Atoi(s): the value comes back beside the error too, and
-- out of range it is the nearest int64.
unfoldable pub parse_int : Text → Parsed
unfolding parse_unsigned
parse_int [] = record { value = 0; error = some bad_syntax }
parse_int (c ∷ s) =
    if nat_beq c b'+'
    then parse_unsigned false s
    else if nat_beq c b'-'
    then parse_unsigned true s
    else parse_unsigned false (c ∷ s)

parse_int_max : (parse_int (codes "9223372036854775808")).value ≡ 9223372036854775807
unfolding parse_int
parse_int_max = refl

-- The number is too large before the byte that is no digit.
parse_int_range : (parse_int (codes "18446744073709551616x")).value ≡ 9223372036854775807
unfolding parse_int
parse_int_range = refl

parse_int_syntax : (parse_int (codes "18446744073709551615x")).value ≡ 0
unfolding parse_int
parse_int_syntax = refl

format_uint_max : format_uint 18446744073709551615 ≡ codes "18446744073709551615"
unfolding format_uint
format_uint_max = refl
