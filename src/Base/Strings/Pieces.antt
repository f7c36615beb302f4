-- ===== src/Base/Strings/Pieces.antt =====
-- Texts that are put together and taken apart again by strings.Split, Contains and Trim.
use Prim.Native.Nat.{ℕ, ◌+◌, ◌≤◌, ◌%◌, ◌/◌, suc, zero}
use mathlib.Core.Path.{◌≡◌, refl, ap, ◌∙◌}
use mathlib.Core.Bool.{Bool, true, false}
use mathlib.Core.List.{
  [], ◌∷◌, ◌++◌, reverse, reverse-cons, reverse-append, reverse-reverse, append_assoc, append-nil,
}
use mathlib.Core.Logic.{inl, inr}
use native.Mathlib.Omega.{arith}
use resource_topology_export.Base.Tests.{Text, nat_beq, ltb, Bool-cases}
use resource_topology_export.Base.Lists.{All, All-append}
use resource_topology_export.Base.Strings.{
  has_prefix, contains, split_onto, split, trim_left, trim, format_digits, format_uint,
}

-- No byte of the text is `sep`.
abbrev pub Without : ℕ → Text → Type 0
Without sep s = All (λ c. nat_beq c sep ≡ false) s

split_onto_last :
    (sep : ℕ) (piece s : Text) → Without sep s → split_onto sep piece s ≡ (piece ++ s) ∷ []
unfolding split_onto
split_onto_last sep piece [] h = rw (append-nil piece) refl
split_onto_last sep piece (c ∷ s) h =
    rw h.0 (split_onto_last sep (piece ++ c ∷ []) s h.1 ∙ rw (append_assoc piece (c ∷ []) s) refl)

split_onto_first :
    (sep : ℕ) (piece s rest : Text)
    → Without sep s
    → split_onto sep piece (s ++ sep ∷ rest) ≡ (piece ++ s) ∷ split_onto sep [] rest
unfolding split_onto
split_onto_first sep piece [] rest h =
    let same : nat_beq sep sep ≡ true = ground arith in rw (same, append-nil piece) refl
split_onto_first sep piece (c ∷ s) rest h =
    rw h.0
      (split_onto_first sep (piece ++ c ∷ []) s rest h.1 ∙ rw (append_assoc piece (c ∷ []) s) refl)

-- A text without the separator is one piece.
pub split_one : (sep : ℕ) (s : Text) → Without sep s → split sep s ≡ s ∷ []
unfolding split
split_one sep s h = split_onto_last sep [] s h

-- Up to the first separator is the first piece.
pub split_first :
    (sep : ℕ) (s rest : Text) → Without sep s → split sep (s ++ sep ∷ rest) ≡ s ∷ split sep rest
unfolding split
split_first sep s rest h = split_onto_first sep [] s rest h

pub has_prefix-append : (p s : Text) → has_prefix (p ++ s) p ≡ true
unfolding has_prefix
has_prefix-append [] s = refl
has_prefix-append (c ∷ p) s = ground (arith, has_prefix-append p s)

contains_here : (s sub : Text) → has_prefix s sub ≡ true → contains s sub ≡ true
unfolding contains
contains_here [] sub h = h
contains_here (c ∷ s) sub h = rw h refl

pub contains-append : (before sub after : Text) → contains (before ++ (sub ++ after)) sub ≡ true
unfolding contains
contains-append [] sub after = contains_here (sub ++ after) sub (has_prefix-append sub after)
contains-append (c ∷ before) sub after = ground (arith, contains-append before sub after)

trim_left_cut :
    (cut : ℕ → Bool) (pre s : Text)
    → All (λ c. cut c ≡ true) pre
    → trim_left cut (pre ++ s) ≡ trim_left cut s
unfolding trim_left
trim_left_cut cut [] s h = refl
trim_left_cut cut (c ∷ pre) s h = rw h.0 (trim_left_cut cut pre s h.1)

trim_left_keep : (cut : ℕ → Bool) (c : ℕ) (s : Text) → cut c ≡ false → trim_left cut (c ∷ s) ≡ c ∷ s
unfolding trim_left
trim_left_keep cut c s h = rw h refl

trim_left_uncut : (cut : ℕ → Bool) (s : Text) → All (λ c. cut c ≡ false) s → trim_left cut s ≡ s
trim_left_uncut cut [] h = unfold trim_left in refl
trim_left_uncut cut (c ∷ s) h = trim_left_keep cut c s h.0

All-reverse : (P : ℕ → Type 0) (s : Text) → All P s → All P (reverse s)
All-reverse P [] h = h
All-reverse P (c ∷ s) h =
    rw (reverse-cons c s) (All-append P (reverse s) (c ∷ []) (All-reverse P s h.1) (h.0, tt))

-- What stands between bytes that are cut stays, if none of it is cut and it is not empty.
pub trim_mid :
    (cut : ℕ → Bool) (pre post : Text) (c : ℕ) (mid : Text)
    → All (λ d. cut d ≡ true) pre
    → All (λ d. cut d ≡ false) (c ∷ mid)
    → All (λ d. cut d ≡ true) post
    → trim cut (pre ++ ((c ∷ mid) ++ post)) ≡ c ∷ mid
unfolding trim
trim_mid cut pre post c mid h m k =
    let left : trim_left cut (pre ++ ((c ∷ mid) ++ post)) ≡ (c ∷ mid) ++ post =
      trim_left_cut cut pre ((c ∷ mid) ++ post) h ∙ trim_left_keep cut c (mid ++ post) m.0 in
    let right : trim_left cut (reverse post ++ reverse (c ∷ mid)) ≡ reverse (c ∷ mid) =
      trim_left_cut cut (reverse post) (reverse (c ∷ mid)) (All-reverse _ post k)
      ∙ trim_left_uncut cut (reverse (c ∷ mid)) (All-reverse _ (c ∷ mid) m) in
    ap (λ s. reverse (trim_left cut (reverse s))) left
    ∙ ap (λ s. reverse (trim_left cut s)) (reverse-append (c ∷ mid) post)
    ∙ ap reverse right
    ∙ reverse-reverse (c ∷ mid)

abbrev pub IsDigit : ℕ → Type 0
IsDigit c = (48 ≤ c) × (c ≤ 57)

format_digits-IsDigit : (f n : ℕ) → All IsDigit (format_digits f n)
unfolding format_digits
format_digits-IsDigit zero n = tt
format_digits-IsDigit (suc f) n = elim (Bool-cases (ltb n 10)) [
  | inl e ↦ rw e ((omega arith, ground arith), tt)
  | inr e ↦ rw e (
      All-append IsDigit (format_digits f (n / 10)) ((48 + n % 10) ∷ [])
        (format_digits-IsDigit f (n / 10)) ((omega arith, omega arith), tt))
]

-- What %d prints is digits, at least one.
pub format_uint-IsDigit : (n : ℕ) → All IsDigit (format_uint n)
unfolding format_uint
format_uint-IsDigit n = format_digits-IsDigit 20 n

pub All-map : (P Q : ℕ → Type 0) (f : (c : ℕ) → P c → Q c) (s : Text) → All P s → All Q s
All-map P Q f [] h = tt
All-map P Q f (c ∷ s) h = (f c h.0, All-map P Q f s h.1)

pub Without-append : (sep : ℕ) (a b : Text) → Without sep a → Without sep b → Without sep (a ++ b)
Without-append sep a b h k = All-append _ a b h k
