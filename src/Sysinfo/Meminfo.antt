-- ===== src/Sysinfo/Meminfo.antt =====
-- Texts that sysfs has, read back: the line of the total memory, and the names of the directories of
-- huge pages.
use resource_topology_export.Base.{
  ℕ, ◌*◌, ◌<◌, ◌^◌, ◌≡◌, ◌≢◌, ◌⊎◌, refl, sym, ap, ◌∙◌, true, false, ◌&&◌, ◌||◌, none, some, List,
  [], ◌∷◌, ◌++◌, arith, Text, ok, All, nat_beq, leb,
}
use mathlib.Core.List.{append_assoc}
use resource_topology_export.Base.Int.{int64_min, mul64}
use resource_topology_export.Base.Strings.{
  is_space, codes, contains, split, trim, parse_int, format_uint,
}
use resource_topology_export.Base.Strings.Pieces.{
  Without, split_one, split_first, contains-append, trim_mid, IsDigit, format_uint-IsDigit, All-map,
  Without-append,
}
use resource_topology_export.Base.Strings.Decimal.{parse_int-format_uint}
use resource_topology_export.Sysinfo.{SysFs}
use resource_topology_export.Sysinfo.Memory.{
  mem_total, is_cut, total_in, total_of_parts, converted, read_total_memory_from_meminfo,
}
use resource_topology_export.Sysinfo.Pages.{
  scan_size, skip_literal, skip_blanks, take_digits, take_number, scanned_number,
}

-- Lines, each ended by a new line, before a text.
abbrev pub lines_before : List Text → Text → Text
lines_before [] s = s
lines_before (line ∷ lines) s = line ++ b'\n' ∷ lines_before lines s

-- A line that does not show the total memory.
abbrev pub IsOther : Text → Type 0
IsOther line = Without b'\n' line × (contains line mem_total ≡ false)

-- Blanks, the number and the unit.
unfoldable pub value_of : Text → ℕ → Text
value_of blanks n = blanks ++ (format_uint n ++ codes " kB")

-- The line of the total memory: a label, the name, and the value.
abbrev pub total_line : Text → Text → ℕ → Text
total_line label blanks n = label ++ (mem_total ++ b':' ∷ value_of blanks n)

abbrev pub IsBlank : ℕ → Type 0
IsBlank c = c ≡ b' '

-- A text without a new line or a colon.
abbrev pub IsLabel : Text → Type 0
IsLabel label = Without b'\n' label × Without b':' label

skip_others :
    {E : Type 0} (path : Text) (before : List Text) (s : Text)
    → All IsOther before
    → total_in {E = E} path (split b'\n' (lines_before before s)) ≡ total_in path (split b'\n' s)
skip_others path [] s h = refl
skip_others {E} path (line ∷ before) s h =
    let passed : total_in {E = E} path (line ∷ split b'\n' (lines_before before s))
        ≡ total_in path (split b'\n' (lines_before before s)) =
      unfold total_in in rw h.0.1 refl in
    ap (total_in path) (split_first b'\n' line (lines_before before s) h.0.0)
    ∙ passed
    ∙ skip_others path before s h.1

digits-Without : (sep n : ℕ) → (sep < 48) ⊎ (57 < sep) → Without sep (format_uint n)
digits-Without sep n h =
    All-map IsDigit (λ c. nat_beq c sep ≡ false) (λ c d. ground arith) (format_uint n)
      (format_uint-IsDigit n)

digits_uncut : (n : ℕ) → All (λ c. is_cut c ≡ false) (format_uint n)
digits_uncut n =
    All-map IsDigit (λ c. is_cut c ≡ false) (λ c d. unfold is_cut in ground arith) (format_uint n)
      (format_uint-IsDigit n)

blanks-Without :
    (sep : ℕ) (blanks : Text)
    → (b' ' < sep) ⊎ (sep < b' ')
    → All IsBlank blanks
    → Without sep blanks
blanks-Without sep blanks h b =
    All-map IsBlank (λ c. nat_beq c sep ≡ false) (λ c d. ground arith) blanks b

-- The value of the line, as it is cut.
cut_value :
    (blanks digits : Text)
    → All IsBlank blanks
    → All (λ c. is_cut c ≡ false) digits
    → digits ≢ []
    → trim is_cut (blanks ++ (digits ++ codes " kB")) ≡ digits
cut_value blanks [] b d nonempty = absurd (nonempty refl)
cut_value blanks (c ∷ mid) b d nonempty =
    trim_mid is_cut blanks (codes " kB") c mid
      (All-map IsBlank (λ c. is_cut c ≡ true) (λ c e. unfold is_cut in rw e refl) blanks b) d
      (unfold is_cut in (refl, (refl, (refl, tt))))

format_uint_nonempty : (n : ℕ) → n < int64_min → format_uint n ≢ []
unfolding parse_int
format_uint_nonempty n h e =
    let printed = parse_int-format_uint n h in let bad = rw (e, parse_int) at printed in cc

value-Without :
    (sep : ℕ) (blanks : Text) (n : ℕ)
    → (sep < b' ') ⊎ (57 < sep) × (sep < 66)
    → All IsBlank blanks
    → Without sep (value_of blanks n)
unfolding value_of
value-Without sep blanks n h b =
    Without-append sep blanks (format_uint n ++ codes " kB")
      (blanks-Without sep blanks (ground arith) b)
      (Without-append sep (format_uint n) (codes " kB") (digits-Without sep n (ground arith))
        (ground arith, (ground arith, (ground arith, tt))))

total_of_line :
    {E : Type 0} (line label blanks : Text) (n : ℕ)
    → Without b':' label
    → All IsBlank blanks
    → n < 2 ^ 53
    → total_of_parts {E = E} line (split b':' (label ++ (mem_total ++ b':' ∷ value_of blanks n)))
      ≡ record { resp = 1024 * n; err = none }
unfolding value_of total_of_parts converted
total_of_line {E} line label blanks n l b h =
    let small : n < int64_min = omega arith in
    let parts : split b':' (label ++ (mem_total ++ b':' ∷ value_of blanks n))
        ≡ (label ++ mem_total) ∷ value_of blanks n ∷ [] =
      ap (split b':') (sym (append_assoc label mem_total (b':' ∷ value_of blanks n)))
      ∙ split_first b':' (label ++ mem_total) (value_of blanks n)
          (Without-append b':' label mem_total l (ground arith))
      ∙ ap (λ ps. (label ++ mem_total) ∷ ps)
          (split_one b':' (value_of blanks n) (value-Without b':' blanks n (ground arith) b)) in
    let cut = cut_value blanks (format_uint n) b (digits_uncut n) (format_uint_nonempty n small) in
    let wide : mul64 1024 n ≡ 1024 * n = unfold mul64 in omega arith in
    rw (parts, cut, parse_int-format_uint n small, wide) refl

line-Without :
    (label blanks : Text) (n : ℕ)
    → IsLabel label
    → All IsBlank blanks
    → Without b'\n' (total_line label blanks n)
line-Without label blanks n l b =
    Without-append b'\n' label (mem_total ++ b':' ∷ value_of blanks n) l.0 (
      Without-append b'\n' (mem_total ++ b':' ∷ []) (value_of blanks n) (ground arith)
        (value-Without b'\n' blanks n (ground arith) b))

-- The total memory of a meminfo file is read back: where the first line that contains MemTotal has a
-- label, MemTotal, a colon, blanks and a number of kB below 2 ^ 53, readTotalMemoryFromMeminfo gives
-- that number of kB in bytes. The label has no colon and no new line.
pub read_total_memory_from_meminfo-total_line :
    {E : Type 0} (fs : SysFs E) (path : Text) (before : List Text) (label blanks : Text) (n : ℕ)
    (rest : Text)
    → fs.read_file path ≡ ok (lines_before before (total_line label blanks n ++ b'\n' ∷ rest))
    → All IsOther before
    → IsLabel label
    → All IsBlank blanks
    → n < 2 ^ 53
    → read_total_memory_from_meminfo fs path ≡ record { resp = 1024 * n; err = none }
unfolding read_total_memory_from_meminfo
read_total_memory_from_meminfo-total_line {E} fs path before label blanks n rest file others l b h =
    let line = total_line label blanks n in
    let lines : split b'\n' (line ++ b'\n' ∷ rest) ≡ line ∷ split b'\n' rest =
      split_first b'\n' line rest (line-Without label blanks n l b) in
    let found : contains line mem_total ≡ true =
      contains-append label mem_total (b':' ∷ value_of blanks n) in
    let read : total_in {E = E} path (line ∷ split b'\n' rest)
        ≡ record { resp = 1024 * n; err = none } =
      unfold total_in in rw found (total_of_line line label blanks n l.1 b h) in
    rw (read_total_memory_from_meminfo, file)
      (skip_others path before (line ++ b'\n' ∷ rest) others ∙ ap (total_in path) lines ∙ read)

take_digits-append :
    (digits s : Text) → All IsDigit digits → take_digits (digits ++ b'k' ∷ s) ≡ (digits, b'k' ∷ s)
unfolding take_digits
take_digits-append [] s h = refl
take_digits-append (c ∷ digits) s h =
    let digit : (leb 48 c && leb c 57) ≡ true = ground arith in
    rw (digit, take_digits-append digits s h.1) refl

scanned_digits :
    (digits : Text) (n : ℕ)
    → All IsDigit digits
    → digits ≢ []
    → parse_int digits ≡ record { value = n; error = none }
    → scan_size (codes "hugepages-" ++ (digits ++ codes "kB")) ≡ some n
unfolding scan_size skip_literal skip_blanks take_number scanned_number
scanned_digits [] n h nonempty p = absurd (nonempty refl)
scanned_digits (c ∷ digits) n h nonempty p =
    let no_line : nat_beq c 10 ≡ false = ground arith in
    let no_space : is_space c ≡ false = unfold is_space in ground arith in
    let no_sign : (nat_beq c b'+' || nat_beq c b'-') ≡ false = ground arith in
    let kept : skip_blanks (c ∷ (digits ++ codes "kB")) ≡ some (c ∷ (digits ++ codes "kB")) =
      rw (no_line, no_space) refl in
    let taken : take_number (c ∷ (digits ++ codes "kB")) ≡ (c ∷ digits, codes "kB") =
      rw no_sign (take_digits-append (c ∷ digits) (codes "B") h) in
    let read : scanned_number (c ∷ digits, codes "kB") ≡ some n =
      rw (scanned_number, ap (λ q. q.error) p) (ap (λ q. some q.value) p) in
    rw (scan_size, kept, taken) read

-- The size in the name of a directory of huge pages is read back.
pub scan_size-format_uint :
    (n : ℕ)
    → n < int64_min
    → scan_size (codes "hugepages-" ++ (format_uint n ++ codes "kB")) ≡ some n
scan_size-format_uint n h =
    scanned_digits (format_uint n) n (format_uint-IsDigit n) (format_uint_nonempty n h)
      (parse_int-format_uint n h)
