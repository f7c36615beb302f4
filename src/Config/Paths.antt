-- ===== src/Config/Paths.antt =====
-- pkg/config/validation.go: which configuration files are read.
use mathlib.Core.Path.{subst}
use mathlib.Core.List.{append_assoc, append-nil}
use resource_topology_export.Base.{
  ◌≡◌, refl, sym, ◌∙◌, ◌≢◌, inl, inr, true, List, [], ◌∷◌, ◌++◌, Text, ℕ, Any, Bool-cases,
  if◌then◌else◌, arith,
}
use resource_topology_export.Base.Strings.{codes, has_prefix}

-- What a function that adds a directory gives: SkipDirectory, another error, or a directory.
pub data UserDir (E : Type 0) : Type 0 where
  skipped : UserDir E
  dir_failed : E → UserDir E
  dir : Text → UserDir E

abbrev pub fixed_patterns : List Text
fixed_patterns =
    codes "/etc/rte"
    ∷ codes "/run/rte"
    ∷ codes "/var/rte"
    ∷ codes "/usr/local/etc/rte"
    ∷ codes "/etc/resource-topology-exporter"
    ∷ []

pub data Patterns (E : Type 0) : Type 0 where
  patterns : List Text → Patterns E
  no_patterns : E → Patterns E

-- The loop that appends the directories.
unfoldable pub add_dirs : {E : Type 0} → List Text → List (UserDir E) → Patterns E
add_dirs allowed [] = patterns allowed
add_dirs allowed (skipped ∷ dirs) = add_dirs allowed dirs
add_dirs allowed (dir_failed e ∷ dirs) = no_patterns e
add_dirs allowed (dir d ∷ dirs) = add_dirs (allowed ++ d ∷ []) dirs

-- The loop over the patterns; the empty text where none matches.
unfoldable pub first_pattern : Text → List Text → Text
first_pattern path [] = []
first_pattern path (pattern ∷ rest) =
    let found = first_pattern path rest in if has_prefix path pattern then pattern else found

pub data Allowed (E : Type 0) : Type 0 where
  allowed_by : Text → Allowed E
  not_known : E → Allowed E

abbrev pub match_in : {E : Type 0} → Text → Patterns E → Allowed E
match_in path (patterns ps) = allowed_by (first_pattern path ps)
match_in path (no_patterns e) = not_known e

-- IsConfigRootAllowed
unfoldable pub is_config_root_allowed : {E : Type 0} → Text → List (UserDir E) → Allowed E
is_config_root_allowed path dirs = match_in path (add_dirs fixed_patterns dirs)

-- What filepath.EvalSymlinks gives.
pub data Resolved (E : Type 0) : Type 0 where
  resolved : Text → Resolved E
  missing : Resolved E
  unresolved : E → Resolved E

-- What ReadConfiglet and ReadConfigletDir do with a path: read one, or refuse.
pub data Access (E : Type 0) : Type 0 where
  reads : Text → Access E
  refused : Access E
  access_failed : E → Access E

abbrev pub accessed : {E : Type 0} → Text → Allowed E → Access E
accessed path (allowed_by []) = refused
accessed path (allowed_by (c ∷ pattern)) = reads path
accessed path (not_known e) = access_failed e

abbrev pub after_links : {E : Type 0} → Text → List (UserDir E) → Resolved E → Access E
after_links root dirs (resolved path) = accessed path (is_config_root_allowed path dirs)
after_links root dirs missing = accessed root (is_config_root_allowed root dirs)
after_links root dirs (unresolved e) = access_failed e

-- ReadConfiglet, and ReadConfigletDir, up to the read; filepath.Clean and EvalSymlinks are given.
unfoldable pub read_configlet :
    {E : Type 0} → (Text → Text) → (Text → Resolved E) → List (UserDir E) → Text → Access E
read_configlet clean links dirs path = let root = clean path in after_links root dirs (links root)

-- A path begins with a pattern, which is not empty.
abbrev pub LiesUnder : Text → Text → Type 0
LiesUnder path pattern = (pattern ≢ []) × ((rest : Text) × (path ≡ pattern ++ rest))

abbrev pub is_dir : {E : Type 0} → List (UserDir E) → List Text
is_dir [] = []
is_dir (dir d ∷ dirs) = d ∷ is_dir dirs
is_dir (_ ∷ dirs) = is_dir dirs

-- The path that ReadConfiglet checks.
pub data IsTarget {E : Type 0} (root : Text) : Resolved E → Text → Type 0 where
  as_resolved : (path : Text) → IsTarget root (resolved path) path
  as_given : IsTarget root missing root

prefix_lem : (s p : Text) → has_prefix s p ≡ true → (rest : Text) × (s ≡ p ++ rest)
unfolding has_prefix
prefix_lem s [] h = (s, refl)
prefix_lem [] (c ∷ p) h = absurd (cc h)
prefix_lem (d ∷ s) (c ∷ p) h =
    let (rest, e) = prefix_lem s p (ground arith) in (rest, ground (arith, e))

first_pattern_lem :
    (path : Text) (ps : List Text) {c : ℕ} {s : Text}
    → first_pattern path ps ≡ c ∷ s
    → Any (LiesUnder path) ps
unfolding first_pattern
first_pattern_lem path [] h = absurd (cc h)
first_pattern_lem path (p ∷ ps) h = elim (Bool-cases (has_prefix path p)) [
  | inl e ↦ inl ((λ n. cc ((rw e at h), n)), prefix_lem path p e)
  | inr e ↦ inr (first_pattern_lem path ps (rw e at h))
]

add_dirs_lem :
    {E : Type 0} (allowed : List Text) (dirs : List (UserDir E)) {ps : List Text}
    → add_dirs allowed dirs ≡ patterns ps
    → ps ≡ allowed ++ is_dir dirs
unfolding add_dirs
add_dirs_lem allowed [] h = let q : allowed ≡ _ = cc h in sym q ∙ sym (append-nil allowed)
add_dirs_lem allowed (skipped ∷ dirs) h = add_dirs_lem allowed dirs h
add_dirs_lem allowed (dir_failed e ∷ dirs) h = absurd (cc h)
add_dirs_lem allowed (dir d ∷ dirs) h =
    add_dirs_lem (allowed ++ d ∷ []) dirs h ∙ append_assoc allowed (d ∷ []) (is_dir dirs)

found_lem :
    {E : Type 0} (path : Text) (ps : List Text) (t : Text) {p : Text}
    → first_pattern path ps ≡ t
    → accessed {E = E} path (allowed_by t) ≡ reads p
    → (p ≡ path) × Any (LiesUnder path) ps
found_lem path ps [] q h = absurd (cc h)
found_lem path ps (c ∷ t) q h = (cc h, first_pattern_lem path ps q)

matched_lem :
    {E : Type 0} (path : Text) (dirs : List (UserDir E)) (ps : Patterns E) {p : Text}
    → add_dirs fixed_patterns dirs ≡ ps
    → accessed path (match_in path ps) ≡ reads p
    → (p ≡ path) × Any (LiesUnder path) (fixed_patterns ++ is_dir dirs)
matched_lem path dirs (patterns ps) e h =
    let (q, a) = found_lem path ps (first_pattern path ps) refl h in
    (q, subst (Any (LiesUnder path)) (add_dirs_lem fixed_patterns dirs e) a)
matched_lem path dirs (no_patterns x) e h = absurd (cc h)

after_links_lem :
    {E : Type 0} (root : Text) (dirs : List (UserDir E)) (links : Resolved E) {p : Text}
    → after_links root dirs links ≡ reads p
    → IsTarget root links p × Any (LiesUnder p) (fixed_patterns ++ is_dir dirs)
unfolding is_config_root_allowed
after_links_lem root dirs (resolved path) h =
    let (q, a) = matched_lem path dirs (add_dirs fixed_patterns dirs) refl h in
    (
      subst (IsTarget root (resolved path)) (sym q) (as_resolved path),
      subst (λ t. Any (LiesUnder t) (fixed_patterns ++ is_dir dirs)) (sym q) a,
    )
after_links_lem root dirs missing h =
    let (q, a) = matched_lem root dirs (add_dirs fixed_patterns dirs) refl h in
    (
      subst (IsTarget root missing) (sym q) as_given,
      subst (λ t. Any (LiesUnder t) (fixed_patterns ++ is_dir dirs)) (sym q) a,
    )
after_links_lem root dirs (unresolved e) h = absurd (cc h)

-- A file or directory is read only at the path with its symbolic links resolved, or at the cleaned
-- path where nothing is there, and only if that path begins with one of the fixed patterns or with a
-- user's directory, which is not the empty text.
pub read_configlet-LiesUnder :
    {E : Type 0} (clean : Text → Text) (links : Text → Resolved E) (dirs : List (UserDir E))
    (path p : Text)
    → read_configlet clean links dirs path ≡ reads p
    → IsTarget (clean path) (links (clean path)) p
      × Any (LiesUnder p) (fixed_patterns ++ is_dir dirs)
unfolding read_configlet
read_configlet-LiesUnder clean links dirs path p h =
    after_links_lem (clean path) dirs (links (clean path)) h
