-- ===== src/Middleware/SharedPool/Ident.antt =====
-- ContainerIdent of pkg/podres/middleware/sharedcpuspool, and how it is read from texts.
use resource_topology_export.Base.{
  ◌≡◌, ◌≢◌, refl, sym, ap, ◌∙◌, All, Bool, true, false, ◌||◌, Option, none, some, List, [], ◌∷◌,
  ◌++◌, Text, if◌then◌else◌,
}
use mathlib.Core.List.{append-nil}
use resource_topology_export.Base.Strings.{codes, split, trim, is_space}
use resource_topology_export.Base.Strings.Pieces.{Without, split_one, split_first, trim_mid}

pub record ContainerIdent : Type 0 where
  pub namespace : Text
  pub pod_name : Text
  pub container_name : Text

abbrev is_blank : Text → Bool
is_blank [] = true
is_blank (c ∷ s) = false

-- ContainerIdent.Clone: a nil identity is copied to an empty one.
unfoldable pub clone : Option ContainerIdent → Option ContainerIdent
clone none = some (record { namespace = []; pod_name = []; container_name = [] })
clone (some ci) = some ci

-- ContainerIdent.String
unfoldable pub to_text : Option ContainerIdent → Text
to_text none = []
to_text (some ci) = ci.namespace ++ b'/' ∷ (ci.pod_name ++ b'/' ∷ ci.container_name)

-- ContainerIdent.ToString
pub to_log_text : Option ContainerIdent → Text
to_log_text none = codes "<nil>"
to_log_text (some ci) =
    if is_blank ci.namespace || is_blank ci.pod_name
    then codes "NONE"
    else if is_blank ci.container_name
    then ci.namespace ++ b'/' ∷ ci.pod_name
    else ci.namespace ++ b'/' ∷ (ci.pod_name ++ b'/' ∷ ci.container_name)

-- ContainerIdent.IsEmpty
unfoldable pub is_empty : Option ContainerIdent → Bool
is_empty none = true
is_empty (some ci) = is_blank ci.namespace || (is_blank ci.pod_name || is_blank ci.container_name)

-- ContainerIdentFromEnv, over the three values that os.Getenv gives
unfoldable pub from_env : Text → Text → Text → Option ContainerIdent
from_env namespace pod_name container_name =
    let ci : ContainerIdent = record {
      namespace = namespace;
      pod_name = pod_name;
      container_name = container_name;
    } in
    if is_empty (some ci) then none else some ci

pub data Read : Type 0 where
  ident : Option ContainerIdent → Read
  malformed : Read

unfoldable pub from_items : List Text → Read
from_items (a ∷ b ∷ c ∷ []) = ident (
    some (record {
      namespace = trim is_space a;
      pod_name = trim is_space b;
      container_name = trim is_space c;
    }))
from_items _ = malformed

-- ContainerIdentFromString
unfoldable pub from_string : Text → Read
unfolding from_items
from_string [] = ident none
from_string (c ∷ s) = from_items (split b'/' (c ∷ s))

from_string_spaces :
    from_string (codes "ns/ pod /cnt")
    ≡ ident (
        some
          (record { namespace = codes "ns"; pod_name = codes "pod"; container_name = codes "cnt" }))
unfolding from_string split trim is_space
from_string_spaces = refl

-- A name without a slash and without white space.
abbrev pub IsPlain : Text → Type 0
IsPlain s = Without b'/' s × All (λ c. is_space c ≡ false) s

trim_plain : (s : Text) → All (λ c. is_space c ≡ false) s → trim is_space s ≡ s
trim_plain [] h = unfold trim in refl
trim_plain (c ∷ s) h =
    ap (λ t. trim is_space (c ∷ t)) (sym (append-nil s)) ∙ trim_mid is_space [] [] c s tt h tt

from_string_items : (s : Text) → s ≢ [] → from_string s ≡ from_items (split b'/' s)
unfolding from_string
from_string_items [] h = absurd (h refl)
from_string_items (c ∷ s) h = refl

joined_nonempty : (a b : Text) → (a ++ b'/' ∷ b) ≢ []
joined_nonempty [] b h = cc h
joined_nonempty (c ∷ a) b h = cc h

-- An identity is read back from its text, if its names have no slash and no white space.
pub from_string-to_text :
    (ci : ContainerIdent)
    → IsPlain ci.namespace
    → IsPlain ci.pod_name
    → IsPlain ci.container_name
    → from_string (to_text (some ci)) ≡ ident (some ci)
unfolding to_text
from_string-to_text ci n p c =
    from_string_items _ (joined_nonempty ci.namespace (ci.pod_name ++ b'/' ∷ ci.container_name))
    ∙ ap from_items (
        split_first b'/' ci.namespace (ci.pod_name ++ b'/' ∷ ci.container_name) n.0
        ∙ ap (λ l. ci.namespace ∷ l)
            (split_first b'/' ci.pod_name ci.container_name p.0
              ∙ ap (λ l. ci.pod_name ∷ l) (split_one b'/' ci.container_name c.0)))
    ∙ (unfold from_items in
        rw
          (
            trim_plain ci.namespace n.1,
            trim_plain ci.pod_name p.1,
            trim_plain ci.container_name c.1,
          )
          refl)
