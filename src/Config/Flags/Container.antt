-- ===== src/Config/Flags/Container.antt =====
-- FromFlags of pkg/config/flags.go: what becomes of the reference container.
use resource_topology_export.Base.{
  ◌≡◌, refl, ap, ◌∙◌, Bool, true, false, Option, none, some, List, [], ◌∷◌, Text,
}
use resource_topology_export.Base.Strings.{codes}
use resource_topology_export.Middleware.SharedPool.Ident.{
  ContainerIdent, ident, IsPlain, to_text, from_string, from_string-to_text,
}
use resource_topology_export.Config.{ProgArgs}
use resource_topology_export.Config.Flags.{
  CommandLine, or_default, flagged, contained, rooted, flags_read, from_flags, container_text,
  legacy_extra_config_path,
}

-- No container, or one whose names have no slash and no white space.
abbrev pub IsReadable : Option ContainerIdent → Type 0
IsReadable none = Unit
IsReadable (some ci) = IsPlain ci.namespace × IsPlain ci.pod_name × IsPlain ci.container_name

module _ {E : Type 0} (join : List Text → Text) (cl : CommandLine E) where
  rooted-container :
      (extra : Text) (params : List Text) (args : ProgArgs)
      → (rooted {E = E} join extra params args).args.rte.reference_container
        ≡ args.rte.reference_container
  unfolding rooted
  rooted-container extra [] args = refl
  rooted-container extra (root ∷ []) args = refl
  rooted-container extra (root ∷ next ∷ params) args = refl

  contained-container :
      (extra text : Text) (params : List Text) (args : ProgArgs) (ci : Option ContainerIdent)
      → args.rte.reference_container ≡ ci
      → (contained {E = E} join extra text params args (ident ci)).args.rte.reference_container ≡ ci
  unfolding contained
  contained-container extra [] params args ci h = rooted-container extra params args ∙ h
  contained-container extra (c ∷ s) params args ci h = rooted-container extra params _

  read_back : (ci : Option ContainerIdent) → IsReadable ci → from_string (to_text ci) ≡ ident ci
  unfolding from_string to_text
  read_back none r = refl
  read_back (some ci) r = from_string-to_text ci r.0 r.1 r.2

  flags_read-container :
      (err : Option E) (version : Bool) (args : ProgArgs)
      → cl.text_flag (codes "reference-container") ≡ none
      → IsReadable args.rte.reference_container
      → (flags_read join err version cl args).args.rte.reference_container
        ≡ args.rte.reference_container
  flags_read-container (some e) version args n r = refl
  flags_read-container none true args n r = refl
  flags_read-container none false args n r =
      let text : container_text cl args ≡ to_text args.rte.reference_container =
        ap (λ o. or_default o (to_text args.rte.reference_container)) n in
      let extra = or_default (cl.text_flag (codes "config")) legacy_extra_config_path in
      ap
        (λ read.
          (contained {E = E} join extra (container_text cl args) cl.params args
            read).args.rte.reference_container)
        (ap from_string text ∙ read_back args.rte.reference_container r)
      ∙ contained-container extra (container_text cl args) cl.params args
          args.rte.reference_container refl

  -- Without the flag, FromFlags leaves the reference container as it is, although it turns it into a
  -- text, the default of the flag, and back. The names of the container have no slash and no white
  -- space.
  pub from_flags-reference_container :
      (args : ProgArgs)
      → cl.text_flag (codes "reference-container") ≡ none
      → IsReadable args.rte.reference_container
      → (from_flags join cl args).args.rte.reference_container ≡ args.rte.reference_container
  unfolding from_flags flagged
  from_flags-reference_container args n r =
      flags_read-container cl.err (flagged cl args).version (flagged cl args) n r
