-- ===== src/Config/Loading/Flagged.antt =====
-- FromFlags of pkg/config: the arguments after the flags, and the reference container among them.
use resource_topology_export.Base.{
  ◌≡◌, refl, ap, sym, ◌∙◌, Bool, true, false, Option, none, some, List, [], ◌∷◌, Text, text_eq,
}
use resource_topology_export.Middleware.SharedPool.Ident.{
  ContainerIdent, Read, ident, malformed, from_string,
}
use resource_topology_export.Config.{ProgArgs}
use resource_topology_export.Config.Flags.{
  CommandLine, from_flags, flags_read, flagged, contained, rooted, container_text,
}
use resource_topology_export.Config.Loading.Layered.{Replaced, kept, parsed}

abbrev pub with_container : Option ContainerIdent → ProgArgs → ProgArgs
with_container ci args = record args { rte = record args.rte { reference_container = ci } }

-- The arguments after the flags, up to the reference container.
abbrev pub IsFlagged : {E : Type 0} → CommandLine E → ProgArgs → ProgArgs → Type 0
IsFlagged cl args new = (ci : Option ContainerIdent) × (new ≡ with_container ci (flagged cl args))

module _ (E : Type 0) (join : List Text → Text) where
  rooted-args :
      (extra : Text) (params : List Text) (args : ProgArgs)
      → (rooted {E = E} join extra params args).args ≡ args
  unfolding rooted
  rooted-args extra [] args = refl
  rooted-args extra (root ∷ []) args = refl
  rooted-args extra (root ∷ next ∷ params) args = refl

  contained-args :
      (extra text : Text) (params : List Text) (args : ProgArgs) (read : Read)
      → (ci : Option ContainerIdent) × ((contained {E = E} join extra text params args read).args
          ≡ with_container ci args)
  unfolding contained
  contained-args extra [] params args read =
      (args.rte.reference_container, rooted-args extra params args)
  contained-args extra (c ∷ s) params args (ident ci) =
      (ci, rooted-args extra params (with_container ci args))
  contained-args extra (c ∷ s) params args malformed = (none, refl)

  flags_read-args :
      (err : Option E) (version : Bool) (cl : CommandLine E) (args : ProgArgs)
      → (ci : Option ContainerIdent) × ((flags_read join err version cl args).args
          ≡ with_container ci args)
  flags_read-args (some e) version cl args = (args.rte.reference_container, refl)
  flags_read-args none true cl args = (args.rte.reference_container, refl)
  flags_read-args none false cl args = contained-args _ _ cl.params args _

  pub from_flags-IsFlagged :
      (cl : CommandLine E) (args : ProgArgs) → IsFlagged cl args (from_flags join cl args).args
  unfolding from_flags
  from_flags-IsFlagged cl args =
      flags_read-args cl.err (flagged cl args).version cl (flagged cl args)

-- What the flags make of the reference container, when nothing fails.
module _ {E : Type 0} (join : List Text → Text) where
  contained-Replaced :
      (extra text : Text) (params : List Text) (args : ProgArgs) (read : Read)
      → from_string text ≡ read
      → (contained {E = E} join extra text params args read).error ≡ none
      → Replaced text args.rte.reference_container
          (contained {E = E} join extra text params args read).args.rte.reference_container
  unfolding contained
  contained-Replaced extra [] params args read r h =
      kept refl (ap (λ a. a.rte.reference_container) (rooted-args E join extra params args))
  contained-Replaced extra (c ∷ s) params args (ident ci) r h =
      let same = rooted-args E join extra params (with_container ci args) in
      parsed (λ q. cc q) (r ∙ ap ident (sym (ap (λ a. a.rte.reference_container) same)))
  contained-Replaced extra (c ∷ s) params args malformed r h = absurd (cc h)

  flags_read-Replaced :
      (err : Option E) (version : Bool) (cl : CommandLine E) (args : ProgArgs)
      → version ≡ false
      → (flags_read join err version cl args).error ≡ none
      → Replaced
          (container_text cl args)
          args.rte.reference_container
          (flags_read join err version cl args).args.rte.reference_container
  flags_read-Replaced (some e) version cl args v h = absurd (cc h)
  flags_read-Replaced none true cl args v h = absurd (cc v)
  flags_read-Replaced none false cl args v h =
      contained-Replaced _ (container_text cl args) cl.params args _ refl h

  pub from_flags-Replaced :
      (cl : CommandLine E) (args : ProgArgs)
      → (flagged cl args).version ≡ false
      → (from_flags join cl args).error ≡ none
      → Replaced
          (container_text cl args)
          args.rte.reference_container
          (from_flags join cl args).args.rte.reference_container
  unfolding from_flags flagged
  from_flags-Replaced cl args v h =
      flags_read-Replaced cl.err (flagged cl args).version cl (flagged cl args) v h
