-- ===== src/Labelling/Names.antt =====
-- The node of the metrics (pkg/metrics/metrics.go) beside the one that the updater writes for
-- (FromEnv, FromFlags and Finalize of pkg/config).
use resource_topology_export.Base.{
  ◌≡◌, refl, sym, ap, ◌∙◌, Option, none, some, [], ◌∷◌, Text, Result, ok, failed,
}
use mathlib.Core.Path.{subst}
use resource_topology_export.Base.Strings.{codes}
use resource_topology_export.Config.{ProgArgs, Environment, or_text, from_env}
use resource_topology_export.Config.Flags.{CommandLine, or_default, flagged}
use resource_topology_export.Config.Loading.{FlagSet, named, finalize}
use resource_topology_export.Labelling.{Labelled, setup_labels, host_name_from_env}

-- How the label and the name that the updater writes for relate, by NODE_NAME and os.Hostname.
abbrev pub Beside : {E : Type 0} → Option Text → Result E Text → Text → Labelled E → Text → Type 0
Beside (some (c ∷ value)) hostname earlier label name =
    (label.err ≡ none) × (label.node_name ≡ c ∷ value) × (name ≡ c ∷ value)
Beside (some []) (ok host) earlier label name =
    (label.err ≡ none) × (label.node_name ≡ []) × (name ≡ host)
Beside (some []) (failed e) earlier label name =
    (label.err ≡ none) × (label.node_name ≡ []) × (name ≡ [])
Beside none (ok host) earlier label name =
    (label.err ≡ none) × (label.node_name ≡ host) × (name ≡ host)
Beside none (failed e) earlier label name =
    (label.err ≡ some e) × (label.node_name ≡ earlier) × (name ≡ [])

found-Beside :
    {E : Type 0} (variable : Option Text) (hostname : Result E Text) (earlier : Text)
    → Beside variable hostname earlier
        (setup_labels earlier variable hostname [])
        (named hostname (host_name_from_env variable))
unfolding setup_labels
found-Beside (some (c ∷ value)) hostname earlier = (refl, refl, refl)
found-Beside (some []) (ok host) earlier = (refl, refl, refl)
found-Beside (some []) (failed e) earlier = (refl, refl, refl)
found-Beside none (ok host) earlier = (refl, refl, refl)
found-Beside none (failed e) earlier = (refl, refl, refl)

module _ {E : Type 0} (variable : Option Text) (hostname : Result E Text) (earlier : Text) where
  -- The name that Finalize leaves, when no flag and no file gives one.
  updater_name :
      (env : Environment) (cl : CommandLine E) (flags : FlagSet) (args : ProgArgs)
      → env.hostname ≡ host_name_from_env variable
      → cl.text_flag (codes "hostname") ≡ none
      → args.nrt_updater.hostname ≡ []
      → (finalize hostname flags (flagged cl (from_env env args))).0.args.nrt_updater.hostname
        ≡ named hostname (host_name_from_env variable)
  unfolding finalize flagged from_env
  updater_name env cl flags args e f a =
      ap (λ o. named hostname (or_default o (or_text args.nrt_updater.hostname env.hostname))) f
      ∙ ap (λ h. named hostname (or_text h env.hostname)) a
      ∙ ap (named hostname) e

  -- When neither a flag nor the files give a hostname, the label of the metrics is the name that
  -- LoadArgs leaves to the updater, if NODE_NAME is set to a name, or is not set and the host has
  -- one. If NODE_NAME is set to the empty text, the label is empty and the updater has the name of
  -- the host, if there is one. If it is not set and the host has no name, the set-up of the metrics
  -- fails with that error and keeps the earlier label, and the updater has the empty name.
  pub setup_labels-Beside :
      (env : Environment) (cl : CommandLine E) (flags : FlagSet) (args : ProgArgs)
      → env.hostname ≡ host_name_from_env variable
      → cl.text_flag (codes "hostname") ≡ none
      → args.nrt_updater.hostname ≡ []
      → Beside variable hostname earlier
          (setup_labels earlier variable hostname [])
          (finalize hostname flags (flagged cl (from_env env args))).0.args.nrt_updater.hostname
  setup_labels-Beside env cl flags args e f a =
      subst (Beside variable hostname earlier (setup_labels earlier variable hostname []))
        (sym (updater_name env cl flags args e f a)) (found-Beside variable hostname earlier)
