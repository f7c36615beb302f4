-- ===== src/Config/Dispatch.antt =====
-- pkg/config/cfgdispatch.go: the merged configuration files are written into the arguments.
pub mod Bindings
pub mod Fields
pub mod Laws
pub mod Success
use resource_topology_export.Base.{
  ◌≡◌, refl, Bool, true, false, Option, none, some, List, [], ◌∷◌, Text, ℕ, text_eq, nat_beq,
  if◌then◌else◌,
}
use resource_topology_export.Base.Int.{Int64, minus_one}
use resource_topology_export.Base.Dict.{Dict, get, put_all}
use resource_topology_export.Base.Strings.{codes}
use resource_topology_export.Middleware.SharedPool.Ident.{
  ContainerIdent, Read, ident, malformed, from_string,
}
use resource_topology_export.Config.{ProgArgs}

-- A value of the flattened document, where F is Go's float64.
pub data Value (F : Type 0) : Type 0 where
  text : Text → Value F
  number : F → Value F
  boolean : Bool → Value F
  other : Value F

-- configMap
abbrev pub ConfigMap : Type 0 → Type 0
ConfigMap F = Dict Text (Value F)

-- mergeConfObj
unfoldable pub merge_conf_obj : {F : Type 0} → ConfigMap F → ConfigMap F → ConfigMap F
merge_conf_obj obj upd = put_all obj upd

-- A variable of the arguments, to which confBinding points.
pub data Target : Type 0 where
  text_var : (ProgArgs → Text) → (Text → ProgArgs → ProgArgs) → Target
  int_var : (ProgArgs → Int64) → (Int64 → ProgArgs → ProgArgs) → Target
  bool_var : (ProgArgs → Bool) → (Bool → ProgArgs → ProgArgs) → Target
  duration_var : (ProgArgs → Int64) → (Int64 → ProgArgs → ProgArgs) → Target

-- confBinding
pub record Binding : Type 0 where
  pub key : Text
  pub out : Target

module _ {F : Type 0} (to_int : F → Int64) where
  -- The methods String, Int, Bool and Duration: the new value of the variable, or an error.
  unfoldable pub string_at : ConfigMap F → Text → Text → Option Text
  string_at cm key out = elim (get cm key) [
    | none ↦ some out
    | some v ↦ elim v [ text s ↦ some s | _ ↦ none ]
  ]

  unfoldable pub int_at : ConfigMap F → Text → Int64 → Option Int64
  int_at cm key out = elim (get cm key) [
    | none ↦ some out
    | some v ↦ elim v [ number j ↦ some (to_int j) | _ ↦ none ]
  ]

  unfoldable pub bool_at : ConfigMap F → Text → Bool → Option Bool
  bool_at cm key out = elim (get cm key) [
    | none ↦ some out
    | some v ↦ elim v [ boolean b ↦ some b | _ ↦ none ]
  ]

  unfoldable pub duration_at : ConfigMap F → Text → Int64 → Option Int64
  duration_at cm key out = elim (get cm key) [
    | none ↦ some out
    | some v ↦ elim v [ number j ↦ some (to_int j) | _ ↦ none ]
  ]

  -- configMap.Value; none is an error.
  unfoldable pub value_at : ConfigMap F → Text → Target → ProgArgs → Option ProgArgs
  value_at cm key (text_var read write) args = elim (string_at cm key (read args)) [
    | none ↦ none
    | some s ↦ some (write s args)
  ]
  value_at cm key (int_var read write) args = elim (int_at cm key (read args)) [
    | none ↦ none
    | some j ↦ some (write j args)
  ]
  value_at cm key (bool_var read write) args = elim (bool_at cm key (read args)) [
    | none ↦ none
    | some b ↦ some (write b args)
  ]
  value_at cm key (duration_var read write) args = elim (duration_at cm key (read args)) [
    | none ↦ none
    | some j ↦ some (write j args)
  ]

  -- The loop over the bindings: whether it succeeds, and the arguments as far as it came.
  unfoldable pub apply_bindings : ConfigMap F → List Binding → ProgArgs → Bool × ProgArgs
  apply_bindings cm [] args = (true, args)
  apply_bindings cm (cb ∷ cbs) args = elim (value_at cm cb.key cb.out args) [
    | none ↦ (false, args)
    | some args' ↦ apply_bindings cm cbs args'
  ]

  abbrev pub with_container : Option ContainerIdent → ProgArgs → ProgArgs
  with_container ci args = record args { rte = record args.rte { reference_container = ci } }

  -- The case of maxEventPerTimeUnit, where -1 stands for no value.
  abbrev pub limited : Option Int64 → ProgArgs → Bool × ProgArgs
  limited none args = (false, args)
  limited (some n) args = (
    true,
    if nat_beq n minus_one
        then args
        else record args { rte = record args.rte { max_events_per_time_unit = n } },
  )

  abbrev pub identified : ConfigMap F → Read → ProgArgs → Bool × ProgArgs
  identified cm (ident ci) args =
      limited (int_at cm (codes "topologyExporter.maxEventPerTimeUnit") minus_one)
        (with_container ci args)
  identified cm malformed args = (false, with_container none args)

  -- The case of referenceContainer; a text that is no identity gives a nil one and an error.
  abbrev pub referred : ConfigMap F → Option Text → ProgArgs → Bool × ProgArgs
  referred cm none args = (false, args)
  referred cm (some s) args = identified cm (from_string s) args

  unfoldable pub refer_container : ConfigMap F → ProgArgs → Bool × ProgArgs
  refer_container cm args =
      referred cm (string_at cm (codes "topologyExporter.referenceContainer") []) args

  unfoldable pub after_bindings : ConfigMap F → Bool × ProgArgs → Bool × ProgArgs
  after_bindings cm (false, args) = (false, args)
  after_bindings cm (true, args) = refer_container cm args
