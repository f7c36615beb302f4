-- ===== src/Config/Dispatch/Success.antt =====
-- dispatchConfObj of pkg/config/cfgdispatch.go as a whole, where it succeeds.
use mathlib.Core.Path.{subst}
use resource_topology_export.Base.{
  ◌≡◌, refl, sym, ap, ◌∙◌, Bool, true, false, Option, none, some, [], Text, nat_beq, if◌then◌else◌,
  Bool-cases, inl, inr,
}
use resource_topology_export.Base.Int.{Int64, minus_one}
use resource_topology_export.Base.Strings.{codes}
use resource_topology_export.Middleware.SharedPool.Ident.{
  ContainerIdent, Read, ident, malformed, from_string,
}
use resource_topology_export.Config.{ProgArgs}
use resource_topology_export.Config.Dispatch.{
  ConfigMap, string_at, int_at, apply_bindings, with_container, limited, identified, referred,
  refer_container, after_bindings,
}
use resource_topology_export.Config.Dispatch.Bindings.{bindings, dispatch_conf_obj}
use resource_topology_export.Config.Dispatch.Fields.{
  IsDispatched, IsElsewhere, finished-IsDispatched, finished-IsElsewhere, finished,
}
use resource_topology_export.Config.Dispatch.Laws.{
  given_text, given_int, assign_all, string_at-given, int_at-given, apply_bindings-assign,
}

module _ {F : Type 0} (to_int : F → Int64) (obj : ConfigMap F) where
  -- The number of events that is given, where -1 counts as none.
  abbrev pub given_limit : Int64 → Int64
  given_limit old =
      let n = given_int to_int obj (codes "topologyExporter.maxEventPerTimeUnit") minus_one in
      if nat_beq n minus_one then old else n

  abbrev with_limit : Int64 → ProgArgs → ProgArgs
  with_limit n args = record args { rte = record args.rte { max_events_per_time_unit = n } }

  limit_lem :
      (n : Int64) (args : ProgArgs)
      → (if nat_beq n minus_one then args else with_limit n args)
        ≡ with_limit (if nat_beq n minus_one then args.rte.max_events_per_time_unit else n) args
  limit_lem n args = elim (Bool-cases (nat_beq n minus_one)) [
    | inl b ↦ rw b refl
    | inr b ↦ rw b refl
  ]

  limited_lem :
      (o : Option Int64) (args : ProgArgs)
      → int_at to_int obj (codes "topologyExporter.maxEventPerTimeUnit") minus_one ≡ o
      → (limited to_int o args).0 ≡ true
      → (limited to_int o args).1 ≡ with_limit (given_limit args.rte.max_events_per_time_unit) args
  limited_lem none args e h = absurd (cc h)
  limited_lem (some n) args e h =
      limit_lem n args
      ∙ ap
          (λ k.
            with_limit (if nat_beq k minus_one then args.rte.max_events_per_time_unit else k) args)
          (int_at-given to_int obj _ _ n e)

  -- What the reference container and the number of events are.
  pub record IsSpecial (old new : ProgArgs) : Type 0 where
    pub container :
        from_string (given_text to_int obj (codes "topologyExporter.referenceContainer") [])
        ≡ ident new.rte.reference_container
    pub limit : new.rte.max_events_per_time_unit ≡ given_limit old.rte.max_events_per_time_unit

  abbrev Concluded : ProgArgs → ProgArgs → Type 0
  Concluded args new =
      (ci : Option ContainerIdent) × (from_string
          (given_text to_int obj (codes "topologyExporter.referenceContainer") [])
        ≡ ident ci)
      × (new ≡ finished to_int obj ci (given_limit args.rte.max_events_per_time_unit) args)

  identified_lem :
      (r : Read) (args : ProgArgs)
      → from_string (given_text to_int obj (codes "topologyExporter.referenceContainer") []) ≡ r
      → (identified to_int obj r args).0 ≡ true
      → Concluded args (identified to_int obj r args).1
  identified_lem (ident ci) args e h = (ci, e, limited_lem _ (with_container to_int ci args) refl h)
  identified_lem malformed args e h = absurd (cc h)

  referred_lem :
      (o : Option Text) (args : ProgArgs)
      → string_at to_int obj (codes "topologyExporter.referenceContainer") [] ≡ o
      → (referred to_int obj o args).0 ≡ true
      → Concluded args (referred to_int obj o args).1
  referred_lem none args e h = absurd (cc h)
  referred_lem (some s) args e h =
      identified_lem (from_string s) args
        (ap from_string (sym (string_at-given to_int obj _ _ s e))) h

  refer_container_lem :
      (args : ProgArgs)
      → (refer_container to_int obj args).0 ≡ true
      → Concluded args (refer_container to_int obj args).1
  unfolding refer_container
  refer_container_lem args h = referred_lem (string_at to_int obj _ []) args refl h

  abbrev Dispatched : ProgArgs → ProgArgs → Type 0
  Dispatched old new =
      IsDispatched to_int obj old new × IsElsewhere to_int obj old new × IsSpecial old new

  concluded_lem :
      (args new : ProgArgs)
      → Concluded (assign_all to_int obj bindings args) new
      → Dispatched args new
  concluded_lem args new (ci, e, q) = subst (Dispatched args) (sym q) (
    finished-IsDispatched to_int obj ci _ args,
    finished-IsElsewhere to_int obj ci _ args,
    record { container = e; limit = refl },
  )

  after_lem :
      (args : ProgArgs) (r : Bool × ProgArgs)
      → (r.0 ≡ true → r.1 ≡ assign_all to_int obj bindings args)
      → (after_bindings to_int obj r).0 ≡ true
      → Dispatched args (after_bindings to_int obj r).1
  unfolding after_bindings
  after_lem args (false, a) g h = absurd (cc h)
  after_lem args (true, a) g h =
      concluded_lem args (refer_container to_int obj a).1 (
        subst (λ b. Concluded b (refer_container to_int obj a).1) (g refl)
          (refer_container_lem a h))

  -- When the merged configuration is accepted, each argument that it may set holds the given value,
  -- or is as it was, and the others are as they were; but the reference container is always
  -- replaced, by none where the key is missing or its text is empty, and the number of events stays
  -- where the given one is -1.
  pub dispatch_conf_obj-Dispatched :
      (args : ProgArgs)
      → (dispatch_conf_obj to_int obj args).0 ≡ true
      → IsDispatched to_int obj args (dispatch_conf_obj to_int obj args).1
        × IsElsewhere to_int obj args (dispatch_conf_obj to_int obj args).1
        × IsSpecial args (dispatch_conf_obj to_int obj args).1
  unfolding dispatch_conf_obj
  dispatch_conf_obj-Dispatched args h =
      after_lem args (apply_bindings to_int obj bindings args)
        (apply_bindings-assign to_int obj bindings args) h
