-- ===== src/Readiness.antt =====
-- pkg/podreadiness: conditions of the exporter's own pod.
pub mod Injected
use resource_topology_export.Base.{
  ◌≡◌, Bool, true, false, ◌&&◌, Option, none, some, List, [], ◌∷◌, Text, ℕ, text_eq, text_beq,
  if◌then◌else◌,
}
use resource_topology_export.Base.Dict.{Dict, get, put}
use resource_topology_export.Base.Strings.{codes}

-- RTEConditionType
pub data ConditionType : Type 0 where
  podresources_fetched node_topology_updated : ConditionType

abbrev pub type_text : ConditionType → Text
type_text podresources_fetched = codes "PodresourcesFetched"
type_text node_topology_updated = codes "NodeTopologyUpdated"

-- v1.PodCondition; `stamp` is its LastTransitionTime.
pub record PodCondition : Type 0 where
  pub type : Text
  pub status : Text
  pub reason : Text
  pub message : Text
  pub stamp : ℕ

abbrev pub condition_true : Text
condition_true = codes "True"

abbrev pub condition_false : Text
condition_false = codes "False"

-- newConditionTemplate
abbrev new_condition_template : ConditionType → Text → ℕ → PodCondition
new_condition_template type status now = record {
  type = type_text type;
  status = status;
  reason = [];
  message = [];
  stamp = now;
}

abbrev explained : ConditionType → PodCondition → PodCondition
explained podresources_fetched cond = record cond {
  reason = codes "ScanFailed";
  message = codes "failed to scan pod resources";
}
explained node_topology_updated cond = record cond {
  reason = codes "UpdateFailed";
  message = codes "failed to update noderesourcetopology object";
}

-- SetCondition: what is written to the channel, which may be nil.
unfoldable pub set_condition : Bool → ConditionType → Bool → ℕ → Option PodCondition
set_condition false type status now = none
set_condition true type true now = some (new_condition_template type condition_true now)
set_condition true type false now =
    some (explained type (new_condition_template type condition_false now))

-- equalPodCondition
unfoldable pub equal_pod_condition : PodCondition → PodCondition → Bool
equal_pod_condition a b =
    text_beq a.type b.type
    && (text_beq a.status b.status && (text_beq a.reason b.reason && text_beq a.message b.message))

-- slices.IndexFunc and the write that follows: the first condition of the type is replaced, or the
-- condition is added at the end.
unfoldable pub upsert : PodCondition → List PodCondition → List PodCondition
upsert cond [] = cond ∷ []
upsert cond (c ∷ cs) =
    let rest = upsert cond cs in if text_beq c.type cond.type then cond ∷ cs else c ∷ rest

-- The client of the API server, over a state of the server: the conditions of the pod, or an error.
pub record PodApi (W E : Type 0) : Type 0 where
  pub get_pod : W → Option E × List PodCondition × W
  pub update_status : List PodCondition → W → Option E × W

-- ConditionInjector
abbrev pub Injector : Type 0
Injector = Dict Text PodCondition

module _ {W E : Type 0} (api : PodApi W E) where
  abbrev after_status : Injector → PodCondition → Option E × W → Option E × Injector × W
  after_status last cond (none, w) = (none, put last cond.type cond, w)
  after_status last cond (some e, w) = (some e, last, w)

  abbrev after_pod :
      Injector → PodCondition → Option E × List PodCondition × W → Option E × Injector × W
  after_pod last cond (none, conds, w) =
      after_status last cond (api.update_status (upsert cond conds) w)
  after_pod last cond (some e, conds, w) = (some e, last, w)

  abbrev is_known : Option PodCondition → PodCondition → Bool
  is_known none cond = false
  is_known (some old) cond = equal_pod_condition old cond

  -- Inject
  unfoldable pub inject : PodCondition → Injector → W → Option E × Injector × W
  inject cond last w =
      let sent = after_pod last cond (api.get_pod w) in
      if is_known (get last cond.type) cond then (none, last, w) else sent

  -- Run, over the conditions that arrive; errors are logged.
  unfoldable pub run : List PodCondition → Injector → W → Injector × W
  run [] last w = (last, w)
  run (cond ∷ conds) last w = let (e, last', w') = inject cond last w in run conds last' w'
