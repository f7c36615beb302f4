-- ===== src/Exporter/Starting.antt =====
-- Execute and createEventSource of pkg/resourcetopologyexporter: what the program starts with.
pub mod Fit
pub mod Parts
use resource_topology_export.Base.{
  ◌≡◌, refl, sym, ap, ◌∙◌, inl, inr, Bool, true, false, ◌&&◌, Option, none, some, List, [], ◌∷◌,
  ◌++◌, Text, ℕ, ◌<◌, ◌≤◌, arith, Result, ok, failed, if◌then◌else◌, Bool-cases,
}
use resource_topology_export.Base.Int.{Int64, lt64, is_negative, NonNegative}
use resource_topology_export.Base.Strings.{codes}
use resource_topology_export.Updater.Object.{
  Nrt, TmConfig, NodeInfo, NodeGetter, disabled, new_cached_node_getter,
}
use resource_topology_export.Updater.{Args, NrtUpdater}
use resource_topology_export.Monitor.Resources.{ResourceMonitor}
use resource_topology_export.Monitor.Starting.{
  Started, ready, no_topology, no_resources, no_informer,
}
use resource_topology_export.Events.{
  Source, fresh, Setting, set, negative_interval, already_set, set_interval, FileAnswers, add_file,
  ensure_notify_file_path,
}
use resource_topology_export.Exporter.Settings.{
  TmArgs, Settings, settings, config_error, no_policy, Kubelet, get_topology_manager_settings,
}

-- The arguments that Execute reads, beside those of the settings.
pub record ExecuteArgs : Type 0 where
  pub tm : TmArgs
  pub sleep_interval : Int64
  pub pod_readiness_enable : Bool
  pub notify_file_path : Text
  pub max_events_per_time_unit : Int64
  pub time_unit_to_limit_events : Int64
  pub add_nrt_owner_enable : Bool

-- The source of the events, and whether a rate limiter decorates it.
pub record EventSource : Type 0 where
  pub source : Source
  pub decorated : Bool

abbrev pub is_limited : ExecuteArgs → Bool
is_limited args = lt64 0 args.max_events_per_time_unit && lt64 0 args.time_unit_to_limit_events

abbrev pub limited_source : ExecuteArgs → Option Source → Option EventSource
limited_source args none = none
limited_source args (some es) = some (record { source = es; decorated = is_limited args })

abbrev pub after_interval : FileAnswers → ExecuteArgs → Setting → Option EventSource
after_interval fs args (set es) = limited_source args (add_file fs args.notify_file_path es)
after_interval fs args negative_interval = none
after_interval fs args already_set = none

-- createEventSource, where fsnotify gives a watcher; none is an error.
unfoldable pub create_event_source : FileAnswers → ExecuteArgs → Option EventSource
create_event_source fs args = after_interval fs args (set_interval args.sleep_interval fresh)

-- NewNRTUpdater, with a client
unfoldable pub new_nrt_updater : NodeGetter → Args → TmConfig → NrtUpdater
new_nrt_updater getter args tm = record {
  args = args;
  tm_config = tm;
  node_getter = getter;
  prev_nrt = none;
  patch_count = 0;
}

-- The identity that NewConditionInjector takes from the environment; none is an error.
unfoldable pub injector_identity : (Text → Option Text) → Option (Text × Text)
injector_identity lookup = elim (lookup (codes "REFERENCE_NAMESPACE")) [
  | none ↦ none
  | some namespace ↦ elim (lookup (codes "REFERENCE_POD_NAME")) [
    | none ↦ none
    | some pod ↦ some (namespace, pod)
  ]
]

-- What Execute starts.
pub record Running : Type 0 where
  pub updater : NrtUpdater
  pub injector : Option (Text × Text)
  pub events : EventSource
  pub monitor : ResourceMonitor

pub data Executed (E : Type 0) : Type 0 where
  bad_settings : Executed E
  no_nodes : E → Executed E
  no_injector : Executed E
  no_events : Executed E
  no_monitor : Started E → Executed E
  running : Running → Executed E

-- The surroundings: the kubelet's configuration, the nodes that the API server lists, the environment,
-- the file system, and how NewResourceMonitor ends.
pub record Surroundings (E : Type 0) : Type 0 where
  pub kubelet_config : Text → Kubelet E
  pub list_nodes : Result E (List NodeInfo)
  pub lookup : Text → Option Text
  pub files : FileAnswers
  pub monitor : Started E

module _ {E : Type 0} (s : Surroundings E) (nrt_args : Args) (args : ExecuteArgs) where
  abbrev pub getter_for : Bool → Result E NodeGetter
  getter_for false = ok disabled
  getter_for true = elim s.list_nodes [
    | failed e ↦ failed e
    | ok nodes ↦ ok (new_cached_node_getter nodes)
  ]

  abbrev pub injector_for : Bool → Option (Option (Text × Text))
  injector_for false = some none
  injector_for true = elim (injector_identity s.lookup) [
    | none ↦ none
    | some identity ↦ some (some identity)
  ]

  abbrev pub with_monitor :
      TmConfig → NodeGetter → Option (Text × Text) → EventSource → Started E → Executed E
  with_monitor tm getter injector events (ready rm) = running (record {
    updater = new_nrt_updater getter nrt_args tm;
    injector = injector;
    events = events;
    monitor = rm;
  })
  with_monitor tm getter injector events started = no_monitor started

  abbrev pub with_events :
      TmConfig → NodeGetter → Option (Text × Text) → Option EventSource → Executed E
  with_events tm getter injector none = no_events
  with_events tm getter injector (some events) = with_monitor tm getter injector events s.monitor

  abbrev pub with_injector : TmConfig → NodeGetter → Option (Option (Text × Text)) → Executed E
  with_injector tm getter none = no_injector
  with_injector tm getter (some injector) =
      with_events tm getter injector (create_event_source s.files args)

  abbrev pub with_getter : TmConfig → Result E NodeGetter → Executed E
  with_getter tm (failed e) = no_nodes e
  with_getter tm (ok getter) = with_injector tm getter (injector_for args.pod_readiness_enable)

  abbrev pub with_settings : Settings E → Executed E
  with_settings (settings tm) = with_getter tm (getter_for args.add_nrt_owner_enable)
  with_settings (config_error e) = bad_settings
  with_settings no_policy = bad_settings

  -- Execute, up to the start of the goroutines.
  unfoldable pub execute : Executed E
  unfolding create_event_source new_nrt_updater injector_identity
  execute = with_settings (get_topology_manager_settings s.kubelet_config args.tm)
