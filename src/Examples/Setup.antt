-- ===== src/Examples/Setup.antt =====
-- Events and the configuration at concrete inputs.
use resource_topology_export.Base.{
  ℕ, ◌-◌, ◌≡◌, refl, true, false, none, some, List, [], ◌∷◌, ◌++◌, Text, Any, text_beq, arith,
}
use resource_topology_export.Base.Int.{Int64, lt64}
use resource_topology_export.Base.Strings.{codes, has_prefix, split, trim, is_space}
use resource_topology_export.Base.Dict.{get}
use resource_topology_export.Middleware.SharedPool.Ident.{from_string, from_items}
use resource_topology_export.Exporter.{Times, Event, is_timer}
use resource_topology_export.Events.{
  FsEvent, Source, Wake, tick, file_event, watch_error, stop, run,
}
use resource_topology_export.Events.Sources.{Emitted, run-Emitted}
use resource_topology_export.Events.Limiter.{
  Limiter, start, buffers, takes, Steps, none_yet, then_step, IsLimited, held, Steps-IsLimited,
  Steps-first_kept,
}
use resource_topology_export.Config.{ProgArgs, default_tls_config}
use resource_topology_export.Config.Dispatch.{
  text, number, boolean, ConfigMap, after_bindings, refer_container, apply_bindings, value_at,
  string_at, int_at, bool_at, duration_at,
}
use resource_topology_export.Config.Dispatch.Bindings.{dispatch_conf_obj}
use resource_topology_export.Config.Dispatch.Fields.{IsDispatched, IsElsewhere}
use resource_topology_export.Config.Dispatch.Success.{IsSpecial, dispatch_conf_obj-Dispatched}
use resource_topology_export.Config.Paths.{
  is_config_root_allowed, add_dirs, first_pattern, UserDir, dir, skipped, Resolved, resolved,
  read_configlet, reads, LiesUnder, IsTarget, fixed_patterns, is_dir, read_configlet-LiesUnder,
}

abbrev seconds : Times
seconds = record {
  Time = ℕ;
  sub = λ a b. a - b;
  round_second = λ d. d;
  duration_text = λ d. d ∷ [];
}

abbrev source : Source
source = record { sleep_interval = 60; filters = codes "/run/rte/notify" ∷ [] }

abbrev written : FsEvent
written = record { name = codes "/run/rte/notify"; chmod = false; write = true }

abbrev wakes : List (Wake seconds)
wakes = tick 60 ∷ file_event 70 written ∷ watch_error ∷ stop ∷ tick 120 ∷ []

sixty : lt64 0 60 ≡ true
unfolding lt64
sixty = refl

run-Emitted_example :
    (first : Event seconds) × (events : List (Event seconds)) × (run seconds source 0 wakes
      ≡ first ∷ events)
    × (is_timer seconds first ≡ false)
    × Emitted seconds source wakes events
run-Emitted_example = run-Emitted seconds source 0 wakes (sixty, (tt, (tt, (tt, (sixty, tt)))))

abbrev one_buffered : Limiter ℕ
one_buffered = record start { buffer = 7 ∷ []; received = 7 ∷ [] }

abbrev one_held : Limiter ℕ
one_held = record one_buffered { buffer = []; holding = some 7 }

steps : Steps start one_held
steps = then_step (then_step none_yet (buffers 7 refl (omega arith))) (takes 7 [] refl refl refl)

Steps-IsLimited_example : IsLimited one_held
Steps-IsLimited_example = Steps-IsLimited steps

Steps-first_kept_example :
    one_held.delivered ++ (held one_held.holding ++ one_held.buffer) ≡ one_held.received
Steps-first_kept_example = Steps-first_kept steps (omega arith)

abbrev args : ProgArgs
args = record {
  global = record { kube_config = []; debug = false; verbose = 2 };
  nrt_updater = record {
    no_publish = false;
    oneshot = false;
    hostname = [];
    kube_config = [];
    patch_mode = true;
    patch_resync = 10;
  };
  resourcemonitor = record {
    namespace = [];
    sysfs_root = codes "/sys";
    resource_exclude = [];
    refresh_node_resources = false;
    pod_set_fingerprint = true;
    pod_set_fingerprint_method = codes "all";
    expose_timing = false;
    pod_set_fingerprint_status_file = [];
    pod_exclude = [];
    exclude_terminal_pods = false;
  };
  rte = record {
    reference_container = none;
    topology_manager_policy = [];
    topology_manager_scope = codes "pod";
    kubelet_config_file = [];
    pod_resources_socket_path = [];
    sleep_interval = 60;
    pod_readiness_enable = true;
    notify_file_path = [];
    max_events_per_time_unit = 1;
    time_unit_to_limit_events = 1;
    add_nrt_owner_enable = true;
    metrics_mode = codes "disabled";
    metrics_port = 2112;
    metrics_address = [];
    metrics_tls_cfg = default_tls_config;
  };
  version = false;
  dump_config = [];
}

-- Numbers that are natural ones.
abbrev to_int : ℕ → Int64
to_int n = n

abbrev document : ConfigMap ℕ
document =
    (codes "global.debug", boolean true)
    ∷ (codes "topologyExporter.sleepInterval", number 10)
    ∷ (codes "topologyExporter.referenceContainer", text (codes "ns/pod/cnt"))
    ∷ (codes "topologyExporter.maxEventPerTimeUnit", number 3)
    ∷ []

document_accepted : (dispatch_conf_obj to_int document args).0 ≡ true
unfolding dispatch_conf_obj after_bindings refer_container apply_bindings value_at string_at int_at
    bool_at duration_at from_string from_items split trim is_space get text_beq
document_accepted = refl

dispatch_conf_obj-Dispatched_example :
    IsDispatched to_int document args (dispatch_conf_obj to_int document args).1
    × IsElsewhere to_int document args (dispatch_conf_obj to_int document args).1
    × IsSpecial to_int document args (dispatch_conf_obj to_int document args).1
dispatch_conf_obj-Dispatched_example =
    dispatch_conf_obj-Dispatched to_int document args document_accepted

abbrev clean : Text → Text
clean path = path

abbrev links : Text → Resolved ℕ
links path = resolved path

abbrev dirs : List (UserDir ℕ)
dirs = dir (codes "/run/user/0/rte") ∷ skipped ∷ []

reads_config :
    read_configlet clean links dirs (codes "/etc/rte/daemon/config.yaml")
    ≡ reads (codes "/etc/rte/daemon/config.yaml")
unfolding read_configlet is_config_root_allowed add_dirs first_pattern has_prefix
reads_config = refl

read_configlet-LiesUnder_example :
    IsTarget
      (codes "/etc/rte/daemon/config.yaml")
      (links (codes "/etc/rte/daemon/config.yaml"))
      (codes "/etc/rte/daemon/config.yaml")
    × Any (LiesUnder (codes "/etc/rte/daemon/config.yaml")) (fixed_patterns ++ is_dir dirs)
read_configlet-LiesUnder_example =
    read_configlet-LiesUnder clean links dirs (codes "/etc/rte/daemon/config.yaml")
      (codes "/etc/rte/daemon/config.yaml") reads_config
