-- ===== src/Examples/Starting.antt =====
-- The set-up of the program, at concrete inputs.
use resource_topology_export.Base.{ℕ, ◌≡◌, refl, true, false, none, [], ok, failed}
use resource_topology_export.Base.Int.{lt64, is_negative}
use resource_topology_export.Base.Strings.{codes}
use resource_topology_export.Podres.Client.{get_client, get_v1_client, Reached, get_client-Reached}
use resource_topology_export.Monitor.Resources.{ResourceMonitor}
use resource_topology_export.Monitor.Starting.{ready}
use resource_topology_export.Updater.{Args}
use resource_topology_export.Updater.Object.{disabled}
use resource_topology_export.Events.{set_interval, add_file, fresh}
use resource_topology_export.Exporter.Settings.{unreadable, get_topology_manager_settings}
use resource_topology_export.Exporter.Starting.{
  ExecuteArgs, Surroundings, Running, create_event_source, new_nrt_updater, running, execute,
}
use resource_topology_export.Exporter.Starting.Fit.{IsStarted, execute-IsStarted}

-- Every endpoint is the URL of a socket, which answers.
get_client-Reached_example :
    Reached {E = ℕ} {C = ℕ}
      (λ s. ok (record { scheme = codes "unix"; path = s }))
      (λ path. ok 3)
      (codes "sock")
      (get_client
        (λ s. ok (record { scheme = codes "unix"; path = s }))
        (λ path. ok 3)
        (codes "sock"))
      (get_v1_client
        (λ s. ok (record { scheme = codes "unix"; path = s }))
        (λ path. ok 3)
        (codes "sock"))
get_client-Reached_example =
    get_client-Reached (λ s. ok (record { scheme = codes "unix"; path = s })) (λ path. ok 3)
      (codes "sock")

abbrev monitor : ResourceMonitor
monitor = record {
  node_name = codes "n1";
  topo = [];
  core_id_to_node_id_map = [];
  node_capacity = [];
  node_allocatable = [];
}

abbrev nrt_args : Args
nrt_args = record {
  no_publish = false;
  oneshot = false;
  hostname = codes "n1";
  patch_mode = true;
  patch_resync = 3;
}

abbrev args : ExecuteArgs
args = record {
  tm = record {
    topology_manager_policy = codes "none";
    topology_manager_scope = codes "pod";
    kubelet_config_file = [];
  };
  sleep_interval = 60;
  pod_readiness_enable = false;
  notify_file_path = [];
  max_events_per_time_unit = 1;
  time_unit_to_limit_events = 1000000000;
  add_nrt_owner_enable = false;
}

abbrev surroundings : Surroundings ℕ
surroundings = record {
  kubelet_config = λ path. unreadable 4;
  list_nodes = failed 5;
  lookup = λ name. none;
  files = record { mkdir_failed = false; stat = none; create_failed = false; close_failed = false };
  monitor = ready monitor;
}

abbrev started : Running
started = record {
  updater =
      new_nrt_updater disabled nrt_args (record { policy = codes "none"; scope = codes "pod" });
  injector = none;
  events = record { source = record fresh { sleep_interval = 60 }; decorated = true };
  monitor = monitor;
}

starts : execute surroundings nrt_args args ≡ running started
unfolding execute create_event_source get_topology_manager_settings set_interval add_file lt64
    is_negative
starts = refl

execute-IsStarted_example : IsStarted surroundings nrt_args args started
execute-IsStarted_example = execute-IsStarted surroundings nrt_args args started starts
