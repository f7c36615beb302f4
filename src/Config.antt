-- ===== src/Config.antt =====
-- pkg/config: the arguments of the program, their defaults, and what the environment and the extra
-- configuration file fill in.
pub mod Dispatch
pub mod Flags
pub mod Files
pub mod Loading
pub mod Paths
pub mod Environ
use resource_topology_export.Base.{
  ◌≡◌, refl, Bool, true, false, ◌&&◌, ◌||◌, not, Option, none, some, List, [], ◌∷◌, Text, ℕ,
  nat_beq, text_beq, if◌then◌else◌,
}
use resource_topology_export.Base.Int.{Int64}
use resource_topology_export.Base.Strings.{codes, to_lower}
use resource_topology_export.Middleware.Exclude.{Item}
use resource_topology_export.Middleware.SharedPool.Ident.{ContainerIdent, is_empty}
use resource_topology_export.Monitor.Scan.{ResourceExclude}

pub record GlobalArgs : Type 0 where
  pub kube_config : Text
  pub debug : Bool
  pub verbose : Int64

-- nrtupdater.Args
pub record NrtArgs : Type 0 where
  pub no_publish : Bool
  pub oneshot : Bool
  pub hostname : Text
  pub kube_config : Text
  pub patch_mode : Bool
  pub patch_resync : Int64

-- resourcemonitor.Args
pub record MonitorArgs : Type 0 where
  pub namespace : Text
  pub sysfs_root : Text
  pub resource_exclude : ResourceExclude
  pub refresh_node_resources : Bool
  pub pod_set_fingerprint : Bool
  pub pod_set_fingerprint_method : Text
  pub expose_timing : Bool
  pub pod_set_fingerprint_status_file : Text
  pub pod_exclude : List Item
  pub exclude_terminal_pods : Bool

pub record TlsConfig : Type 0 where
  pub certs_dir : Text
  pub cert_file : Text
  pub key_file : Text
  pub want_cli_auth : Bool
  pub min_tls_version : Text
  pub cipher_suites : Text

-- resourcetopologyexporter.Args; a duration is in nanoseconds.
pub record RteArgs : Type 0 where
  pub reference_container : Option ContainerIdent
  pub topology_manager_policy : Text
  pub topology_manager_scope : Text
  pub kubelet_config_file : Text
  pub pod_resources_socket_path : Text
  pub sleep_interval : Int64
  pub pod_readiness_enable : Bool
  pub notify_file_path : Text
  pub max_events_per_time_unit : Int64
  pub time_unit_to_limit_events : Int64
  pub add_nrt_owner_enable : Bool
  pub metrics_mode : Text
  pub metrics_port : Int64
  pub metrics_address : Text
  pub metrics_tls_cfg : TlsConfig

pub record ProgArgs : Type 0 where
  pub global : GlobalArgs
  pub nrt_updater : NrtArgs
  pub resourcemonitor : MonitorArgs
  pub rte : RteArgs
  pub version : Bool
  pub dump_config : Text

-- nrtupdater.Args.Clone, which leaves out the path of the kubeconfig file
unfoldable pub clone_nrt : NrtArgs → NrtArgs
clone_nrt args = record args { kube_config = [] }

abbrev pub second : Int64
second = 1000000000

-- NewDefaultTLSConfig
abbrev pub default_tls_config : TlsConfig
default_tls_config = record {
  certs_dir = codes "/etc/secrets/rte";
  cert_file = codes "tls.crt";
  key_file = codes "tls.key";
  want_cli_auth = false;
  min_tls_version = [];
  cipher_suites = [];
}

-- SetDefaults; the fingerprint method is a constant of the podfingerprint package.
unfoldable pub set_defaults : Text → ProgArgs → ProgArgs
set_defaults method args = record args {
  global = record args.global { verbose = 2 };
  nrt_updater = record args.nrt_updater { patch_mode = true; patch_resync = 10 };
  resourcemonitor = record args.resourcemonitor {
    sysfs_root = codes "/sys";
    pod_set_fingerprint = true;
    pod_set_fingerprint_method = method;
  };
  rte = record args.rte {
    sleep_interval = 60000000000;
    kubelet_config_file = codes "/podresources/config.yaml";
    pod_resources_socket_path = codes "unix:///podresources/kubelet.sock";
    pod_readiness_enable = true;
    add_nrt_owner_enable = true;
    metrics_mode = codes "disabled";
    metrics_port = 2112;
    metrics_address = codes "0.0.0.0";
    metrics_tls_cfg = default_tls_config;
    max_events_per_time_unit = 1;
    time_unit_to_limit_events = second;
  };
}

-- What the environment gives to each of the FromEnv functions.
pub record Environment : Type 0 where
  pub hostname : Text
  pub topology_manager_policy : Text
  pub topology_manager_scope : Text
  pub reference_container : Option ContainerIdent
  pub metrics_port : Int64
  pub metrics_address : Text
  pub pod_set_fingerprint_status_file : Text

-- A text that is kept unless it is empty.
abbrev pub or_text : Text → Text → Text
or_text [] other = other
or_text (c ∷ s) other = c ∷ s

-- FromEnv
unfoldable pub from_env : Environment → ProgArgs → ProgArgs
from_env env args = record args {
  nrt_updater = record args.nrt_updater {
    hostname = or_text args.nrt_updater.hostname env.hostname;
  };
  rte = record args.rte {
    topology_manager_policy = or_text args.rte.topology_manager_policy env.topology_manager_policy;
    topology_manager_scope = or_text args.rte.topology_manager_scope env.topology_manager_scope;
    reference_container =
        if is_empty args.rte.reference_container
        then env.reference_container
        else args.rte.reference_container;
    metrics_port =
        if nat_beq args.rte.metrics_port 0 then env.metrics_port else args.rte.metrics_port;
    metrics_address = or_text args.rte.metrics_address env.metrics_address;
  };
  resourcemonitor = record args.resourcemonitor {
    pod_set_fingerprint_status_file =
        or_text args.resourcemonitor.pod_set_fingerprint_status_file
          env.pod_set_fingerprint_status_file;
  };
}

-- config, of the extra configuration file
pub record ExtraConfig : Type 0 where
  pub topology_manager_policy : Text
  pub topology_manager_scope : Text
  pub resource_exclude : ResourceExclude
  pub pod_exclude : List Item

abbrev pub or_list : {A : Type 0} → List A → List A → List A
or_list [] other = other
or_list (x ∷ xs) other = x ∷ xs

-- setupArgsFromConfig
unfoldable pub setup_args_from_config : ExtraConfig → ProgArgs → ProgArgs
setup_args_from_config conf args = record args {
  resourcemonitor = record args.resourcemonitor {
    resource_exclude = or_list conf.resource_exclude args.resourcemonitor.resource_exclude;
    pod_exclude = or_list conf.pod_exclude args.resourcemonitor.pod_exclude;
  };
  rte = record args.rte {
    topology_manager_policy = or_text args.rte.topology_manager_policy conf.topology_manager_policy;
    topology_manager_scope = or_text args.rte.topology_manager_scope conf.topology_manager_scope;
  };
}

-- ServingModeIsSupported: the value in lower case, and whether it is one.
unfoldable pub serving_mode_is_supported : Text → Text × Bool
serving_mode_is_supported value =
    let val = to_lower value in
    (
      val,
      text_beq val (codes "disabled")
          || (text_beq val (codes "http") || text_beq val (codes "httptls")),
    )

-- PFPMethodIsSupported, over the two methods of the podfingerprint package
unfoldable pub pfp_method_is_supported : Text → Text → Text → Text × Bool
pfp_method_is_supported all exclusive value =
    let val = to_lower value in (val, text_beq val all || text_beq val exclusive)

-- Validate: whether it succeeds, and the arguments, which are written before a test fails.
unfoldable pub validate : Text → Text → ProgArgs → Bool × ProgArgs
validate all exclusive args =
    let (mode, mode_ok) = serving_mode_is_supported args.rte.metrics_mode in
    let (method, method_ok) =
      pfp_method_is_supported all exclusive args.resourcemonitor.pod_set_fingerprint_method in
    let args' : ProgArgs = record args { rte = record args.rte { metrics_mode = mode } } in
    if mode_ok
    then (
      method_ok,
      record args' {
        resourcemonitor = record args.resourcemonitor { pod_set_fingerprint_method = method };
      },
    )
    else (false, args')
