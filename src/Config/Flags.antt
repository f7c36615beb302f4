-- ===== src/Config/Flags.antt =====
-- FromFlags of pkg/config/flags.go, over what the package flag parses.
pub mod Container
use resource_topology_export.Base.{Bool, true, false, Option, none, some, List, [], ◌∷◌, Text}
use resource_topology_export.Base.Int.{Int64}
use resource_topology_export.Base.Strings.{codes}
use resource_topology_export.Middleware.SharedPool.Ident.{
  Read, ident, malformed, to_text, from_string,
}
use resource_topology_export.Config.{ProgArgs, GlobalArgs, NrtArgs, MonitorArgs, RteArgs, TlsConfig}

-- What CommandLine.Parse finds: the last value that the command line gives to a flag, if any, the
-- arguments that are no flags, and the error.
pub record CommandLine (E : Type 0) : Type 0 where
  pub text_flag : Text → Option Text
  pub bool_flag : Text → Option Bool
  pub int_flag : Text → Option Int64
  pub params : List Text
  pub err : Option E

-- StringVar, BoolVar, and IntVar, Int64Var and DurationVar: a flag that is not given leaves the
-- default.
abbrev pub or_default : {A : Type 0} → Option A → A → A
or_default none default = default
or_default (some v) default = v

pub data FlagsError (E : Type 0) : Type 0 where
  not_parsed : E → FlagsError E
  bad_container : Text → FlagsError E
  too_many_roots : List Text → FlagsError E

pub record FromFlags (E : Type 0) : Type 0 where
  pub root : Text
  pub extra_path : Text
  pub error : Option (FlagsError E)
  pub args : ProgArgs

abbrev pub default_config_root : Text
default_config_root = codes "/etc/rte"

abbrev pub legacy_extra_config_path : Text
legacy_extra_config_path = codes "/etc/resource-topology-exporter/config.yaml"

-- FixExtraConfigPath, over filepath.Join
unfoldable pub fix_extra_config_path : (List Text → Text) → Text → Text
fix_extra_config_path join root = join (root ∷ codes "extra" ∷ codes "config.yaml" ∷ [])

module _ {E : Type 0} (cl : CommandLine E) where
  open cl use {text_flag, bool_flag, int_flag}

  -- The flags of the global arguments and of the updater's.
  unfoldable pub flag_global : GlobalArgs → GlobalArgs
  flag_global args = record args {
    debug = or_default (bool_flag (codes "debug")) args.debug;
    kube_config = or_default (text_flag (codes "kubeconfig")) args.kube_config;
  }

  unfoldable pub flag_nrt_updater : NrtArgs → NrtArgs
  flag_nrt_updater args = record args {
    no_publish = or_default (bool_flag (codes "no-publish")) args.no_publish;
    oneshot = or_default (bool_flag (codes "oneshot")) args.oneshot;
    hostname = or_default (text_flag (codes "hostname")) args.hostname;
    patch_mode = or_default (bool_flag (codes "patch-mode")) args.patch_mode;
    patch_resync = or_default (int_flag (codes "patch-resync")) args.patch_resync;
  }

  unfoldable pub flag_resourcemonitor : MonitorArgs → MonitorArgs
  flag_resourcemonitor args = record args {
    namespace = or_default (text_flag (codes "watch-namespace")) args.namespace;
    sysfs_root = or_default (text_flag (codes "sysfs")) args.sysfs_root;
    pod_set_fingerprint =
        or_default (bool_flag (codes "pods-fingerprint")) args.pod_set_fingerprint;
    expose_timing = or_default (bool_flag (codes "expose-timing")) args.expose_timing;
    refresh_node_resources =
        or_default (bool_flag (codes "refresh-node-resources")) args.refresh_node_resources;
    pod_set_fingerprint_status_file =
        or_default (text_flag (codes "pods-fingerprint-status-file"))
          args.pod_set_fingerprint_status_file;
    exclude_terminal_pods =
        or_default (bool_flag (codes "exclude-terminal-pods")) args.exclude_terminal_pods;
    pod_set_fingerprint_method =
        or_default (text_flag (codes "pods-fingerprint-method")) args.pod_set_fingerprint_method;
  }

  unfoldable pub flag_tls : TlsConfig → TlsConfig
  flag_tls conf = record {
    certs_dir = or_default (text_flag (codes "metrics-certs-dir")) conf.certs_dir;
    cert_file = or_default (text_flag (codes "metrics-cert-file")) conf.cert_file;
    key_file = or_default (text_flag (codes "metrics-key-file")) conf.key_file;
    want_cli_auth = or_default (bool_flag (codes "metrics-want-cli-auth")) conf.want_cli_auth;
    min_tls_version = or_default (text_flag (codes "metrics-tls-min-version")) conf.min_tls_version;
    cipher_suites = or_default (text_flag (codes "metrics-tls-cipher-suites")) conf.cipher_suites;
  }

  unfoldable pub flag_rte : RteArgs → RteArgs
  unfolding flag_tls
  flag_rte args = record args {
    topology_manager_policy =
        or_default (text_flag (codes "topology-manager-policy")) args.topology_manager_policy;
    topology_manager_scope =
        or_default (text_flag (codes "topology-manager-scope")) args.topology_manager_scope;
    sleep_interval = or_default (int_flag (codes "sleep-interval")) args.sleep_interval;
    kubelet_config_file =
        or_default (text_flag (codes "kubelet-config-file")) args.kubelet_config_file;
    pod_resources_socket_path =
        or_default (text_flag (codes "podresources-socket")) args.pod_resources_socket_path;
    pod_readiness_enable = or_default (bool_flag (codes "podreadiness")) args.pod_readiness_enable;
    add_nrt_owner_enable = or_default (bool_flag (codes "add-nrt-owner")) args.add_nrt_owner_enable;
    metrics_mode = or_default (text_flag (codes "metrics-mode")) args.metrics_mode;
    metrics_port = or_default (int_flag (codes "metrics-port")) args.metrics_port;
    metrics_address = or_default (text_flag (codes "metrics-ip")) args.metrics_address;
    metrics_tls_cfg = flag_tls args.metrics_tls_cfg;
    notify_file_path = or_default (text_flag (codes "notify-file")) args.notify_file_path;
    max_events_per_time_unit =
        or_default (int_flag (codes "max-events-per-second")) args.max_events_per_time_unit;
  }

  -- The arguments after Parse.
  unfoldable pub flagged : ProgArgs → ProgArgs
  unfolding flag_global flag_nrt_updater flag_resourcemonitor flag_rte
  flagged args = record {
    global = flag_global args.global;
    nrt_updater = flag_nrt_updater args.nrt_updater;
    resourcemonitor = flag_resourcemonitor args.resourcemonitor;
    rte = flag_rte args.rte;
    version = or_default (bool_flag (codes "version")) args.version;
    dump_config = or_default (text_flag (codes "dump-config")) args.dump_config;
  }

  -- The text of the reference container: the flag's, or that of the arguments.
  abbrev pub container_text : ProgArgs → Text
  container_text args =
      or_default (text_flag (codes "reference-container")) (to_text args.rte.reference_container)

module _ {E : Type 0} (join : List Text → Text) where
  unfoldable pub rooted : Text → List Text → ProgArgs → FromFlags E
  unfolding fix_extra_config_path
  rooted extra [] args = record {
    root = default_config_root;
    extra_path = extra;
    error = none;
    args = args;
  }
  rooted extra (root ∷ []) args = record {
    root = root;
    extra_path = fix_extra_config_path join root;
    error = none;
    args = args;
  }
  rooted extra params args = record {
    root = default_config_root;
    extra_path = extra;
    error = some (too_many_roots params);
    args = args;
  }

  -- An empty text leaves the reference container; one that cannot be read makes it nil.
  unfoldable pub contained : Text → Text → List Text → ProgArgs → Read → FromFlags E
  unfolding rooted
  contained extra [] params args read = rooted extra params args
  contained extra (c ∷ s) params args (ident ci) =
      rooted extra params (record args { rte = record args.rte { reference_container = ci } })
  contained extra (c ∷ s) params args malformed = record {
    root = default_config_root;
    extra_path = legacy_extra_config_path;
    error = some (bad_container (c ∷ s));
    args = record args { rte = record args.rte { reference_container = none } };
  }

  -- The steps after Parse: its error, the version, or the rest.
  abbrev pub flags_read : Option E → Bool → CommandLine E → ProgArgs → FromFlags E
  flags_read (some e) version cl args = record {
    root = default_config_root;
    extra_path = legacy_extra_config_path;
    error = some (not_parsed e);
    args = args;
  }
  flags_read none true cl args = record {
    root = default_config_root;
    extra_path = legacy_extra_config_path;
    error = none;
    args = args;
  }
  flags_read none false cl args =
      contained (or_default (cl.text_flag (codes "config")) legacy_extra_config_path)
        (container_text cl args) cl.params args (from_string (container_text cl args))

  -- FromFlags
  unfoldable pub from_flags : CommandLine E → ProgArgs → FromFlags E
  unfolding flagged contained
  from_flags cl args = flags_read cl.err (flagged cl args).version cl (flagged cl args)
