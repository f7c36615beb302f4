-- ===== src/Config/Loading/Layered.antt =====
-- LoadArgs of pkg/config: for each argument, the order of what may set it.
use resource_topology_export.Base.{
  ◌≡◌, ◌≢◌, Bool, true, false, Option, [], Text, nat_beq, text_eq, if◌then◌else◌,
}
use resource_topology_export.Base.Int.{Int64}
use resource_topology_export.Base.Strings.{codes, to_lower}
use resource_topology_export.Middleware.SharedPool.Ident.{
  ContainerIdent, ident, from_string, to_text, is_empty,
}
use resource_topology_export.Config.{ProgArgs, ExtraConfig, or_text}
use resource_topology_export.Config.Flags.{or_default}
use resource_topology_export.Config.Dispatch.{ConfigMap}
use resource_topology_export.Config.Dispatch.Laws.{given_text, given_int, given_bool}
use resource_topology_export.Config.Dispatch.Success.{given_limit}
use resource_topology_export.Config.Loading.{Surroundings, named}

-- A port that is kept unless it is zero.
abbrev pub or_port : Int64 → Int64 → Int64
or_port port other = if nat_beq port 0 then other else port

-- A container that a text replaces, unless it is empty.
pub data Replaced (s : Text) (before after : Option ContainerIdent) : Type 0 where
  kept : s ≡ [] → after ≡ before → Replaced s before after
  parsed : s ≢ [] → from_string s ≡ ident after → Replaced s before after

module _ {E F : Type 0} (s : Surroundings E F) (obj : ConfigMap F) where
  open s use {command_line, files, env}

  -- The flag, or else the value under the key, or else the default.
  abbrev pub text_layers : Text → Text → Text → Text
  text_layers flag key default =
      or_default (command_line.text_flag flag) (given_text files.to_int obj key default)

  abbrev pub int_layers : Text → Text → Int64 → Int64
  int_layers flag key default =
      or_default (command_line.int_flag flag) (given_int files.to_int obj key default)

  abbrev pub bool_layers : Text → Text → Bool → Bool
  bool_layers flag key default =
      or_default (command_line.bool_flag flag) (given_bool files.to_int obj key default)

  -- The reference container: that of the files, or, where that is empty, that of the environment; and
  -- in its place that of the flag, whose default is the text of the former.
  pub record IsReferred (ci : Option ContainerIdent) : Type 0 where
    pub filed : Option ContainerIdent
    pub is_filed :
        from_string (given_text files.to_int obj (codes "topologyExporter.referenceContainer") [])
        ≡ ident filed
    pub is_read :
        let before = (if is_empty filed then env.reference_container else filed) in
        Replaced
          (or_default (command_line.text_flag (codes "reference-container")) (to_text before))
          before
          ci

  -- Where each argument of LoadArgs comes from.
  pub record IsLayered (extra : ExtraConfig) (new : ProgArgs) : Type 0 where
    pub reference_container : IsReferred new.rte.reference_container
    pub global_kube_config :
        new.global.kube_config ≡ text_layers (codes "kubeconfig") (codes "global.kubeconfig") []
    pub global_verbose : new.global.verbose ≡ given_int files.to_int obj (codes "global.verbose") 2
    pub no_publish :
        new.nrt_updater.no_publish
        ≡ bool_layers (codes "no-publish") (codes "nrtUpdater.noPublish") false
    pub oneshot :
        new.nrt_updater.oneshot ≡ bool_layers (codes "oneshot") (codes "nrtUpdater.oneShot") false
    pub patch_mode :
        new.nrt_updater.patch_mode
        ≡ bool_layers (codes "patch-mode") (codes "nrtUpdater.patchMode") true
    pub patch_resync :
        new.nrt_updater.patch_resync
        ≡ int_layers (codes "patch-resync") (codes "nrtUpdater.patchResync") 10
    pub namespace :
        new.resourcemonitor.namespace
        ≡ text_layers (codes "watch-namespace") (codes "resourceMonitor.namespace") []
    pub sysfs_root :
        new.resourcemonitor.sysfs_root
        ≡ text_layers (codes "sysfs") (codes "resourceMonitor.sysfsRoot") (codes "/sys")
    pub refresh_node_resources :
        new.resourcemonitor.refresh_node_resources
        ≡ bool_layers
            (codes "refresh-node-resources")
            (codes "resourceMonitor.refreshNodeResources")
            false
    pub pod_set_fingerprint :
        new.resourcemonitor.pod_set_fingerprint
        ≡ bool_layers (codes "pods-fingerprint") (codes "resourceMonitor.podSetFingerprint") true
    pub expose_timing :
        new.resourcemonitor.expose_timing
        ≡ bool_layers (codes "expose-timing") (codes "resourceMonitor.exposeTiming") false
    pub exclude_terminal_pods :
        new.resourcemonitor.exclude_terminal_pods
        ≡ bool_layers
            (codes "exclude-terminal-pods")
            (codes "resourceMonitor.excludeTerminalPods")
            false
    pub pod_resources_socket_path :
        new.rte.pod_resources_socket_path
        ≡ text_layers
            (codes "podresources-socket")
            (codes "topologyExporter.podResourcesSocketPath")
            (codes "unix:///podresources/kubelet.sock")
    pub sleep_interval :
        new.rte.sleep_interval
        ≡ int_layers (codes "sleep-interval") (codes "topologyExporter.sleepInterval") 60000000000
    pub pod_readiness_enable :
        new.rte.pod_readiness_enable
        ≡ bool_layers (codes "podreadiness") (codes "topologyExporter.podReadinessEnable") true
    pub notify_file_path :
        new.rte.notify_file_path
        ≡ text_layers (codes "notify-file") (codes "topologyExporter.notifyFilePath") []
    pub time_unit_to_limit_events :
        new.rte.time_unit_to_limit_events
        ≡ given_int files.to_int obj (codes "topologyExporter.timeUnitToLimitEvents") 1000000000
    pub add_nrt_owner_enable :
        new.rte.add_nrt_owner_enable
        ≡ bool_layers (codes "add-nrt-owner") (codes "topologyExporter.addNRTOwnerEnable") true
    pub tls_certs_dir :
        new.rte.metrics_tls_cfg.certs_dir
        ≡ text_layers
            (codes "metrics-certs-dir")
            (codes "topologyExporter.metricsTLS.certsDir")
            (codes "/etc/secrets/rte")
    pub tls_cert_file :
        new.rte.metrics_tls_cfg.cert_file
        ≡ text_layers
            (codes "metrics-cert-file")
            (codes "topologyExporter.metricsTLS.certFile")
            (codes "tls.crt")
    pub tls_key_file :
        new.rte.metrics_tls_cfg.key_file
        ≡ text_layers
            (codes "metrics-key-file")
            (codes "topologyExporter.metricsTLS.keyFile")
            (codes "tls.key")
    pub tls_want_cli_auth :
        new.rte.metrics_tls_cfg.want_cli_auth
        ≡ bool_layers
            (codes "metrics-want-cli-auth")
            (codes "topologyExporter.metricsTLS.wantCliAuth")
            false
    pub tls_min_tls_version :
        new.rte.metrics_tls_cfg.min_tls_version
        ≡ text_layers
            (codes "metrics-tls-min-version")
            (codes "topologyExporter.metricsTLS.minTLSVersion")
            []
    pub tls_cipher_suites :
        new.rte.metrics_tls_cfg.cipher_suites
        ≡ text_layers
            (codes "metrics-tls-cipher-suites")
            (codes "topologyExporter.metricsTLS.cipherSuites")
            []
    pub global_debug : new.global.debug ≡ bool_layers (codes "debug") (codes "global.debug") false
    pub dump_config : new.dump_config ≡ or_default (command_line.text_flag (codes "dump-config")) []
    pub kube_config : new.nrt_updater.kube_config ≡ []
    pub hostname :
        new.nrt_updater.hostname
        ≡ named s.hostname (
            or_default
              (command_line.text_flag (codes "hostname"))
              (or_text (given_text files.to_int obj (codes "nrtUpdater.hostname") []) env.hostname))
    pub resource_exclude : new.resourcemonitor.resource_exclude ≡ extra.resource_exclude
    pub pod_exclude : new.resourcemonitor.pod_exclude ≡ extra.pod_exclude
    pub pod_set_fingerprint_method :
        new.resourcemonitor.pod_set_fingerprint_method
        ≡ to_lower (
            text_layers
              (codes "pods-fingerprint-method")
              (codes "resourceMonitor.podSetFingerprintMethod")
              s.default_method)
    pub pod_set_fingerprint_status_file :
        new.resourcemonitor.pod_set_fingerprint_status_file
        ≡ or_default (command_line.text_flag (codes "pods-fingerprint-status-file")) (
            or_text
              (given_text files.to_int obj (codes "resourceMonitor.podSetFingerprintStatusFile") [])
              env.pod_set_fingerprint_status_file)
    pub topology_manager_policy :
        new.rte.topology_manager_policy
        ≡ or_default
            (command_line.text_flag (codes "topology-manager-policy"))
            (or_text extra.topology_manager_policy env.topology_manager_policy)
    pub topology_manager_scope :
        new.rte.topology_manager_scope
        ≡ or_default
            (command_line.text_flag (codes "topology-manager-scope"))
            (or_text extra.topology_manager_scope env.topology_manager_scope)
    pub kubelet_config_file :
        new.rte.kubelet_config_file
        ≡ or_default
            (command_line.text_flag (codes "kubelet-config-file"))
            (codes "/podresources/config.yaml")
    pub max_events_per_time_unit :
        new.rte.max_events_per_time_unit
        ≡ or_default
            (command_line.int_flag (codes "max-events-per-second"))
            (given_limit files.to_int obj 1)
    pub metrics_mode :
        new.rte.metrics_mode
        ≡ to_lower (
            text_layers
              (codes "metrics-mode")
              (codes "topologyExporter.metricsMode")
              (codes "disabled"))
    pub metrics_port :
        new.rte.metrics_port
        ≡ or_default (command_line.int_flag (codes "metrics-port")) (
            or_port
              (given_int files.to_int obj (codes "topologyExporter.metricsPort") 2112)
              env.metrics_port)
    pub metrics_address :
        new.rte.metrics_address
        ≡ or_default (command_line.text_flag (codes "metrics-ip")) (
            or_text
              (given_text files.to_int obj
                (codes "topologyExporter.MetricsAddress")
                (codes "0.0.0.0"))
              env.metrics_address)
