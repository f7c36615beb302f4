-- ===== src/Config/Dispatch/Fields.antt =====
-- The arguments after dispatchConfObj of pkg/config/cfgdispatch.go, field by field.
use resource_topology_export.Base.{◌≡◌, refl, Option, text_eq}
use resource_topology_export.Base.Int.{Int64}
use resource_topology_export.Base.Strings.{codes}
use resource_topology_export.Middleware.SharedPool.Ident.{ContainerIdent}
use resource_topology_export.Config.{ProgArgs}
use resource_topology_export.Config.Dispatch.{ConfigMap}
use resource_topology_export.Config.Dispatch.Bindings.{bindings}
use resource_topology_export.Config.Dispatch.Laws.{given_text, given_int, given_bool, assign_all}

module _ {F : Type 0} (to_int : F → Int64) (obj : ConfigMap F) where
  -- Each bound argument is the given one, or as it was.
  pub record IsDispatched (old new : ProgArgs) : Type 0 where
    pub global_debug :
        new.global.debug ≡ given_bool to_int obj (codes "global.debug") old.global.debug
    pub global_verbose :
        new.global.verbose ≡ given_int to_int obj (codes "global.verbose") old.global.verbose
    pub global_kube_config :
        new.global.kube_config
        ≡ given_text to_int obj (codes "global.kubeconfig") old.global.kube_config
    pub nrt_updater_no_publish :
        new.nrt_updater.no_publish
        ≡ given_bool to_int obj (codes "nrtUpdater.noPublish") old.nrt_updater.no_publish
    pub nrt_updater_oneshot :
        new.nrt_updater.oneshot
        ≡ given_bool to_int obj (codes "nrtUpdater.oneShot") old.nrt_updater.oneshot
    pub nrt_updater_hostname :
        new.nrt_updater.hostname
        ≡ given_text to_int obj (codes "nrtUpdater.hostname") old.nrt_updater.hostname
    pub nrt_updater_patch_mode :
        new.nrt_updater.patch_mode
        ≡ given_bool to_int obj (codes "nrtUpdater.patchMode") old.nrt_updater.patch_mode
    pub nrt_updater_patch_resync :
        new.nrt_updater.patch_resync
        ≡ given_int to_int obj (codes "nrtUpdater.patchResync") old.nrt_updater.patch_resync
    pub resourcemonitor_namespace :
        new.resourcemonitor.namespace
        ≡ given_text to_int obj (codes "resourceMonitor.namespace") old.resourcemonitor.namespace
    pub resourcemonitor_sysfs_root :
        new.resourcemonitor.sysfs_root
        ≡ given_text to_int obj (codes "resourceMonitor.sysfsRoot") old.resourcemonitor.sysfs_root
    pub resourcemonitor_refresh_node_resources :
        new.resourcemonitor.refresh_node_resources
        ≡ given_bool to_int obj
            (codes "resourceMonitor.refreshNodeResources")
            old.resourcemonitor.refresh_node_resources
    pub resourcemonitor_pod_set_fingerprint :
        new.resourcemonitor.pod_set_fingerprint
        ≡ given_bool to_int obj
            (codes "resourceMonitor.podSetFingerprint")
            old.resourcemonitor.pod_set_fingerprint
    pub resourcemonitor_pod_set_fingerprint_method :
        new.resourcemonitor.pod_set_fingerprint_method
        ≡ given_text to_int obj
            (codes "resourceMonitor.podSetFingerprintMethod")
            old.resourcemonitor.pod_set_fingerprint_method
    pub resourcemonitor_expose_timing :
        new.resourcemonitor.expose_timing
        ≡ given_bool to_int obj
            (codes "resourceMonitor.exposeTiming")
            old.resourcemonitor.expose_timing
    pub resourcemonitor_pod_set_fingerprint_status_file :
        new.resourcemonitor.pod_set_fingerprint_status_file
        ≡ given_text to_int obj
            (codes "resourceMonitor.podSetFingerprintStatusFile")
            old.resourcemonitor.pod_set_fingerprint_status_file
    pub resourcemonitor_exclude_terminal_pods :
        new.resourcemonitor.exclude_terminal_pods
        ≡ given_bool to_int obj
            (codes "resourceMonitor.excludeTerminalPods")
            old.resourcemonitor.exclude_terminal_pods
    pub rte_pod_resources_socket_path :
        new.rte.pod_resources_socket_path
        ≡ given_text to_int obj
            (codes "topologyExporter.podResourcesSocketPath")
            old.rte.pod_resources_socket_path
    pub rte_sleep_interval :
        new.rte.sleep_interval
        ≡ given_int to_int obj (codes "topologyExporter.sleepInterval") old.rte.sleep_interval
    pub rte_pod_readiness_enable :
        new.rte.pod_readiness_enable
        ≡ given_bool to_int obj
            (codes "topologyExporter.podReadinessEnable")
            old.rte.pod_readiness_enable
    pub rte_notify_file_path :
        new.rte.notify_file_path
        ≡ given_text to_int obj (codes "topologyExporter.notifyFilePath") old.rte.notify_file_path
    pub rte_time_unit_to_limit_events :
        new.rte.time_unit_to_limit_events
        ≡ given_int to_int obj
            (codes "topologyExporter.timeUnitToLimitEvents")
            old.rte.time_unit_to_limit_events
    pub rte_add_nrt_owner_enable :
        new.rte.add_nrt_owner_enable
        ≡ given_bool to_int obj
            (codes "topologyExporter.addNRTOwnerEnable")
            old.rte.add_nrt_owner_enable
    pub rte_metrics_mode :
        new.rte.metrics_mode
        ≡ given_text to_int obj (codes "topologyExporter.metricsMode") old.rte.metrics_mode
    pub rte_metrics_port :
        new.rte.metrics_port
        ≡ given_int to_int obj (codes "topologyExporter.metricsPort") old.rte.metrics_port
    pub rte_metrics_address :
        new.rte.metrics_address
        ≡ given_text to_int obj (codes "topologyExporter.MetricsAddress") old.rte.metrics_address
    pub rte_metrics_tls_cfg_certs_dir :
        new.rte.metrics_tls_cfg.certs_dir
        ≡ given_text to_int obj
            (codes "topologyExporter.metricsTLS.certsDir")
            old.rte.metrics_tls_cfg.certs_dir
    pub rte_metrics_tls_cfg_cert_file :
        new.rte.metrics_tls_cfg.cert_file
        ≡ given_text to_int obj
            (codes "topologyExporter.metricsTLS.certFile")
            old.rte.metrics_tls_cfg.cert_file
    pub rte_metrics_tls_cfg_key_file :
        new.rte.metrics_tls_cfg.key_file
        ≡ given_text to_int obj
            (codes "topologyExporter.metricsTLS.keyFile")
            old.rte.metrics_tls_cfg.key_file
    pub rte_metrics_tls_cfg_want_cli_auth :
        new.rte.metrics_tls_cfg.want_cli_auth
        ≡ given_bool to_int obj
            (codes "topologyExporter.metricsTLS.wantCliAuth")
            old.rte.metrics_tls_cfg.want_cli_auth
    pub rte_metrics_tls_cfg_min_tls_version :
        new.rte.metrics_tls_cfg.min_tls_version
        ≡ given_text to_int obj
            (codes "topologyExporter.metricsTLS.minTLSVersion")
            old.rte.metrics_tls_cfg.min_tls_version
    pub rte_metrics_tls_cfg_cipher_suites :
        new.rte.metrics_tls_cfg.cipher_suites
        ≡ given_text to_int obj
            (codes "topologyExporter.metricsTLS.cipherSuites")
            old.rte.metrics_tls_cfg.cipher_suites

  -- Nothing else is written by the bindings.
  pub record IsElsewhere (old new : ProgArgs) : Type 0 where
    pub policy : new.rte.topology_manager_policy ≡ old.rte.topology_manager_policy
    pub scope : new.rte.topology_manager_scope ≡ old.rte.topology_manager_scope
    pub kubelet : new.rte.kubelet_config_file ≡ old.rte.kubelet_config_file
    pub resource_exclude :
        new.resourcemonitor.resource_exclude ≡ old.resourcemonitor.resource_exclude
    pub pod_exclude : new.resourcemonitor.pod_exclude ≡ old.resourcemonitor.pod_exclude
    pub kube_config : new.nrt_updater.kube_config ≡ old.nrt_updater.kube_config
    pub version : new.version ≡ old.version
    pub dump_config : new.dump_config ≡ old.dump_config

  -- The arguments with the two that are treated apart.
  abbrev pub finished : Option ContainerIdent → Int64 → ProgArgs → ProgArgs
  finished ci n args = record args {
    rte = record args.rte { reference_container = ci; max_events_per_time_unit = n };
  }

  pub finished-IsDispatched :
      (ci : Option ContainerIdent) (n : Int64) (args : ProgArgs)
      → IsDispatched args (finished ci n (assign_all to_int obj bindings args))
  finished-IsDispatched ci n args = record {
    global_debug = refl;
    global_verbose = refl;
    global_kube_config = refl;
    nrt_updater_no_publish = refl;
    nrt_updater_oneshot = refl;
    nrt_updater_hostname = refl;
    nrt_updater_patch_mode = refl;
    nrt_updater_patch_resync = refl;
    resourcemonitor_namespace = refl;
    resourcemonitor_sysfs_root = refl;
    resourcemonitor_refresh_node_resources = refl;
    resourcemonitor_pod_set_fingerprint = refl;
    resourcemonitor_pod_set_fingerprint_method = refl;
    resourcemonitor_expose_timing = refl;
    resourcemonitor_pod_set_fingerprint_status_file = refl;
    resourcemonitor_exclude_terminal_pods = refl;
    rte_pod_resources_socket_path = refl;
    rte_sleep_interval = refl;
    rte_pod_readiness_enable = refl;
    rte_notify_file_path = refl;
    rte_time_unit_to_limit_events = refl;
    rte_add_nrt_owner_enable = refl;
    rte_metrics_mode = refl;
    rte_metrics_port = refl;
    rte_metrics_address = refl;
    rte_metrics_tls_cfg_certs_dir = refl;
    rte_metrics_tls_cfg_cert_file = refl;
    rte_metrics_tls_cfg_key_file = refl;
    rte_metrics_tls_cfg_want_cli_auth = refl;
    rte_metrics_tls_cfg_min_tls_version = refl;
    rte_metrics_tls_cfg_cipher_suites = refl;
  }

  pub finished-IsElsewhere :
      (ci : Option ContainerIdent) (n : Int64) (args : ProgArgs)
      → IsElsewhere args (finished ci n (assign_all to_int obj bindings args))
  finished-IsElsewhere ci n args = record {
    policy = refl;
    scope = refl;
    kubelet = refl;
    resource_exclude = refl;
    pod_exclude = refl;
    kube_config = refl;
    version = refl;
    dump_config = refl;
  }
