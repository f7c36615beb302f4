-- ===== src/Config/Dispatch/Bindings.antt =====
-- The bindings of dispatchConfObj in pkg/config/cfgdispatch.go, and the whole of it.
use resource_topology_export.Base.{Bool, List, [], ◌∷◌}
use resource_topology_export.Base.Int.{Int64}
use resource_topology_export.Base.Strings.{codes}
use resource_topology_export.Config.{ProgArgs}
use resource_topology_export.Config.Dispatch.{
  ConfigMap, Binding, text_var, int_var, bool_var, duration_var, apply_bindings, after_bindings,
}

abbrev pub bindings : List Binding
bindings =
    record {
      key = codes "global.debug";
      out =
          bool_var (λ a. a.global.debug)
            (λ v a. record a { global = record a.global { debug = v } });
    }
    ∷ record {
      key = codes "global.verbose";
      out =
          int_var (λ a. a.global.verbose)
            (λ v a. record a { global = record a.global { verbose = v } });
    }
    ∷ record {
      key = codes "global.kubeconfig";
      out =
          text_var (λ a. a.global.kube_config)
            (λ v a. record a { global = record a.global { kube_config = v } });
    }
    ∷ record {
      key = codes "nrtUpdater.noPublish";
      out =
          bool_var (λ a. a.nrt_updater.no_publish)
            (λ v a. record a { nrt_updater = record a.nrt_updater { no_publish = v } });
    }
    ∷ record {
      key = codes "nrtUpdater.oneShot";
      out =
          bool_var (λ a. a.nrt_updater.oneshot)
            (λ v a. record a { nrt_updater = record a.nrt_updater { oneshot = v } });
    }
    ∷ record {
      key = codes "nrtUpdater.hostname";
      out =
          text_var (λ a. a.nrt_updater.hostname)
            (λ v a. record a { nrt_updater = record a.nrt_updater { hostname = v } });
    }
    ∷ record {
      key = codes "nrtUpdater.patchMode";
      out =
          bool_var (λ a. a.nrt_updater.patch_mode)
            (λ v a. record a { nrt_updater = record a.nrt_updater { patch_mode = v } });
    }
    ∷ record {
      key = codes "nrtUpdater.patchResync";
      out =
          int_var (λ a. a.nrt_updater.patch_resync)
            (λ v a. record a { nrt_updater = record a.nrt_updater { patch_resync = v } });
    }
    ∷ record {
      key = codes "resourceMonitor.namespace";
      out =
          text_var (λ a. a.resourcemonitor.namespace)
            (λ v a. record a { resourcemonitor = record a.resourcemonitor { namespace = v } });
    }
    ∷ record {
      key = codes "resourceMonitor.sysfsRoot";
      out =
          text_var (λ a. a.resourcemonitor.sysfs_root)
            (λ v a. record a { resourcemonitor = record a.resourcemonitor { sysfs_root = v } });
    }
    ∷ record {
      key = codes "resourceMonitor.refreshNodeResources";
      out =
          bool_var (λ a. a.resourcemonitor.refresh_node_resources)
            (λ v a. record a {
              resourcemonitor = record a.resourcemonitor { refresh_node_resources = v };
            });
    }
    ∷ record {
      key = codes "resourceMonitor.podSetFingerprint";
      out =
          bool_var (λ a. a.resourcemonitor.pod_set_fingerprint)
            (λ v a. record a {
              resourcemonitor = record a.resourcemonitor { pod_set_fingerprint = v };
            });
    }
    ∷ record {
      key = codes "resourceMonitor.podSetFingerprintMethod";
      out =
          text_var (λ a. a.resourcemonitor.pod_set_fingerprint_method)
            (λ v a. record a {
              resourcemonitor = record a.resourcemonitor { pod_set_fingerprint_method = v };
            });
    }
    ∷ record {
      key = codes "resourceMonitor.exposeTiming";
      out =
          bool_var (λ a. a.resourcemonitor.expose_timing)
            (λ v a. record a { resourcemonitor = record a.resourcemonitor { expose_timing = v } });
    }
    ∷ record {
      key = codes "resourceMonitor.podSetFingerprintStatusFile";
      out =
          text_var (λ a. a.resourcemonitor.pod_set_fingerprint_status_file)
            (λ v a. record a {
              resourcemonitor = record a.resourcemonitor { pod_set_fingerprint_status_file = v };
            });
    }
    ∷ record {
      key = codes "resourceMonitor.excludeTerminalPods";
      out =
          bool_var (λ a. a.resourcemonitor.exclude_terminal_pods)
            (λ v a. record a {
              resourcemonitor = record a.resourcemonitor { exclude_terminal_pods = v };
            });
    }
    ∷ record {
      key = codes "topologyExporter.podResourcesSocketPath";
      out =
          text_var (λ a. a.rte.pod_resources_socket_path)
            (λ v a. record a { rte = record a.rte { pod_resources_socket_path = v } });
    }
    ∷ record {
      key = codes "topologyExporter.sleepInterval";
      out =
          duration_var (λ a. a.rte.sleep_interval)
            (λ v a. record a { rte = record a.rte { sleep_interval = v } });
    }
    ∷ record {
      key = codes "topologyExporter.podReadinessEnable";
      out =
          bool_var (λ a. a.rte.pod_readiness_enable)
            (λ v a. record a { rte = record a.rte { pod_readiness_enable = v } });
    }
    ∷ record {
      key = codes "topologyExporter.notifyFilePath";
      out =
          text_var (λ a. a.rte.notify_file_path)
            (λ v a. record a { rte = record a.rte { notify_file_path = v } });
    }
    ∷ record {
      key = codes "topologyExporter.timeUnitToLimitEvents";
      out =
          duration_var (λ a. a.rte.time_unit_to_limit_events)
            (λ v a. record a { rte = record a.rte { time_unit_to_limit_events = v } });
    }
    ∷ record {
      key = codes "topologyExporter.addNRTOwnerEnable";
      out =
          bool_var (λ a. a.rte.add_nrt_owner_enable)
            (λ v a. record a { rte = record a.rte { add_nrt_owner_enable = v } });
    }
    ∷ record {
      key = codes "topologyExporter.metricsMode";
      out =
          text_var (λ a. a.rte.metrics_mode)
            (λ v a. record a { rte = record a.rte { metrics_mode = v } });
    }
    ∷ record {
      key = codes "topologyExporter.metricsPort";
      out =
          int_var (λ a. a.rte.metrics_port)
            (λ v a. record a { rte = record a.rte { metrics_port = v } });
    }
    ∷ record {
      key = codes "topologyExporter.MetricsAddress";
      out =
          text_var (λ a. a.rte.metrics_address)
            (λ v a. record a { rte = record a.rte { metrics_address = v } });
    }
    ∷ record {
      key = codes "topologyExporter.metricsTLS.certsDir";
      out =
          text_var (λ a. a.rte.metrics_tls_cfg.certs_dir)
            (λ v a. record a {
              rte = record a.rte {
                metrics_tls_cfg = record a.rte.metrics_tls_cfg { certs_dir = v };
              };
            });
    }
    ∷ record {
      key = codes "topologyExporter.metricsTLS.certFile";
      out =
          text_var (λ a. a.rte.metrics_tls_cfg.cert_file)
            (λ v a. record a {
              rte = record a.rte {
                metrics_tls_cfg = record a.rte.metrics_tls_cfg { cert_file = v };
              };
            });
    }
    ∷ record {
      key = codes "topologyExporter.metricsTLS.keyFile";
      out =
          text_var (λ a. a.rte.metrics_tls_cfg.key_file)
            (λ v a. record a {
              rte = record a.rte {
                metrics_tls_cfg = record a.rte.metrics_tls_cfg { key_file = v };
              };
            });
    }
    ∷ record {
      key = codes "topologyExporter.metricsTLS.wantCliAuth";
      out =
          bool_var (λ a. a.rte.metrics_tls_cfg.want_cli_auth)
            (λ v a. record a {
              rte = record a.rte {
                metrics_tls_cfg = record a.rte.metrics_tls_cfg { want_cli_auth = v };
              };
            });
    }
    ∷ record {
      key = codes "topologyExporter.metricsTLS.minTLSVersion";
      out =
          text_var (λ a. a.rte.metrics_tls_cfg.min_tls_version)
            (λ v a. record a {
              rte = record a.rte {
                metrics_tls_cfg = record a.rte.metrics_tls_cfg { min_tls_version = v };
              };
            });
    }
    ∷ record {
      key = codes "topologyExporter.metricsTLS.cipherSuites";
      out =
          text_var (λ a. a.rte.metrics_tls_cfg.cipher_suites)
            (λ v a. record a {
              rte = record a.rte {
                metrics_tls_cfg = record a.rte.metrics_tls_cfg { cipher_suites = v };
              };
            });
    }
    ∷ []

module _ {F : Type 0} (to_int : F → Int64) where
  -- dispatchConfObj: whether it succeeds, and the arguments as far as it came.
  unfoldable pub dispatch_conf_obj : ConfigMap F → ProgArgs → Bool × ProgArgs
  dispatch_conf_obj obj args = after_bindings to_int obj (apply_bindings to_int obj bindings args)
