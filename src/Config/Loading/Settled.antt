-- ===== src/Config/Loading/Settled.antt =====
-- LoadArgs of pkg/config: what its last steps make of the arguments after the files.
use resource_topology_export.Base.{
  ◌≡◌, refl, ap, sym, ◌∙◌, false, Option, none, some, List, [], ◌∷◌, text_eq,
}
use resource_topology_export.Base.Strings.{codes, to_lower}
use resource_topology_export.Middleware.SharedPool.Ident.{ContainerIdent, ident}
use resource_topology_export.Config.{
  ProgArgs, or_text, or_list, set_defaults, from_env, setup_args_from_config,
}
use resource_topology_export.Config.Flags.{or_default, flagged, container_text}
use resource_topology_export.Config.Dispatch.Laws.{given_bool}
use resource_topology_export.Config.Loading.{
  Surroundings, clone_args, finalize, prepared, default_args, first_flags, named,
}
use resource_topology_export.Config.Loading.Layers.{IsFiled}
use resource_topology_export.Config.Loading.Layered.{Replaced, IsLayered, or_port}
use resource_topology_export.Config.Loading.Flagged.{with_container, from_flags-IsFlagged}

-- The arguments that Validate accepts, with the two texts in lower case.
abbrev pub checked : ProgArgs → ProgArgs
checked args = record args {
  rte = record args.rte { metrics_mode = to_lower args.rte.metrics_mode };
  resourcemonitor = record args.resourcemonitor {
    pod_set_fingerprint_method = to_lower args.resourcemonitor.pod_set_fingerprint_method;
  };
}

or_default_twice :
    {A : Type 0} (o : Option A) (g : A → A) (default : A)
    → or_default o (g (or_default o default)) ≡ or_default o (g default)
or_default_twice none g default = refl
or_default_twice (some v) g default = refl

or_list-nil : {A : Type 0} (l : List A) → or_list l [] ≡ l
or_list-nil [] = refl
or_list-nil (x ∷ l) = refl

module _ {E F : Type 0} (s : Surroundings E F) where
  open s use {command_line, files, env}

  first_debug :
      (first_flags s).args.global.debug ≡ or_default (command_line.bool_flag (codes "debug")) false
  unfolding flagged clone_args set_defaults
  first_debug = ap (λ a. a.global.debug) (from_flags-IsFlagged E files.join command_line _).1

  first_dump_config :
      (first_flags s).args.dump_config
      ≡ or_default (command_line.text_flag (codes "dump-config")) []
  unfolding flagged clone_args set_defaults
  first_dump_config = ap (λ a. a.dump_config) (from_flags-IsFlagged E files.join command_line _).1

  -- The arguments that the last steps make of those after the files.
  abbrev pub settled : Option ContainerIdent → ProgArgs → ProgArgs
  settled ci filed =
      (finalize {E = E} s.hostname s.flags
        (checked (with_container ci (flagged command_line (from_env env filed))))).0.args

  abbrev pub Filed : ProgArgs → Type 0
  Filed filed =
      IsFiled files (first_flags s).root (first_flags s).extra_path
        (prepared s (first_flags s).args (default_args s)) filed

  pub settled-IsLayered :
      (ci : Option ContainerIdent) (filed : ProgArgs) (f : Filed filed)
      → Replaced
          (container_text command_line (from_env env filed))
          (from_env env filed).rte.reference_container
          ci
      → IsLayered s f.obj f.extra (settled ci filed)
  unfolding finalize flagged from_env setup_args_from_config prepared set_defaults
  settled-IsLayered ci filed f r = record {
    reference_container = record {
      filed = filed.rte.reference_container;
      is_filed =
          f.is_given.container ∙ ap ident (sym (ap (λ a. a.rte.reference_container) f.is_new));
      is_read = r;
    };
    global_kube_config =
        ap (or_default (command_line.text_flag (codes "kubeconfig")))
          (ap (λ a. a.global.kube_config) f.is_new ∙ f.is_given.bound.global_kube_config);
    global_verbose = ap (λ a. a.global.verbose) f.is_new ∙ f.is_given.bound.global_verbose;
    no_publish =
        ap (or_default (command_line.bool_flag (codes "no-publish")))
          (ap (λ a. a.nrt_updater.no_publish) f.is_new ∙ f.is_given.bound.nrt_updater_no_publish);
    oneshot =
        ap (or_default (command_line.bool_flag (codes "oneshot")))
          (ap (λ a. a.nrt_updater.oneshot) f.is_new ∙ f.is_given.bound.nrt_updater_oneshot);
    patch_mode =
        ap (or_default (command_line.bool_flag (codes "patch-mode")))
          (ap (λ a. a.nrt_updater.patch_mode) f.is_new ∙ f.is_given.bound.nrt_updater_patch_mode);
    patch_resync =
        ap (or_default (command_line.int_flag (codes "patch-resync"))) (
          ap (λ a. a.nrt_updater.patch_resync) f.is_new
          ∙ f.is_given.bound.nrt_updater_patch_resync);
    namespace = ap (or_default (command_line.text_flag (codes "watch-namespace"))) (
        ap (λ a. a.resourcemonitor.namespace) f.is_new
        ∙ f.is_given.bound.resourcemonitor_namespace);
    sysfs_root = ap (or_default (command_line.text_flag (codes "sysfs"))) (
        ap (λ a. a.resourcemonitor.sysfs_root) f.is_new
        ∙ f.is_given.bound.resourcemonitor_sysfs_root);
    refresh_node_resources =
        ap (or_default (command_line.bool_flag (codes "refresh-node-resources"))) (
          ap (λ a. a.resourcemonitor.refresh_node_resources) f.is_new
          ∙ f.is_given.bound.resourcemonitor_refresh_node_resources);
    pod_set_fingerprint = ap (or_default (command_line.bool_flag (codes "pods-fingerprint"))) (
        ap (λ a. a.resourcemonitor.pod_set_fingerprint) f.is_new
        ∙ f.is_given.bound.resourcemonitor_pod_set_fingerprint);
    expose_timing = ap (or_default (command_line.bool_flag (codes "expose-timing"))) (
        ap (λ a. a.resourcemonitor.expose_timing) f.is_new
        ∙ f.is_given.bound.resourcemonitor_expose_timing);
    exclude_terminal_pods =
        ap (or_default (command_line.bool_flag (codes "exclude-terminal-pods"))) (
          ap (λ a. a.resourcemonitor.exclude_terminal_pods) f.is_new
          ∙ f.is_given.bound.resourcemonitor_exclude_terminal_pods);
    pod_resources_socket_path =
        ap (or_default (command_line.text_flag (codes "podresources-socket"))) (
          ap (λ a. a.rte.pod_resources_socket_path) f.is_new
          ∙ f.is_given.bound.rte_pod_resources_socket_path);
    sleep_interval =
        ap (or_default (command_line.int_flag (codes "sleep-interval")))
          (ap (λ a. a.rte.sleep_interval) f.is_new ∙ f.is_given.bound.rte_sleep_interval);
    pod_readiness_enable =
        ap (or_default (command_line.bool_flag (codes "podreadiness"))) (
          ap (λ a. a.rte.pod_readiness_enable) f.is_new
          ∙ f.is_given.bound.rte_pod_readiness_enable);
    notify_file_path =
        ap (or_default (command_line.text_flag (codes "notify-file")))
          (ap (λ a. a.rte.notify_file_path) f.is_new ∙ f.is_given.bound.rte_notify_file_path);
    time_unit_to_limit_events =
        ap (λ a. a.rte.time_unit_to_limit_events) f.is_new
        ∙ f.is_given.bound.rte_time_unit_to_limit_events;
    add_nrt_owner_enable =
        ap (or_default (command_line.bool_flag (codes "add-nrt-owner"))) (
          ap (λ a. a.rte.add_nrt_owner_enable) f.is_new
          ∙ f.is_given.bound.rte_add_nrt_owner_enable);
    tls_certs_dir = ap (or_default (command_line.text_flag (codes "metrics-certs-dir"))) (
        ap (λ a. a.rte.metrics_tls_cfg.certs_dir) f.is_new
        ∙ f.is_given.bound.rte_metrics_tls_cfg_certs_dir);
    tls_cert_file = ap (or_default (command_line.text_flag (codes "metrics-cert-file"))) (
        ap (λ a. a.rte.metrics_tls_cfg.cert_file) f.is_new
        ∙ f.is_given.bound.rte_metrics_tls_cfg_cert_file);
    tls_key_file = ap (or_default (command_line.text_flag (codes "metrics-key-file"))) (
        ap (λ a. a.rte.metrics_tls_cfg.key_file) f.is_new
        ∙ f.is_given.bound.rte_metrics_tls_cfg_key_file);
    tls_want_cli_auth = ap (or_default (command_line.bool_flag (codes "metrics-want-cli-auth"))) (
        ap (λ a. a.rte.metrics_tls_cfg.want_cli_auth) f.is_new
        ∙ f.is_given.bound.rte_metrics_tls_cfg_want_cli_auth);
    tls_min_tls_version =
        ap (or_default (command_line.text_flag (codes "metrics-tls-min-version"))) (
          ap (λ a. a.rte.metrics_tls_cfg.min_tls_version) f.is_new
          ∙ f.is_given.bound.rte_metrics_tls_cfg_min_tls_version);
    tls_cipher_suites =
        ap (or_default (command_line.text_flag (codes "metrics-tls-cipher-suites"))) (
          ap (λ a. a.rte.metrics_tls_cfg.cipher_suites) f.is_new
          ∙ f.is_given.bound.rte_metrics_tls_cfg_cipher_suites);
    global_debug =
        ap (or_default (command_line.bool_flag (codes "debug"))) (
          ap (λ a. a.global.debug) f.is_new
          ∙ f.is_given.bound.global_debug
          ∙ ap (given_bool files.to_int f.obj (codes "global.debug")) first_debug)
        ∙ or_default_twice (command_line.bool_flag (codes "debug"))
            (given_bool files.to_int f.obj (codes "global.debug")) false;
    dump_config =
        ap (or_default (command_line.text_flag (codes "dump-config")))
          (ap (λ a. a.dump_config) f.is_new ∙ f.is_given.others.dump_config ∙ first_dump_config)
        ∙ or_default_twice (command_line.text_flag (codes "dump-config")) (λ t. t) [];
    kube_config = ap (λ a. a.nrt_updater.kube_config) f.is_new ∙ f.is_given.others.kube_config;
    hostname =
        ap
          (λ h.
            named s.hostname
              (or_default (command_line.text_flag (codes "hostname")) (or_text h env.hostname)))
          (ap (λ a. a.nrt_updater.hostname) f.is_new ∙ f.is_given.bound.nrt_updater_hostname);
    resource_exclude =
        ap (λ a. a.resourcemonitor.resource_exclude) f.is_new
        ∙ ap (or_list f.extra.resource_exclude) f.is_given.others.resource_exclude
        ∙ or_list-nil f.extra.resource_exclude;
    pod_exclude =
        ap (λ a. a.resourcemonitor.pod_exclude) f.is_new
        ∙ ap (or_list f.extra.pod_exclude) f.is_given.others.pod_exclude
        ∙ or_list-nil f.extra.pod_exclude;
    pod_set_fingerprint_method =
        ap (λ m. to_lower (or_default (command_line.text_flag (codes "pods-fingerprint-method")) m))
          (ap (λ a. a.resourcemonitor.pod_set_fingerprint_method) f.is_new
            ∙ f.is_given.bound.resourcemonitor_pod_set_fingerprint_method);
    pod_set_fingerprint_status_file =
        ap
          (λ t.
            or_default (command_line.text_flag (codes "pods-fingerprint-status-file"))
              (or_text t env.pod_set_fingerprint_status_file))
          (ap (λ a. a.resourcemonitor.pod_set_fingerprint_status_file) f.is_new
            ∙ f.is_given.bound.resourcemonitor_pod_set_fingerprint_status_file);
    topology_manager_policy =
        ap
          (λ p.
            or_default (command_line.text_flag (codes "topology-manager-policy"))
              (or_text p env.topology_manager_policy))
          (ap (λ a. a.rte.topology_manager_policy) f.is_new
            ∙ ap (λ p. or_text p f.extra.topology_manager_policy) f.is_given.others.policy);
    topology_manager_scope =
        ap
          (λ p.
            or_default (command_line.text_flag (codes "topology-manager-scope"))
              (or_text p env.topology_manager_scope))
          (ap (λ a. a.rte.topology_manager_scope) f.is_new
            ∙ ap (λ p. or_text p f.extra.topology_manager_scope) f.is_given.others.scope);
    kubelet_config_file =
        ap (or_default (command_line.text_flag (codes "kubelet-config-file")))
          (ap (λ a. a.rte.kubelet_config_file) f.is_new ∙ f.is_given.others.kubelet);
    max_events_per_time_unit =
        ap (or_default (command_line.int_flag (codes "max-events-per-second")))
          (ap (λ a. a.rte.max_events_per_time_unit) f.is_new ∙ f.is_given.limit);
    metrics_mode =
        ap (λ m. to_lower (or_default (command_line.text_flag (codes "metrics-mode")) m))
          (ap (λ a. a.rte.metrics_mode) f.is_new ∙ f.is_given.bound.rte_metrics_mode);
    metrics_port =
        ap
          (λ p.
            or_default (command_line.int_flag (codes "metrics-port")) (or_port p env.metrics_port))
          (ap (λ a. a.rte.metrics_port) f.is_new ∙ f.is_given.bound.rte_metrics_port);
    metrics_address =
        ap
          (λ a.
            or_default (command_line.text_flag (codes "metrics-ip"))
              (or_text a env.metrics_address))
          (ap (λ a. a.rte.metrics_address) f.is_new ∙ f.is_given.bound.rte_metrics_address);
  }
