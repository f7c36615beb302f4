-- ===== src/Config/Loading/Layers.antt =====
-- LoadArgs of pkg/config: which of the flags, the environment, the files and the defaults an argument
-- comes from.
use resource_topology_export.Base.{
  ◌≡◌, refl, sym, ap, Bool, true, false, none, [], ◌∷◌, Text, Result, ok, failed, text_eq,
}
use mathlib.Core.Path.{subst}
use resource_topology_export.Base.Int.{Int64}
use resource_topology_export.Base.Dict.{get}
use resource_topology_export.Config.{ProgArgs, ExtraConfig, setup_args_from_config}
use resource_topology_export.Config.Files.{
  ConfigFiles, ConfigError, from_files, from_daemon_files, from_extra_file, read_extra_config,
  extra_applied, after_daemon_files, merged, is_missing, dispatched, pardoned, daemon_applied,
}
use resource_topology_export.Config.Dispatch.{ConfigMap}
use resource_topology_export.Config.Dispatch.Bindings.{dispatch_conf_obj}
use resource_topology_export.Base.Strings.{codes}
use resource_topology_export.Middleware.SharedPool.Ident.{ident, from_string}
use resource_topology_export.Config.Dispatch.Laws.{given_text}
use resource_topology_export.Config.Dispatch.Fields.{IsDispatched, IsElsewhere}
use resource_topology_export.Config.Dispatch.Success.{given_limit, dispatch_conf_obj-Dispatched}

-- What the configuration files make of the arguments.
pub record IsGiven {F : Type 0} (to_int : F → Int64) (obj : ConfigMap F) (old new : ProgArgs)
    : Type 0 where
  pub bound : IsDispatched to_int obj old new
  pub others : IsElsewhere to_int obj old new
  pub container :
      from_string (given_text to_int obj (codes "topologyExporter.referenceContainer") [])
      ≡ ident new.rte.reference_container
  pub limit :
      new.rte.max_events_per_time_unit ≡ given_limit to_int obj old.rte.max_events_per_time_unit

IsGiven-none :
    {F : Type 0} (to_int : F → Int64) (args : ProgArgs)
    → args.rte.reference_container ≡ none
    → IsGiven to_int [] args args
unfolding get from_string
IsGiven-none to_int args h = record {
  container = ap ident (sym h);
  bound = record {
    global_debug = refl;
    global_verbose = refl;
    global_kube_config = refl;
    nrt_updater_no_publish = refl;
    nrt_updater_oneshot = refl;
    nrt_updater_hostname = refl;
    nrt_updater_patch_mode = refl;
    nrt_updater_patch_resync = refl;
    resourcemonitor_namespace = refl;
    resourcemonitor_sysfs_root = refl;
    resourcemonitor_refresh_node_resources = refl;
    resourcemonitor_pod_set_fingerprint = refl;
    resourcemonitor_pod_set_fingerprint_method = refl;
    resourcemonitor_expose_timing = refl;
    resourcemonitor_pod_set_fingerprint_status_file = refl;
    resourcemonitor_exclude_terminal_pods = refl;
    rte_pod_resources_socket_path = refl;
    rte_sleep_interval = refl;
    rte_pod_readiness_enable = refl;
    rte_notify_file_path = refl;
    rte_time_unit_to_limit_events = refl;
    rte_add_nrt_owner_enable = refl;
    rte_metrics_mode = refl;
    rte_metrics_port = refl;
    rte_metrics_address = refl;
    rte_metrics_tls_cfg_certs_dir = refl;
    rte_metrics_tls_cfg_cert_file = refl;
    rte_metrics_tls_cfg_key_file = refl;
    rte_metrics_tls_cfg_want_cli_auth = refl;
    rte_metrics_tls_cfg_min_tls_version = refl;
    rte_metrics_tls_cfg_cipher_suites = refl;
  };
  others = record {
    policy = refl;
    scope = refl;
    kubelet = refl;
    resource_exclude = refl;
    pod_exclude = refl;
    kube_config = refl;
    version = refl;
    dump_config = refl;
  };
  limit = refl;
}

IsGiven-dispatched :
    {F : Type 0} (to_int : F → Int64) (obj : ConfigMap F) (args : ProgArgs)
    → (dispatch_conf_obj to_int obj args).0 ≡ true
    → IsGiven to_int obj args (dispatch_conf_obj to_int obj args).1
IsGiven-dispatched to_int obj args h =
    let (d, e, s) = dispatch_conf_obj-Dispatched to_int obj args h in
    record { bound = d; others = e; container = s.container; limit = s.limit }

module _ {E F : Type 0} (fs : ConfigFiles E F) where
  -- The merged configuration of a directory; it is empty where the main file is missing.
  pub data IsMerged (root : Text) : ConfigMap F → Type 0 where
    from_documents : {obj : ConfigMap F} → merged fs root ≡ ok obj → IsMerged root obj
    nothing_there :
        (e : ConfigError E) → merged fs root ≡ failed e → is_missing fs e ≡ true → IsMerged root []

  -- What FromFiles made of the arguments.
  pub record IsFiled (root extra_path : Text) (old new : ProgArgs) : Type 0 where
    pub obj : ConfigMap F
    pub extra : ExtraConfig
    pub daemon : ProgArgs
    pub is_merged : IsMerged root obj
    pub is_extra : read_extra_config fs extra_path ≡ ok extra
    pub is_given : IsGiven fs.to_int obj old daemon
    pub is_new : new ≡ setup_args_from_config extra daemon

  IsFiled-read :
      (root path : Text) (old daemon new : ProgArgs) (obj : ConfigMap F)
      (r : Result (ConfigError E) ExtraConfig)
      → IsMerged root obj
      → IsGiven fs.to_int obj old daemon
      → read_extra_config fs path ≡ r
      → extra_applied fs daemon r ≡ (none, new)
      → IsFiled root path old new
  IsFiled-read root path old daemon new obj (failed e) m g p h = absurd (cc h)
  IsFiled-read root path old daemon new obj (ok extra) m g p h = record {
    obj = obj;
    extra = extra;
    daemon = daemon;
    is_merged = m;
    is_extra = p;
    is_given = g;
    is_new = sym (ap (λ t. t.1) h);
  }

  IsFiled-extra :
      (root path : Text) (old daemon new : ProgArgs) (obj : ConfigMap F)
      → IsMerged root obj
      → IsGiven fs.to_int obj old daemon
      → from_extra_file fs path daemon ≡ (none, new)
      → IsFiled root path old new
  unfolding from_extra_file
  IsFiled-extra root path old daemon new obj m g h =
      IsFiled-read root path old daemon new obj (read_extra_config fs path) m g refl h

  IsFiled-dispatched :
      (root path : Text) (old new : ProgArgs) (obj : ConfigMap F) (r : Bool × ProgArgs)
      → merged fs root ≡ ok obj
      → dispatch_conf_obj fs.to_int obj old ≡ r
      → after_daemon_files fs path (dispatched fs r) ≡ (none, new)
      → IsFiled root path old new
  unfolding after_daemon_files is_missing pardoned
  IsFiled-dispatched root path old new obj (true, args) m d h =
      IsFiled-extra root path old args new obj (from_documents m)
        (subst (λ t. IsGiven fs.to_int obj old t.1) d
          (IsGiven-dispatched fs.to_int obj old (ap (λ t. t.0) d)))
        h
  IsFiled-dispatched root path old new obj (false, args) m d h = absurd (cc h)

  IsFiled-pardoned :
      (root path : Text) (old new : ProgArgs) (e : ConfigError E) (b : Bool)
      → merged fs root ≡ failed e
      → is_missing fs e ≡ b
      → pardoned fs b path e old ≡ (none, new)
      → old.rte.reference_container ≡ none
      → IsFiled root path old new
  unfolding pardoned
  IsFiled-pardoned root path old new e true p m h r =
      IsFiled-extra root path old old new [] (nothing_there e p m) (IsGiven-none fs.to_int old r) h
  IsFiled-pardoned root path old new e false p m h r = absurd (cc h)

  IsFiled-daemon :
      (root path : Text) (old new : ProgArgs) (r : Result (ConfigError E) (ConfigMap F))
      → merged fs root ≡ r
      → after_daemon_files fs path (daemon_applied fs old r) ≡ (none, new)
      → old.rte.reference_container ≡ none
      → IsFiled root path old new
  IsFiled-daemon root path old new (failed e) p h r =
      IsFiled-pardoned root path old new e (is_missing fs e) p refl (unfold after_daemon_files in h)
        r
  IsFiled-daemon root path old new (ok obj) p h r =
      IsFiled-dispatched root path old new obj (dispatch_conf_obj fs.to_int obj old) p refl h

  after_daemon_files-IsFiled :
      (root path : Text) (old new : ProgArgs)
      → after_daemon_files fs path (from_daemon_files fs root old) ≡ (none, new)
      → old.rte.reference_container ≡ none
      → IsFiled root path old new
  unfolding from_daemon_files
  after_daemon_files-IsFiled root path old new h r =
      IsFiled-daemon root path old new (merged fs root) refl h r

  pub from_files-IsFiled :
      (root path : Text) (old new : ProgArgs)
      → from_files fs root path old ≡ (none, new)
      → old.rte.reference_container ≡ none
      → IsFiled root path old new
  unfolding from_files
  from_files-IsFiled [] path old new h r = cc h
  from_files-IsFiled (c ∷ root) [] old new h r = cc h
  from_files-IsFiled (c ∷ root) (d ∷ path) old new h r =
      after_daemon_files-IsFiled (c ∷ root) (d ∷ path) old new h r
