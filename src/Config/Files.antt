-- ===== src/Config/Files.antt =====
-- FromFiles of pkg/config/cfgfile.go: the main configuration file, the configlets beside it, and the
-- extra file. The YAML decoder, flatten.Flatten and the file system are given.
pub mod Merged
pub mod Configlets
use resource_topology_export.Base.{
  ◌≡◌, Bool, true, false, Option, none, some, List, [], ◌∷◌, Text, Result, ok, failed,
  if◌then◌else◌,
}
use resource_topology_export.Base.Int.{Int64}
use resource_topology_export.Base.Strings.{codes}
use resource_topology_export.Config.{ProgArgs, ExtraConfig, setup_args_from_config}
use resource_topology_export.Config.Paths.{
  UserDir, Resolved, Access, reads, refused, access_failed, read_configlet,
}
use resource_topology_export.Config.Dispatch.{ConfigMap, merge_conf_obj}
use resource_topology_export.Config.Dispatch.Bindings.{dispatch_conf_obj}

-- os.DirEntry of a configlet
pub record Configlet : Type 0 where
  pub name : Text
  pub is_regular : Bool

-- What the code asks of the operating system, of path/filepath and of the decoders.
pub record ConfigFiles (E F : Type 0) : Type 0 where
  pub clean : Text → Text
  pub links : Text → Resolved E
  pub join : List Text → Text
  pub user_dirs : List (UserDir E)
  pub read_file : Text → Result E Text
  pub read_dir : Text → Result E (List Configlet)
  pub is_not_exist : E → Bool
  pub flat : Text → Result E (ConfigMap F)
  pub extra : Text → Result E ExtraConfig
  pub to_int : F → Int64

pub data ConfigError (E : Type 0) : Type 0 where
  os_error : E → ConfigError E
  not_allowed : Text → ConfigError E
  bad_document : E → ConfigError E
  not_dispatched : ConfigError E
  empty_root : ConfigError E
  empty_extra_path : ConfigError E
  no_exclude_list : ConfigError E → ConfigError E

module _ {E F : Type 0} (fs : ConfigFiles E F) where
  open fs use {
    clean, links, join, user_dirs, read_file, read_dir, is_not_exist, flat, extra, to_int,
  }

  abbrev from_os : {A : Type 0} → Result E A → Result (ConfigError E) A
  from_os (ok a) = ok a
  from_os (failed e) = failed (os_error e)

  abbrev from_access :
      {A : Type 0} → Text → (Text → Result E A) → Access E → Result (ConfigError E) A
  from_access path read (reads p) = from_os (read p)
  from_access path read refused = failed (not_allowed path)
  from_access path read (access_failed e) = failed (os_error e)

  -- ReadConfiglet and ReadConfigletDir
  unfoldable pub configlet_data : Text → Result (ConfigError E) Text
  configlet_data path = from_access path read_file (read_configlet clean links user_dirs path)

  unfoldable pub configlets_in : Text → Result (ConfigError E) (List Configlet)
  configlets_in path = from_access path read_dir (read_configlet clean links user_dirs path)

  -- errors.Is(err, os.ErrNotExist)
  unfoldable pub is_missing : ConfigError E → Bool
  is_missing (os_error e) = is_not_exist e
  is_missing _ = false

  unfoldable pub document : Text → Result (ConfigError E) (ConfigMap F)
  unfolding configlet_data
  document path = elim (configlet_data path) [
    | failed e ↦ failed e
    | ok data' ↦ elim (flat data') [ failed e ↦ failed (bad_document e) | ok upd ↦ ok upd ]
  ]

  -- loadConfiglet
  unfoldable pub load_configlet : ConfigMap F → Text → Result (ConfigError E) (ConfigMap F)
  unfolding document
  load_configlet obj path = elim (document path) [
    | failed e ↦ failed e
    | ok upd ↦ ok (merge_conf_obj obj upd)
  ]

  -- The loop of fromDaemonFiles over the configlets.
  unfoldable pub load_configlets :
      Text → List Configlet → ConfigMap F → Result (ConfigError E) (ConfigMap F)
  unfolding load_configlet
  load_configlets dir [] obj = ok obj
  load_configlets dir (configlet ∷ configlets) obj = elim configlet.is_regular [
    | false ↦ load_configlets dir configlets obj
    | true ↦ elim (load_configlet obj (join (dir ∷ configlet.name ∷ []))) [
      | failed e ↦ failed e
      | ok obj' ↦ load_configlets dir configlets obj'
    ]
  ]

  abbrev pub main_path : Text → Text
  main_path root = join (root ∷ codes "daemon" ∷ codes "config.yaml" ∷ [])

  abbrev pub configlet_dir : Text → Text
  configlet_dir root = join (root ∷ codes "daemon" ∷ codes "config.yaml.d" ∷ [])

  -- The directory of the configlets may be missing.
  unfoldable pub with_configlets : Text → ConfigMap F → Result (ConfigError E) (ConfigMap F)
  unfolding load_configlets configlets_in
  with_configlets root obj = elim (configlets_in (configlet_dir root)) [
    | failed e ↦ ok obj
    | ok configlets ↦ load_configlets (configlet_dir root) configlets obj
  ]

  -- The merged configuration of fromDaemonFiles.
  unfoldable pub merged : Text → Result (ConfigError E) (ConfigMap F)
  unfolding with_configlets
  merged root = elim (load_configlet [] (main_path root)) [
    | failed e ↦ failed e
    | ok obj ↦ with_configlets root obj
  ]

  abbrev pub dispatched : Bool × ProgArgs → Option (ConfigError E) × ProgArgs
  dispatched (true, args) = (none, args)
  dispatched (false, args) = (some not_dispatched, args)

  abbrev pub daemon_applied :
      ProgArgs → Result (ConfigError E) (ConfigMap F) → Option (ConfigError E) × ProgArgs
  daemon_applied args (failed e) = (some e, args)
  daemon_applied args (ok obj) = dispatched (dispatch_conf_obj to_int obj args)

  -- fromDaemonFiles
  unfoldable pub from_daemon_files : Text → ProgArgs → Option (ConfigError E) × ProgArgs
  unfolding merged
  from_daemon_files root args = daemon_applied args (merged root)

  abbrev no_extra : ExtraConfig
  no_extra = record {
    topology_manager_policy = [];
    topology_manager_scope = [];
    resource_exclude = [];
    pod_exclude = [];
  }

  -- readExtraConfig
  unfoldable pub read_extra_config : Text → Result (ConfigError E) ExtraConfig
  unfolding configlet_data is_missing
  read_extra_config path = elim (configlet_data path) [
    | failed e ↦ if is_missing e then ok no_extra else failed e
    | ok data' ↦ elim (extra data') [ failed e ↦ failed (bad_document e) | ok conf ↦ ok conf ]
  ]

  abbrev pub extra_applied :
      ProgArgs → Result (ConfigError E) ExtraConfig → Option (ConfigError E) × ProgArgs
  extra_applied args (failed e) = (some (no_exclude_list e), args)
  extra_applied args (ok conf) = (none, setup_args_from_config conf args)

  -- fromExtraFile
  unfoldable pub from_extra_file : Text → ProgArgs → Option (ConfigError E) × ProgArgs
  unfolding read_extra_config
  from_extra_file path args = extra_applied args (read_extra_config path)

  -- A missing file is no error.
  unfoldable pub pardoned :
      Bool → Text → ConfigError E → ProgArgs → Option (ConfigError E) × ProgArgs
  unfolding from_extra_file
  pardoned true extra_path e args = from_extra_file extra_path args
  pardoned false extra_path e args = (some e, args)

  unfoldable pub after_daemon_files :
      Text → Option (ConfigError E) × ProgArgs → Option (ConfigError E) × ProgArgs
  unfolding pardoned is_missing
  after_daemon_files extra_path (none, args) = from_extra_file extra_path args
  after_daemon_files extra_path (some e, args) = pardoned (is_missing e) extra_path e args

  -- FromFiles
  unfoldable pub from_files : Text → Text → ProgArgs → Option (ConfigError E) × ProgArgs
  unfolding from_daemon_files after_daemon_files
  from_files [] extra_path args = (some empty_root, args)
  from_files (c ∷ root) [] args = (some empty_extra_path, args)
  from_files (c ∷ root) (d ∷ extra_path) args =
      after_daemon_files (d ∷ extra_path) (from_daemon_files (c ∷ root) args)
