-- ===== src/Config/Loading.antt =====
-- LoadArgs and Finalize of pkg/config/config.go: the order in which defaults, files, environment and
-- flags set the arguments; and pkg/kloglevel.
pub mod Layers
pub mod Layered
pub mod Flagged
pub mod Settled
pub mod Precedence
use resource_topology_export.Base.{
  ℕ, ◌+◌, ◌%◌, ◌^◌, ◌≡◌, Bool, true, false, Option, none, some, List, [], ◌∷◌, Text, Result, ok,
  failed, if◌then◌else◌, ltb, text_eq, ◌==◌,
}
use resource_topology_export.Base.Int.{Int64}
use resource_topology_export.Base.Dict.{Dict, get, put}
use resource_topology_export.Base.Strings.{codes, format_uint}
use resource_topology_export.Middleware.SharedPool.Ident.{clone}
use resource_topology_export.Config.{
  ProgArgs, RteArgs, Environment, TlsConfig, clone_nrt, set_defaults, from_env, validate,
}
use resource_topology_export.Config.Paths.{UserDir, dir, skipped}
use resource_topology_export.Config.Flags.{CommandLine, FromFlags, FlagsError, from_flags}
use resource_topology_export.Config.Files.{ConfigFiles, ConfigError, from_files}
use resource_topology_export.Serving.{clone_tls}

-- UserRunDir, of os.Getuid, and UserHomeDir, of os.LookupEnv("HOME"), over filepath.Join
unfoldable user_run_dir : {E : Type 0} → (List Text → Text) → ℕ → UserDir E
user_run_dir join uid =
    dir (join (codes "/run" ∷ codes "user" ∷ format_uint uid ∷ codes "rte" ∷ []))

unfoldable user_home_dir : {E : Type 0} → (List Text → Text) → Option Text → UserDir E
user_home_dir join (some (c ∷ home)) = dir (join ((c ∷ home) ∷ codes ".rte" ∷ []))
user_home_dir join (some []) = skipped
user_home_dir join none = skipped

-- The directories that IsConfigRootAllowed adds.
unfoldable pub user_dirs : {E : Type 0} → (List Text → Text) → ℕ → Option Text → List (UserDir E)
unfolding user_run_dir user_home_dir
user_dirs join uid home = user_run_dir join uid ∷ user_home_dir join home ∷ []

-- The flags of a flag.FlagSet in the order of VisitAll; some: the value is a klog.Level.
abbrev pub FlagSet : Type 0
FlagSet = Dict Text (Option ℕ)

unfoldable first_level : FlagSet → Option Text
first_level [] = none
first_level ((name, none) ∷ flags) = first_level flags
first_level ((name, some level) ∷ flags) = some name

abbrev level_of : FlagSet → Option (Option ℕ) → Option Text
level_of flags (some (some level)) = some (codes "v")
level_of flags (some none) = first_level flags
level_of flags none = first_level flags

-- getKLogLevel: the name of the flag that holds the level.
unfoldable pub get_klog_level : FlagSet → Option Text
unfolding first_level
get_klog_level flags = level_of flags (get flags (codes "v"))

-- Get; none is the error.
unfoldable pub get_level : FlagSet → Option ℕ
unfolding get_klog_level
get_level flags = elim (get_klog_level flags) [
  | none ↦ none
  | some name ↦ elim (get flags name) [ none ↦ none | some level ↦ level ]
]

-- Set; with no such flag it changes klog's own state, which no flag shows.
unfoldable pub set_level : FlagSet → ℕ → FlagSet
unfolding get_klog_level
set_level flags level = elim (get_klog_level flags) [
  | none ↦ flags
  | some name ↦ put flags name (some level)
]

-- klog.Level, an int32, of an int; and a < b.
abbrev pub to_level : Int64 → ℕ
to_level n = n % 2 ^ 32

unfoldable pub lt_level : ℕ → ℕ → Bool
lt_level a b = ltb ((a + 2 ^ 31) % 2 ^ 32) ((b + 2 ^ 31) % 2 ^ 32)

pub data LoadError (E : Type 0) : Type 0 where
  bad_flags : FlagsError E → LoadError E
  bad_files : ConfigError E → LoadError E
  invalid : LoadError E
  no_level : LoadError E

pub record Loaded (E : Type 0) : Type 0 where
  pub args : ProgArgs
  pub error : Option (LoadError E)

abbrev pub named : {E : Type 0} → Result E Text → Text → Text
named answer (c ∷ hostname) = c ∷ hostname
named (ok hostname) [] = hostname
named (failed e) [] = []

-- The level that Finalize settles on.
unfoldable pub settled_level : Option ℕ → Int64 → ℕ
unfolding lt_level
settled_level none verbose = to_level verbose
settled_level (some level) verbose =
    if lt_level (to_level verbose) level then level else to_level verbose

-- Finalize, over os.Hostname: the error of Hostname is overwritten by the one of kloglevel.Get.
unfoldable pub finalize : {E : Type 0} → Result E Text → FlagSet → ProgArgs → Loaded E × FlagSet
unfolding settled_level
finalize hostname flags args =
    let level = get_level flags in
    (
      record {
        args = record args {
          nrt_updater = record args.nrt_updater {
            hostname = named hostname args.nrt_updater.hostname;
          };
        };
        error = elim level [ none ↦ some no_level | some l ↦ none ];
      },
      set_level flags (settled_level level args.global.verbose),
    )

abbrev clone_rte : RteArgs → RteArgs
clone_rte args = record args {
  reference_container = clone args.reference_container;
  metrics_tls_cfg = clone_tls args.metrics_tls_cfg;
}

-- ProgArgs.Clone; the copies of the lists have the same elements.
unfoldable pub clone_args : ProgArgs → ProgArgs
clone_args args = record args { nrt_updater = clone_nrt args.nrt_updater; rte = clone_rte args.rte }

abbrev no_tls : TlsConfig
no_tls = record {
  certs_dir = [];
  cert_file = [];
  key_file = [];
  want_cli_auth = false;
  min_tls_version = [];
  cipher_suites = [];
}

-- The zero value of ProgArgs.
abbrev pub zero_args : ProgArgs
zero_args = record {
  global = record { kube_config = []; debug = false; verbose = 0 };
  nrt_updater = record {
    no_publish = false;
    oneshot = false;
    hostname = [];
    kube_config = [];
    patch_mode = false;
    patch_resync = 0;
  };
  resourcemonitor = record {
    namespace = [];
    sysfs_root = [];
    resource_exclude = [];
    refresh_node_resources = false;
    pod_set_fingerprint = false;
    pod_set_fingerprint_method = [];
    expose_timing = false;
    pod_set_fingerprint_status_file = [];
    pod_exclude = [];
    exclude_terminal_pods = false;
  };
  rte = record {
    reference_container = none;
    topology_manager_policy = [];
    topology_manager_scope = [];
    kubelet_config_file = [];
    pod_resources_socket_path = [];
    sleep_interval = 0;
    pod_readiness_enable = false;
    notify_file_path = [];
    max_events_per_time_unit = 0;
    time_unit_to_limit_events = 0;
    add_nrt_owner_enable = false;
    metrics_mode = [];
    metrics_port = 0;
    metrics_address = [];
    metrics_tls_cfg = no_tls;
  };
  version = false;
  dump_config = [];
}

-- What LoadArgs asks of its surroundings, with the names of podfingerprint's methods.
pub record Surroundings (E F : Type 0) : Type 0 where
  pub command_line : CommandLine E
  pub files : ConfigFiles E F
  pub env : Environment
  pub hostname : Result E Text
  pub flags : FlagSet
  pub default_method : Text
  pub method_all : Text
  pub method_exclusive : Text

module _ {E F : Type 0} (s : Surroundings E F) where
  -- The last steps of LoadArgs, from the second reading of the flags.
  unfoldable pub finalized : Bool × ProgArgs → Loaded E
  finalized (false, args) = record { args = args; error = some invalid }
  finalized (true, args) = (finalize s.hostname s.flags args).0

  abbrev pub flags_checked : Option (FlagsError E) → ProgArgs → Loaded E
  flags_checked (some e) args = record { args = args; error = some (bad_flags e) }
  flags_checked none args = finalized (validate s.method_all s.method_exclusive args)

  unfoldable pub after_flags : FromFlags E → Loaded E
  unfolding finalized
  after_flags read = flags_checked read.error read.args

  unfoldable pub after_files : Option (ConfigError E) × ProgArgs → Loaded E
  unfolding after_flags
  after_files (some e, args) = record { args = args; error = some (bad_files e) }
  after_files (none, args) =
      after_flags (from_flags s.files.join s.command_line (from_env s.env args))

  -- The arguments with what the first reading of the flags, on a copy, tells.
  unfoldable pub prepared : ProgArgs → ProgArgs → ProgArgs
  prepared tmp args = record args {
    global = record args.global { debug = tmp.global.debug };
    version = tmp.version;
    dump_config = tmp.dump_config;
  }

  abbrev pub default_args : ProgArgs
  default_args = set_defaults s.default_method zero_args

  abbrev pub first_flags : FromFlags E
  first_flags = from_flags s.files.join s.command_line (clone_args default_args)

  abbrev pub loaded_from : Bool → ProgArgs → Loaded E
  loaded_from true args = record { args = args; error = none }
  loaded_from false args =
      after_files (from_files s.files first_flags.root first_flags.extra_path args)

  abbrev pub after_first : Option (FlagsError E) → Loaded E
  after_first (some e) = record { args = default_args; error = some (bad_flags e) }
  after_first none =
      loaded_from (prepared first_flags.args default_args).version
        (prepared first_flags.args default_args)

  -- LoadArgs
  unfoldable pub load_args : Loaded E
  unfolding after_files prepared
  load_args = after_first first_flags.error
