-- ===== src/Examples/Loading.antt =====
-- The loading of the arguments, at concrete inputs.
use resource_topology_export.Base.{
  ℕ, ◌≡◌, refl, true, false, none, some, List, [], ◌∷◌, ◌++◌, Text, ok, failed, text_beq, text_eq,
  if◌then◌else◌,
}
use mathlib.Core.Path.{subst}
use resource_topology_export.Base.Dict.{get, IsUnique}
use resource_topology_export.Base.Strings.{codes, has_prefix, to_lower}
use resource_topology_export.Config.Dispatch.{ConfigMap, boolean}
use resource_topology_export.Config.Paths.{missing, read_configlet}
use resource_topology_export.Config.Flags.{CommandLine, from_flags}
use resource_topology_export.Config.Files.{ConfigFiles, from_daemon_files, from_files}
use resource_topology_export.Config.Files.Configlets.{DecodesMaps}
use resource_topology_export.Config.Files.Merged.{Outcome, from_daemon_files-Outcome}
use resource_topology_export.Config.Loading.{Surroundings, zero_args, load_args}
use resource_topology_export.Config.Loading.Precedence.{Explained, load_args-IsLayered}
use resource_topology_export.Config.Paths.{is_config_root_allowed}
use resource_topology_export.Base.Dict.{put}
use resource_topology_export.Base.Dict.{put_all}
use resource_topology_export.Config.Dispatch.{merge_conf_obj}
use resource_topology_export.Config.Dispatch.{apply_bindings}
use resource_topology_export.Config.Dispatch.{after_bindings}
use resource_topology_export.Config.Dispatch.{refer_container}
use resource_topology_export.Config.Dispatch.{value_at}
use resource_topology_export.Config.Dispatch.{string_at}
use resource_topology_export.Config.Dispatch.{bool_at}
use resource_topology_export.Config.Dispatch.{int_at}
use resource_topology_export.Config.Dispatch.{duration_at}
use resource_topology_export.Config.{ProgArgs}
use resource_topology_export.Config.{setup_args_from_config}
use resource_topology_export.Config.{set_defaults}
use resource_topology_export.Config.{from_env}
use resource_topology_export.Config.{validate}
use resource_topology_export.Config.{serving_mode_is_supported}
use resource_topology_export.Config.{pfp_method_is_supported}
use resource_topology_export.Config.Loading.{finalize}
use resource_topology_export.Config.Loading.{get_level}
use resource_topology_export.Config.Loading.{set_level}
use resource_topology_export.Config.Loading.{clone_args}
use resource_topology_export.Config.Files.{is_missing}
use resource_topology_export.Middleware.SharedPool.Ident.{to_text, clone, from_string, is_empty}
use resource_topology_export.Base.Strings.{split}
use resource_topology_export.Config.Paths.{add_dirs, first_pattern}
use resource_topology_export.Config.Dispatch.Bindings.{dispatch_conf_obj}
use resource_topology_export.Config.Flags.Container.{from_flags-reference_container}
use resource_topology_export.Base.Strings.{is_space}
use resource_topology_export.Base.{arith}

abbrev joined : List Text → Text
joined [] = []
joined (part ∷ parts) = part ++ b'/' ∷ joined parts

abbrev doc : ConfigMap ℕ
doc = (codes "nrtUpdater.patchMode", boolean false) ∷ []

-- Every file there is sets the patch mode; the extra file is missing.
abbrev files : ConfigFiles ℕ ℕ
files = record {
  clean = λ path. path;
  links = λ path. missing;
  join = joined;
  user_dirs = [];
  read_file = λ path. if has_prefix path (codes "/etc/rte") then ok [] else failed 2;
  read_dir = λ path. ok (record { name = codes "10.yaml"; is_regular = true } ∷ []);
  is_not_exist = λ e. true;
  flat = λ s. ok doc;
  extra = λ s. failed 3;
  to_int = λ n. n;
}

one_key : DecodesMaps files
unfolding get
one_key s d h = let same : doc ≡ d = cc h in subst IsUnique same (refl, tt)

from_daemon_files-Outcome_example :
    Outcome files
      (codes "/etc/rte")
      zero_args
      (from_daemon_files files (codes "/etc/rte") zero_args)
from_daemon_files-Outcome_example =
    from_daemon_files-Outcome files one_key (codes "/etc/rte") zero_args

abbrev no_flags : CommandLine ℕ
no_flags = record {
  text_flag = λ name. none;
  bool_flag = λ name. none;
  int_flag = λ name. none;
  params = [];
  err = none;
}

abbrev surroundings : Surroundings ℕ ℕ
surroundings = record {
  command_line = no_flags;
  files = files;
  env = record {
    hostname = codes "node";
    topology_manager_policy = [];
    topology_manager_scope = [];
    reference_container = none;
    metrics_port = 0;
    metrics_address = [];
    pod_set_fingerprint_status_file = [];
  };
  hostname = ok (codes "host");
  flags = (codes "v", some 0) ∷ [];
  default_method = codes "with-exclusive-resources";
  method_all = codes "all";
  method_exclusive = codes "with-exclusive-resources";
}

load_args-IsLayered_example : Explained surroundings (load_args surroundings).args
unfolding load_args from_flags from_files read_configlet is_config_root_allowed has_prefix text_beq
    to_lower get put put_all merge_conf_obj apply_bindings after_bindings refer_container value_at
    string_at bool_at int_at duration_at to_text clone from_string split add_dirs first_pattern
    dispatch_conf_obj is_empty setup_args_from_config set_defaults from_env validate
    serving_mode_is_supported pfp_method_is_supported finalize get_level set_level clone_args
    is_missing
load_args-IsLayered_example = load_args-IsLayered surroundings refl refl

abbrev with_reference : ProgArgs
with_reference = record zero_args {
  rte = record zero_args.rte {
    reference_container =
        some
          (record { namespace = codes "ns"; pod_name = codes "pod"; container_name = codes "c" });
  };
}

from_flags-reference_container_example :
    (from_flags joined no_flags with_reference).args.rte.reference_container
    ≡ with_reference.rte.reference_container
from_flags-reference_container_example =
    from_flags-reference_container joined no_flags with_reference refl (
      (ground arith, unfold is_space in ground arith),
      (ground arith, unfold is_space in ground arith),
      (ground arith, unfold is_space in ground arith),
    )
