-- ===== src/Config/Loading/Precedence.antt =====
-- LoadArgs of pkg/config as a whole: flags come before the environment, the environment before the
-- files, and the files before the defaults.
use mathlib.Core.Path.{subst}
use resource_topology_export.Base.{
  ◌≡◌, refl, sym, ap, ◌∙◌, Bool, true, false, Option, none, some, Text, ok, if◌then◌else◌,
}
use resource_topology_export.Base.Strings.{to_lower}
use resource_topology_export.Middleware.SharedPool.Ident.{ContainerIdent}
use resource_topology_export.Config.{
  ProgArgs, ExtraConfig, set_defaults, from_env, validate, serving_mode_is_supported,
  pfp_method_is_supported,
}
use resource_topology_export.Config.Flags.{FlagsError, from_flags, flagged, container_text}
use resource_topology_export.Config.Files.{ConfigError, from_files, read_extra_config}
use resource_topology_export.Config.Dispatch.{ConfigMap}
use resource_topology_export.Config.Loading.{
  Surroundings, load_args, after_files, after_flags, after_first, loaded_from, flags_checked,
  finalized, finalize, prepared, default_args, first_flags,
}
use resource_topology_export.Config.Loading.Layers.{IsMerged, from_files-IsFiled}
use resource_topology_export.Config.Loading.Layered.{Replaced, IsLayered}
use resource_topology_export.Config.Loading.Flagged.{from_flags-IsFlagged, from_flags-Replaced}
use resource_topology_export.Config.Loading.Settled.{checked, settled, Filed, settled-IsLayered}

accepted :
    {A : Type 0} (b m : Bool) (x y z : A)
    → x ≡ z
    → (if◌then◌else◌ {A = Bool × A} b (m, x) (false, y)).0 ≡ true
    → (if◌then◌else◌ {A = Bool × A} b (m, x) (false, y)).1 ≡ z
accepted true m x y z e h = e
accepted false m x y z e h = absurd (cc h)

validate-checked :
    (all exclusive : Text) (args : ProgArgs)
    → (validate all exclusive args).0 ≡ true
    → (validate all exclusive args).1 ≡ checked args
unfolding validate serving_mode_is_supported pfp_method_is_supported
validate-checked all exclusive args h =
    accepted (serving_mode_is_supported args.rte.metrics_mode).1
      (pfp_method_is_supported all exclusive args.resourcemonitor.pod_set_fingerprint_method).1
      (checked args)
      (record args { rte = record args.rte { metrics_mode = to_lower args.rte.metrics_mode } })
      (checked args) refl h

module _ {E F : Type 0} (s : Surroundings E F) where
  open s use {command_line, files, env}

  -- Some configuration and extra file, and the arguments that they and the others set.
  pub record Explained (new : ProgArgs) : Type 0 where
    pub obj : ConfigMap F
    pub extra : ExtraConfig
    pub is_merged : IsMerged files (first_flags s).root obj
    pub is_extra : read_extra_config files (first_flags s).extra_path ≡ ok extra
    pub is_layered : IsLayered s obj extra new

  explained :
      (ci : Option ContainerIdent) (filed : ProgArgs)
      → Filed s filed
      → Replaced
          (container_text command_line (from_env env filed))
          (from_env env filed).rte.reference_container
          ci
      → Explained (settled s ci filed)
  explained ci filed f r = record {
    obj = f.obj;
    extra = f.extra;
    is_merged = f.is_merged;
    is_extra = f.is_extra;
    is_layered = settled-IsLayered s ci filed f r;
  }

  finalized_lem :
      (r : Bool × ProgArgs)
      → (finalized s r).error ≡ none
      → (r.0 ≡ true) × ((finalized s r).args ≡ (finalize {E = E} s.hostname s.flags r.1).0.args)
  unfolding finalized
  finalized_lem (true, args) h = (refl, refl)
  finalized_lem (false, args) h = absurd (cc h)

  flags_checked_lem :
      (err : Option (FlagsError E)) (args : ProgArgs)
      → (flags_checked s err args).error ≡ none
      → (flags_checked s err args).args
        ≡ (finalize {E = E} s.hostname s.flags (checked args)).0.args
  flags_checked_lem (some e) args h = absurd (cc h)
  flags_checked_lem none args h =
      let (valid, same) = finalized_lem (validate s.method_all s.method_exclusive args) h in
      same
      ∙ ap (λ a. (finalize {E = E} s.hostname s.flags a).0.args) (validate-checked _ _ args valid)

  flags_checked-error :
      (err : Option (FlagsError E)) (args : ProgArgs)
      → (flags_checked s err args).error ≡ none
      → err ≡ none
  flags_checked-error (some e) args h = absurd (cc h)
  flags_checked-error none args h = refl

  -- No container is there before the files.
  prepared-container :
      (prepared s (first_flags s).args (default_args s)).rte.reference_container ≡ none
  unfolding prepared set_defaults
  prepared-container = refl

  after_files_lem :
      (r : Option (ConfigError E) × ProgArgs)
      → from_files files
          (first_flags s).root
          (first_flags s).extra_path
          (prepared s (first_flags s).args (default_args s))
        ≡ r
      → (after_files s r).error ≡ none
      → (after_files s r).args.version ≡ false
      → Explained (after_files s r).args
  unfolding after_files after_flags finalize
  after_files_lem (some e, args) f h v = absurd (cc h)
  after_files_lem (none, filed) f h v =
      let read = from_flags files.join command_line (from_env env filed) in
      let (ci, flags) = from_flags-IsFlagged E files.join command_line (from_env env filed) in
      let same =
        flags_checked_lem read.error read.args h
        ∙ ap (λ a. (finalize {E = E} s.hostname s.flags (checked a)).0.args) flags in
      let shown : (flagged command_line (from_env env filed)).version ≡ false =
        sym (ap (λ (a : ProgArgs). a.version) same) ∙ v in
      let made : read.args.rte.reference_container ≡ ci =
        ap (λ (a : ProgArgs). a.rte.reference_container) flags in
      let replaced =
        subst
          (Replaced (container_text command_line (from_env env filed))
            (from_env env filed).rte.reference_container)
          made
          (from_flags-Replaced files.join command_line (from_env env filed) shown
            (flags_checked-error read.error read.args h)) in
      subst Explained (sym same)
        (explained ci filed (from_files-IsFiled files _ _ _ filed f prepared-container) replaced)

  loaded_from_lem :
      (version : Bool)
      → (prepared s (first_flags s).args (default_args s)).version ≡ version
      → (loaded_from s version (prepared s (first_flags s).args (default_args s))).error ≡ none
      → (loaded_from s version (prepared s (first_flags s).args (default_args s))).args.version
        ≡ false
      → Explained (loaded_from s version (prepared s (first_flags s).args (default_args s))).args
  loaded_from_lem true v h n = let bad : true ≡ false = sym v ∙ n in absurd (cc bad)
  loaded_from_lem false v h n = after_files_lem _ refl h n

  after_first_lem :
      (err : Option (FlagsError E))
      → (after_first s err).error ≡ none
      → (after_first s err).args.version ≡ false
      → Explained (after_first s err).args
  after_first_lem (some e) h n = absurd (cc h)
  after_first_lem none h n = loaded_from_lem _ refl h n

  -- When LoadArgs succeeds and does not only show the version, each argument is the flag's, if it has
  -- one; without it, what the merged configuration files give, if it has a key, where -1 as the number
  -- of events counts as none; and without that, the default. The metrics address, the status file and
  -- the hostname while empty, and the metrics port while zero, are filled from the environment before
  -- the flags are read; an empty policy or scope from the extra file and then from the environment;
  -- and a hostname that is still empty by os.Hostname. The exclude lists are the extra file's. The
  -- metrics mode and the fingerprint method are put in lower case. The reference container is that of
  -- the files, or, if that is empty, that of the environment, unless the text of the flag, whose
  -- default is the text of the former, is not empty; then it is what this text reads as. The
  -- configuration files count as empty where the main one is missing.
  pub load_args-IsLayered :
      (load_args s).error ≡ none → (load_args s).args.version ≡ false → Explained (load_args s).args
  unfolding load_args
  load_args-IsLayered h n = after_first_lem (first_flags s).error h n
