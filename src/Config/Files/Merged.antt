-- ===== src/Config/Files/Merged.antt =====
-- What FromFiles of pkg/config merges: the main file, and over it the configlets.
use resource_topology_export.Base.{
  ◌≡◌, ◌∙◌, inl, inr, Option, some, List, [], Text, ok, failed, text_eq, Result-cases,
}
use resource_topology_export.Base.Dict.{get}
use resource_topology_export.Config.{ProgArgs}
use resource_topology_export.Config.Dispatch.{ConfigMap}
use resource_topology_export.Config.Dispatch.Bindings.{dispatch_conf_obj}
use resource_topology_export.Config.Files.{
  ConfigFiles, ConfigError, Configlet, document, load_configlet, dispatched, from_daemon_files,
  configlets_in, with_configlets, merged, main_path, configlet_dir,
}
use resource_topology_export.Config.Files.Configlets.{
  DecodesMaps, FirstUnread, Extended, not_loaded, loaded_lem, none_under,
  with_configlets-FirstUnread, with_configlets-Extended,
}

module _ {E F : Type 0} (fs : ConfigFiles E F) where
  -- What fromDaemonFiles leads to.
  pub data Outcome (root : Text) (args : ProgArgs)
      : Option (ConfigError E) × ProgArgs → Type 0 where
    no_main :
        (e : ConfigError E)
        → document fs (main_path fs root) ≡ failed e
        → Outcome root args (some e, args)
    bad_configlet :
        (e : ConfigError E) (main : ConfigMap F) (cs : List Configlet)
        → document fs (main_path fs root) ≡ ok main
        → configlets_in fs (configlet_dir fs root) ≡ ok cs
        → FirstUnread fs (configlet_dir fs root) e cs
        → Outcome root args (some e, args)
    applied :
        (main obj new : ConfigMap F)
        → document fs (main_path fs root) ≡ ok main
        → ((key : Text) → get obj key ≡ get main key)
        → Extended fs (configlet_dir fs root) obj new
        → Outcome root args (dispatched fs (dispatch_conf_obj fs.to_int new args))

  -- fromDaemonFiles fails and leaves the arguments where the main file cannot be read or decoded, or
  -- else where a regular configlet cannot be, with the error of the first such file; what is no
  -- regular file is passed over, and so are the configlets where their directory cannot be read.
  -- Otherwise it dispatches, once, a configuration in which each key has its value in the last
  -- configlet, in the order of the directory, that has the key, or else its value in the main file. A
  -- decoded document has each key once.
  pub from_daemon_files-Outcome :
      DecodesMaps fs
      → (root : Text) (args : ProgArgs) → Outcome root args (from_daemon_files fs root args)
  unfolding from_daemon_files merged
  from_daemon_files-Outcome decodes root args =
      elim (Result-cases (load_configlet fs [] (main_path fs root))) [
        | inl (e, p) ↦ rw (from_daemon_files, merged, p) (no_main e (not_loaded fs [] _ e p))
        | inr (obj, p) ↦ elim (Result-cases (with_configlets fs root obj)) [
          | inl (e, q) ↦
              let (main, d, same) = loaded_lem fs decodes [] obj (main_path fs root) p in
              let (cs, c, u) = with_configlets-FirstUnread fs decodes root obj e q in
              rw (from_daemon_files, merged, p, q) (bad_configlet e main cs d c u)
          | inr (new, q) ↦
              let (main, d, same) = loaded_lem fs decodes [] obj (main_path fs root) p in
              rw (from_daemon_files, merged, p, q)
                (applied main obj new d (λ key. same key ∙ none_under fs (get main key) key)
                  (with_configlets-Extended fs decodes root obj new q))
        ]
      ]
