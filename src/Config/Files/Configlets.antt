-- ===== src/Config/Files/Configlets.antt =====
-- The configlets of pkg/config: a later document overrides an earlier one, and the first that cannot be
-- read is an error.
use resource_topology_export.Base.{
  ◌≡◌, sym, ap, ◌∙◌, inl, inr, true, false, Option, List, [], ◌∷◌, Text, Result, ok, failed,
  text_eq, Bool-cases, Result-cases,
}
use resource_topology_export.Base.Dict.{get, put_all, or_else, or_else-none, IsUnique, get-put_all}
use resource_topology_export.Config.Dispatch.{ConfigMap, Value, merge_conf_obj}
use resource_topology_export.Config.Files.{
  ConfigFiles, ConfigError, Configlet, configlet_data, document, load_configlet, load_configlets,
  configlets_in, with_configlets, configlet_dir,
}

module _ {E F : Type 0} (fs : ConfigFiles E F) where
  open fs use {join}

  -- The documents of the regular configlets, in the order of the directory.
  pub data Documents (dir : Text) : List Configlet → List (ConfigMap F) → Type 0 where
    done : Documents dir [] []
    ignored :
        (c : Configlet) {cs : List Configlet} {docs : List (ConfigMap F)}
        → c.is_regular ≡ false
        → Documents dir cs docs
        → Documents dir (c ∷ cs) docs
    next :
        (c : Configlet) {cs : List Configlet} (doc : ConfigMap F) {docs : List (ConfigMap F)}
        → c.is_regular ≡ true
        → document fs (join (dir ∷ c.name ∷ [])) ≡ ok doc
        → Documents dir cs docs
        → Documents dir (c ∷ cs) (doc ∷ docs)

  -- The first regular configlet that has no document, with its error.
  pub data FirstUnread (dir : Text) (e : ConfigError E) : List Configlet → Type 0 where
    this_one :
        (c : Configlet) {cs : List Configlet}
        → c.is_regular ≡ true
        → document fs (join (dir ∷ c.name ∷ [])) ≡ failed e
        → FirstUnread dir e (c ∷ cs)
    after_ignored :
        (c : Configlet) {cs : List Configlet}
        → c.is_regular ≡ false
        → FirstUnread dir e cs
        → FirstUnread dir e (c ∷ cs)
    after_document :
        (c : Configlet) {cs : List Configlet} (doc : ConfigMap F)
        → c.is_regular ≡ true
        → document fs (join (dir ∷ c.name ∷ [])) ≡ ok doc
        → FirstUnread dir e cs
        → FirstUnread dir e (c ∷ cs)

  -- The value of a key in the last document that has it, or else the one before.
  unfoldable pub latest : Text → List (ConfigMap F) → Option (Value F) → Option (Value F)
  unfolding or_else
  latest key [] prior = prior
  latest key (doc ∷ docs) prior = latest key docs (or_else (get doc key) prior)

  -- A decoded document has each key once.
  abbrev pub DecodesMaps : Type 0
  DecodesMaps = (s : Text) (doc : ConfigMap F) → fs.flat s ≡ ok doc → IsUnique doc

  -- What the configlets make of a configuration.
  pub record Overridden (dir : Text) (cs : List Configlet) (obj new : ConfigMap F) : Type 0 where
    pub docs : List (ConfigMap F)
    pub are_documents : Documents dir cs docs
    pub are_latest : (key : Text) → get new key ≡ latest key docs (get obj key)

  document-IsUnique :
      DecodesMaps → (path : Text) (doc : ConfigMap F) → document fs path ≡ ok doc → IsUnique doc
  unfolding document
  document-IsUnique decodes path doc h = elim (Result-cases (configlet_data fs path)) [
    | inl (e, p) ↦ let bad = rw (document, p) at h in cc
    | inr (s, p) ↦ elim (Result-cases (fs.flat s)) [
      | inl (e, q) ↦ let bad = rw (document, p, q) at h in cc
      | inr (upd, q) ↦
          let same : Path (Result (ConfigError E) (ConfigMap F)) (ok upd) (ok doc) =
            rw (document, p, q) at h in
          let equal : upd ≡ doc = cc in decodes s doc (q ∙ ap ok equal)
    ]
  ]

  -- A configlet that is loaded overrides what is there.
  pub loaded_lem :
      DecodesMaps
      → (obj new : ConfigMap F) (path : Text) → load_configlet fs obj path ≡ ok new
      → (doc : ConfigMap F) × (document fs path ≡ ok doc)
        × ((key : Text) → get new key ≡ or_else (get doc key) (get obj key))
  unfolding load_configlet merge_conf_obj
  loaded_lem decodes obj new path h = elim (Result-cases (document fs path)) [
    | inl (e, p) ↦ let bad = rw (load_configlet, p) at h in cc
    | inr (doc, p) ↦
        let made : Path (Result (ConfigError E) (ConfigMap F)) (ok (put_all obj doc)) (ok new) =
          rw (load_configlet, p) at h in
        let same : put_all obj doc ≡ new = cc in
        (
          doc,
          p,
          λ key.
              ap (λ d. get d key) (sym same)
              ∙ get-put_all obj doc key (document-IsUnique decodes path doc p),
        )
  ]

  pub not_loaded :
      (obj : ConfigMap F) (path : Text) (e : ConfigError E)
      → load_configlet fs obj path ≡ failed e
      → document fs path ≡ failed e
  unfolding load_configlet
  not_loaded obj path e h = elim (Result-cases (document fs path)) [
    | inl (e', p) ↦
        let same : Path (Result (ConfigError E) (ConfigMap F)) (failed e') (failed e) =
          rw (load_configlet, p) at h in
        let equal : e' ≡ e = cc in p ∙ ap failed equal
    | inr (doc, p) ↦ let bad = rw (load_configlet, p) at h in cc
  ]

  pub none_under : (o : Option (Value F)) (key : Text) → or_else o (get [] key) ≡ o
  unfolding get
  none_under o key = or_else-none o

  load_configlets-Overridden :
      DecodesMaps
      → (dir : Text) (cs : List Configlet) (obj new : ConfigMap F)
      → load_configlets fs dir cs obj ≡ ok new
      → Overridden dir cs obj new
  unfolding load_configlets latest
  load_configlets-Overridden decodes dir [] obj new h =
      let same : obj ≡ new = cc in
      record { docs = []; are_documents = done; are_latest = λ key. ap (λ d. get d key) (sym same) }
  load_configlets-Overridden decodes dir (c ∷ cs) obj new h = elim (Bool-cases c.is_regular) [
    | inr r ↦
        let rest : load_configlets fs dir cs obj ≡ ok new = rw (load_configlets, r) at h in
        let rest' = load_configlets-Overridden decodes dir cs obj new rest in
        record {
          docs = rest'.docs;
          are_documents = ignored c r rest'.are_documents;
          are_latest = rest'.are_latest;
        }
    | inl r ↦ elim (Result-cases (load_configlet fs obj (join (dir ∷ c.name ∷ [])))) [
      | inl (e, p) ↦ let bad = rw (load_configlets, r, p) at h in cc
      | inr (obj', p) ↦
          let rest : load_configlets fs dir cs obj' ≡ ok new = rw (load_configlets, r, p) at h in
          let (doc, d, over) = loaded_lem decodes obj obj' _ p in
          let rest' = load_configlets-Overridden decodes dir cs obj' new rest in
          record {
            docs = doc ∷ rest'.docs;
            are_documents = next c doc r d rest'.are_documents;
            are_latest = λ key. rest'.are_latest key ∙ ap (latest key rest'.docs) (over key);
          }
    ]
  ]

  load_configlets-FirstUnread :
      DecodesMaps
      → (dir : Text) (cs : List Configlet) (obj : ConfigMap F) (e : ConfigError E)
      → load_configlets fs dir cs obj ≡ failed e
      → FirstUnread dir e cs
  unfolding load_configlets
  load_configlets-FirstUnread decodes dir [] obj e h = cc h
  load_configlets-FirstUnread decodes dir (c ∷ cs) obj e h = elim (Bool-cases c.is_regular) [
    | inr r ↦
        after_ignored c r
          (load_configlets-FirstUnread decodes dir cs obj e (rw (load_configlets, r) at h))
    | inl r ↦ elim (Result-cases (load_configlet fs obj (join (dir ∷ c.name ∷ [])))) [
      | inl (e', p) ↦
          let same : Path (Result (ConfigError E) (ConfigMap F)) (failed e') (failed e) =
            rw (load_configlets, r, p) at h in
          let equal : e' ≡ e = cc in this_one c r (not_loaded obj _ e (p ∙ ap failed equal))
      | inr (obj', p) ↦
          let (doc, d, over) = loaded_lem decodes obj obj' _ p in
          after_document c doc r d
            (load_configlets-FirstUnread decodes dir cs obj' e (rw (load_configlets, r, p) at h))
    ]
  ]

  pub with_configlets-FirstUnread :
      DecodesMaps
      → (root : Text) (obj : ConfigMap F) (e : ConfigError E)
      → with_configlets fs root obj ≡ failed e
      → (cs : List Configlet) × (configlets_in fs (configlet_dir fs root) ≡ ok cs)
        × FirstUnread (configlet_dir fs root) e cs
  unfolding with_configlets
  with_configlets-FirstUnread decodes root obj e h =
      elim (Result-cases (configlets_in fs (configlet_dir fs root))) [
        | inl (e', p) ↦ let bad = rw (with_configlets, p) at h in cc
        | inr (cs, p) ↦
            (cs, p, load_configlets-FirstUnread decodes _ cs obj e (rw (with_configlets, p) at h))
      ]

  -- The directory of the configlets cannot be read, or its regular files override.
  pub data Extended (dir : Text) (obj new : ConfigMap F) : Type 0 where
    alone : (e : ConfigError E) → configlets_in fs dir ≡ failed e → new ≡ obj → Extended dir obj new
    overridden :
        (cs : List Configlet)
        → configlets_in fs dir ≡ ok cs
        → Overridden dir cs obj new
        → Extended dir obj new

  pub with_configlets-Extended :
      DecodesMaps
      → (root : Text) (obj new : ConfigMap F) → with_configlets fs root obj ≡ ok new
      → Extended (configlet_dir fs root) obj new
  unfolding with_configlets
  with_configlets-Extended decodes root obj new h =
      elim (Result-cases (configlets_in fs (configlet_dir fs root))) [
        | inl (e, p) ↦
            let made : Path (Result (ConfigError E) (ConfigMap F)) (ok obj) (ok new) =
              rw (with_configlets, p) at h in
            alone e p (sym cc)
        | inr (cs, p) ↦
            overridden cs p
              (load_configlets-Overridden decodes _ cs obj new (rw (with_configlets, p) at h))
      ]
