-- ===== src/Updater/Sync/Patch.antt =====
-- sendObjectPatch of pkg/nrtupdater publishes what sendObjectUpdate would.
use mathlib.Core.Path.{subst, subst₂}
use resource_topology_export.Base.{
  ℕ, ◌≡◌, refl, ap, sym, ◌∙◌, inl, inr, Option, none, some, List, ◌∷◌, Bool-cases,
}
use resource_topology_export.Updater.Object.{Nrt, MonitorInfo}
use resource_topology_export.Updater.{
  Metric, patch_failures, send_patch, NrtUpdater, Json, NrtPatchInfo, size_ratio, MadePatch, made,
  not_made, ApiResult, ok, not_found, failed, Api, Sent, sent, unsent, State, patch_size_ratio,
  needs_resync, updated_nrt, send_object_update, patched, send_patch_of, patch_from, patch_nrt,
  make_nrt_patch, counted, resynced, send_object_patch,
}
use resource_topology_export.Updater.Counting.{updater-send_object_update}
use resource_topology_export.Updater.Sync.{
  SameContent, IsFaithful, Published, published, refused, desired, Published-before,
  name-desired-some, send_object_update-Published,
}

-- The object that the updater remembers is the one that the server stores, under the node's name.
pub record InSync (te : NrtUpdater) (stored : Option Nrt) : Type 0 where
  pub remembered :
      (prev : Nrt) → te.prev_nrt ≡ some prev → (stored ≡ some prev) × (prev.name ≡ te.args.hostname)

-- A send that publishes, and keeps the updater in step with the server.
abbrev pub Kept :
    {E : Type 0} → NrtUpdater → MonitorInfo → Option Nrt → Sent E → NrtUpdater → Option Nrt → Type 0
Kept te info before r te' after = Published te info before r after × InSync te' after

module _ {W D E : Type 0} (json : Json D) (api : Api W D E) (stored : W → Option Nrt)
    (info : MonitorInfo) where
  remember_lem :
      (te : NrtUpdater) (nrt : Nrt) (count : ℕ) (after : Option Nrt)
      → after ≡ some nrt
      → nrt.name ≡ te.args.hostname
      → InSync (record te { prev_nrt = some nrt; patch_count = count }) after
  remember_lem te nrt count after st n = record {
    remembered = λ prev e.
        let q : nrt ≡ prev = cc e in (st ∙ ap some q, ap (λ (x : Nrt). x.name) (sym q) ∙ n);
  }

  resynced-Kept :
      (te : NrtUpdater) (before : Option Nrt) (x : Sent E × State W)
      → x.1.updater ≡ te
      → InSync te before
      → Published te info before x.0 (stored x.1.server)
      → Kept te info before
          (resynced json api x).0
          (resynced json api x).1.updater
          (stored (resynced json api x).1.server)
  resynced-Kept te before (sent nrt, s) u i (published new e c st n) =
      let q : nrt ≡ new = cc e in
      (
        published new e c st n,
        subst (λ t. InSync (record t { prev_nrt = some nrt; patch_count = 0 }) (stored s.server))
            (sym u)
            (remember_lem te nrt 0 (stored s.server) (st ∙ ap some (sym q))
              (ap (λ (x : Nrt). x.name) q ∙ n)),
      )
  resynced-Kept te before (sent nrt, s) u i (refused y e st) = absurd (cc e)
  resynced-Kept te before (unsent x, s) u i (published new e c st n) = absurd (cc e)
  resynced-Kept te before (unsent x, s) u i (refused y e st) =
      (refused y e st, subst₂ InSync (sym u) (sym st) i)

  -- The get and update that follows a patch which was not made or not accepted.
  update-Kept :
      (te : NrtUpdater) (before : Option Nrt) (s : State W)
      → s.updater ≡ te
      → stored s.server ≡ before
      → IsFaithful json api te.args.hostname stored
      → InSync te before
      → Kept te info before
          (resynced json api (send_object_update json api info s)).0
          (resynced json api (send_object_update json api info s)).1.updater
          (stored (resynced json api (send_object_update json api info s)).1.server)
  update-Kept te before s u st f i =
      resynced-Kept te before (send_object_update json api info s)
        (updater-send_object_update json api info s ∙ u) i
        (Published-before te info st (
          subst
            (λ t.
              Published t info (stored s.server) (send_object_update json api info s).0
                (stored (send_object_update json api info s).1.server))
            u
            (send_object_update-Published json api stored s info
              (subst (λ t. IsFaithful json api t.args.hostname stored) (sym u) f))))

module _ {W D E : Type 0} (json : Json D) (api : Api W D E) (stored : W → Option Nrt) (s : State W)
    (info : MonitorInfo) (f : IsFaithful json api s.updater.args.hostname stored)
    (i : InSync s.updater (stored s.server)) where
  at_hostname :
      (prev : Nrt) (p : NrtPatchInfo D) (r : ApiResult E × W)
      → s.updater.prev_nrt ≡ some prev
      → api.patch prev.name p.patch s.server ≡ r
      → api.patch s.updater.args.hostname p.patch s.server ≡ r
  at_hostname prev p r h e =
      let (st, n) = i.remembered prev h in subst (λ t. api.patch t p.patch s.server ≡ r) n e

  patched-Kept :
      (prev : Nrt) (p : NrtPatchInfo D) (ms : List Metric) (r : ApiResult E × W)
      → s.updater.prev_nrt ≡ some prev
      → make_nrt_patch json prev (updated_nrt json api s.updater info prev) ≡ made p
      → api.patch prev.name p.patch s.server ≡ r
      → let s' : State W = record s { metrics = ms } in
        Kept s.updater info
          (stored s.server)
          (counted json api info (patched json api s' r)).0
          (counted json api info (patched json api s' r)).1.updater
          (stored (counted json api info (patched json api s' r)).1.server)
  patched-Kept prev p ms (ok nrt, w) h m e =
      let (st, n) = i.remembered prev h in
      let (c, st') = f.patch_ok st m (at_hostname prev p _ h e) in
      let n' : nrt.name ≡ s.updater.args.hostname =
        c.name ∙ name-desired-some json api stored s info f prev n in
      (
        published nrt refl (subst (λ o. SameContent nrt (desired s.updater info o)) (sym st) c) st'
            n',
        remember_lem json api stored info s.updater nrt _ (stored w) st' n',
      )
  patched-Kept prev p ms (not_found x, w) h m e =
      update-Kept json api stored info s.updater (stored s.server)
        (record s { server = w; metrics = patch_failures send_patch ∷ ms }) refl
        (f.patch_refused (inr (at_hostname prev p _ h e))) f i
  patched-Kept prev p ms (failed x, w) h m e =
      update-Kept json api stored info s.updater (stored s.server)
        (record s { server = w; metrics = patch_failures send_patch ∷ ms }) refl
        (f.patch_refused (inl (at_hostname prev p _ h e))) f i

  made-Kept :
      (prev : Nrt) (m : MadePatch D)
      → s.updater.prev_nrt ≡ some prev
      → make_nrt_patch json prev (updated_nrt json api s.updater info prev) ≡ m
      → Kept s.updater info
          (stored s.server)
          (counted json api info (send_patch_of json api prev s m)).0
          (counted json api info (send_patch_of json api prev s m)).1.updater
          (stored (counted json api info (send_patch_of json api prev s m)).1.server)
  made-Kept prev (not_made reason) h m =
      update-Kept json api stored info s.updater (stored s.server)
        (record s { metrics = patch_failures reason ∷ s.metrics }) refl refl f i
  made-Kept prev (made p) h m =
      patched-Kept prev p (patch_size_ratio (size_ratio json p).0 (size_ratio json p).1 ∷ s.metrics)
        _ h m refl

  from-Kept :
      (o : Option Nrt)
      → s.updater.prev_nrt ≡ o
      → Kept s.updater info
          (stored s.server)
          (counted json api info (patch_from json api info s o)).0
          (counted json api info (patch_from json api info s o)).1.updater
          (stored (counted json api info (patch_from json api info s o)).1.server)
  unfolding patch_from
  from-Kept none h = update-Kept json api stored info s.updater (stored s.server) s refl refl f i
  from-Kept (some prev) h = made-Kept prev _ h refl

  -- Patch mode publishes the same content as get and update would: an accepted send stores the
  -- content that the stored object should have, by a patch or after falling back, and a refused one
  -- leaves the object. The updater stays in step with the server. The API server is as IsFaithful
  -- says, and the updater is in step before.
  pub send_object_patch-Kept :
      Kept s.updater info
        (stored s.server)
        (send_object_patch json api info s).0
        (send_object_patch json api info s).1.updater
        (stored (send_object_patch json api info s).1.server)
  unfolding send_object_patch patch_nrt
  send_object_patch-Kept = elim (Bool-cases (needs_resync s.updater)) [
    | inl n ↦ rw n (update-Kept json api stored info s.updater (stored s.server) s refl refl f i)
    | inr n ↦ rw n (from-Kept s.updater.prev_nrt refl)
  ]
