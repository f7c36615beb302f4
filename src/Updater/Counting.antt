-- ===== src/Updater/Counting.antt =====
-- sendObjectPatch of pkg/nrtupdater: the calls that it makes of the API server, and what it
-- remembers of them.
pub mod Bounded
use mathlib.Core.Path.{subst}
use resource_topology_export.Base.{
  ◌≡◌, refl, ap, sym, ◌∙◌, inl, inr, true, false, Option, none, some, List, [], ◌∷◌, ◌++◌,
  Bool-cases,
}
use resource_topology_export.Base.Int.{add64}
use resource_topology_export.Updater.Object.{Nrt, MonitorInfo, new_nrt}
use resource_topology_export.Updater.{
  NrtUpdater, Json, NrtPatchInfo, MadePatch, made, not_made, make_nrt_patch, ApiResult, ok,
  not_found, failed, Api, SendError, api_error, no_patch, missing_previous_nrt, Sent, size_ratio,
  patch_size_ratio, Metric, create_op, update_op, sent, unsent, State, needs_resync, written,
  send_after_get, send_object_update, patched, send_patch_of, patch_from, patch_nrt, counted,
  resynced, send_object_patch,
}
use resource_topology_export.Updater.Logged.{
  get_of, create_of, update_of, patch_of, Call, call, noted, logged, wanted, Patch, Attempted,
  resync_due, no_patch_there, patch_refused, Put, updated, created, NotPut, not_read, not_updated,
  not_created, Sending, by_patch, by_update, by_none,
}

module _ {W D E : Type 0} (json : Json D) (api : Api W D E) where
  updater-written :
      (op : _) (info : MonitorInfo) (s : State W) (r : ApiResult E × W)
      → (written json api op info s r).1.updater ≡ s.updater
  updater-written op info s (ok nrt, w) = refl
  updater-written op info s (not_found e, w) = refl
  updater-written op info s (failed e, w) = refl

  updater-send_after_get :
      (info : MonitorInfo) (s : State W) (r : ApiResult E × W)
      → (send_after_get json api info s r).1.updater ≡ s.updater
  unfolding send_after_get
  updater-send_after_get info s (ok nrt, w) = updater-written _ info s _
  updater-send_after_get info s (not_found e, w) = updater-written _ info s _
  updater-send_after_get info s (failed e, w) = refl

  pub updater-send_object_update :
      (info : MonitorInfo) (s : State W)
      → (send_object_update json api info s).1.updater ≡ s.updater
  unfolding send_object_update
  updater-send_object_update info s =
      updater-send_after_get info s (api.get s.updater.args.hostname s.server)

-- How a get with an update or a create leaves the updater and the calls.
data Updating {D E : Type 0} (json : Json D) (info : MonitorInfo) (te : NrtUpdater)
    (log : List (Call D)) (r : Sent E) (te' : NrtUpdater) (log' : List (Call D)) : Type 0 where
  put :
      (nrt : Nrt) (calls : List (Call D))
      → Put json te info calls
      → r ≡ sent nrt
      → te' ≡ te
      → log' ≡ calls ++ log
      → Updating json info te log r te' log'
  not_put :
      (e : SendError E) (calls : List (Call D))
      → NotPut json te info calls
      → r ≡ unsent e
      → te' ≡ te
      → log' ≡ calls ++ log
      → Updating json info te log r te' log'

-- How patchNRT leaves them.
data Patching {D E : Type 0} (json : Json D) (info : MonitorInfo) (te : NrtUpdater)
    (log : List (Call D)) (r : Sent E) (te' : NrtUpdater) (log' : List (Call D)) : Type 0 where
  patching_done :
      (nrt prev : Nrt) (p : NrtPatchInfo D)
      → Patch json te info prev p
      → r ≡ sent nrt
      → te' ≡ record te { prev_nrt = some nrt }
      → log' ≡ call (patch_of prev.name p.patch) true ∷ log
      → Patching json info te log r te' log'
  patching_failed :
      (e : SendError E) (attempts : List (Call D))
      → (needs_resync te ≡ false → Attempted json te info attempts)
      → r ≡ unsent e
      → te' ≡ te
      → log' ≡ attempts ++ log
      → Patching json info te log r te' log'

module _ {W D E : Type 0} (json : Json D) (api : Api W D E) (info : MonitorInfo) where
  abbrev Updates : NrtUpdater → List (Call D) → Sent E × State (List (Call D) × W) → Type 0
  Updates te log x = Updating json info te log x.0 x.1.updater x.1.server.0

  abbrev Patches : NrtUpdater → List (Call D) → Sent E × State (List (Call D) × W) → Type 0
  Patches te log x = Patching json info te log x.0 x.1.updater x.1.server.0

  updated-Updates :
      (s : State (List (Call D) × W)) (log : List (Call D)) (old : Nrt) (r : ApiResult E × W)
      → Updates s.updater log (
          written json (logged api) update_op info s (
            noted
              (update_of (wanted s.updater info old))
              (call (get_of s.updater.args.hostname) true ∷ log)
              r))
  updated-Updates s log old (ok nrt, w) = put nrt _ (updated old) refl refl refl
  updated-Updates s log old (not_found e, w) =
      not_put (api_error e) _ (not_updated old) refl refl refl
  updated-Updates s log old (failed e, w) = not_put (api_error e) _ (not_updated old) refl refl refl

  created-Updates :
      (s : State (List (Call D) × W)) (log : List (Call D)) (r : ApiResult E × W)
      → Updates s.updater log (
          written json (logged api) create_op info s (
            noted
              (create_of (wanted s.updater info (new_nrt s.updater.args.hostname)))
              (call (get_of s.updater.args.hostname) false ∷ log)
              r))
  created-Updates s log (ok nrt, w) = put nrt _ created refl refl refl
  created-Updates s log (not_found e, w) = not_put (api_error e) _ not_created refl refl refl
  created-Updates s log (failed e, w) = not_put (api_error e) _ not_created refl refl refl

  after_get-Updates :
      (s : State (List (Call D) × W)) (log : List (Call D)) (r : ApiResult E × W)
      → Updates s.updater log
          (send_after_get json (logged api) info s (noted (get_of s.updater.args.hostname) log r))
  unfolding send_after_get
  after_get-Updates s log (ok nrt, w) = updated-Updates s log nrt _
  after_get-Updates s log (not_found e, w) = created-Updates s log _
  after_get-Updates s log (failed e, w) = not_put (api_error e) _ not_read refl refl refl

  send_object_update-Updates :
      (s : State (List (Call D) × W))
      → Updates s.updater s.server.0 (send_object_update json (logged api) info s)
  unfolding send_object_update
  send_object_update-Updates s =
      after_get-Updates s s.server.0 (api.get s.updater.args.hostname s.server.1)

  patched-Patches :
      (s : State (List (Call D) × W)) (ms : List Metric) (prev : Nrt) (p : NrtPatchInfo D)
      (r : ApiResult E × W)
      → Patch json s.updater info prev p
      → Patches s.updater s.server.0 (
          patched json
            (logged api)
            (record s { metrics = ms })
            (noted (patch_of prev.name p.patch) s.server.0 r))
  patched-Patches s ms prev p (ok nrt, w) h = patching_done nrt prev p h refl refl refl
  patched-Patches s ms prev p (not_found e, w) h =
      patching_failed (api_error e) _ (λ n. patch_refused n h) refl refl refl
  patched-Patches s ms prev p (failed e, w) h =
      patching_failed (api_error e) _ (λ n. patch_refused n h) refl refl refl

  send_patch_of-Patches :
      (prev : Nrt) (s : State (List (Call D) × W)) (m : MadePatch D)
      → s.updater.prev_nrt ≡ some prev
      → make_nrt_patch json prev (wanted s.updater info prev) ≡ m
      → Patches s.updater s.server.0 (send_patch_of json (logged api) prev s m)
  send_patch_of-Patches prev s (not_made reason) h m =
      patching_failed (no_patch reason) []
        (λ n. no_patch_there n λ prev' p x.
          let q : prev ≡ prev' = cc (h, x.is_remembered) in
          let e : make_nrt_patch json prev (wanted s.updater info prev) ≡ made p =
            subst (λ o. make_nrt_patch json o (wanted s.updater info o) ≡ made p) (sym q)
              x.is_made in
          let bad : Path (MadePatch D) (not_made reason) (made p) = sym m ∙ e in cc bad)
        refl refl refl
  send_patch_of-Patches prev s (made p) h m =
      patched-Patches s (patch_size_ratio (size_ratio json p).0 (size_ratio json p).1 ∷ s.metrics)
        prev p _ (record { is_remembered = h; is_made = m })

  patch_from-Patches :
      (s : State (List (Call D) × W)) (o : Option Nrt)
      → s.updater.prev_nrt ≡ o
      → Patches s.updater s.server.0 (patch_from json (logged api) info s o)
  unfolding patch_from
  patch_from-Patches s none h =
      patching_failed missing_previous_nrt []
        (λ n. no_patch_there n λ prev p x. let bad = sym h ∙ x.is_remembered in cc bad) refl refl
        refl
  patch_from-Patches s (some prev) h = send_patch_of-Patches prev s _ h refl

  abbrev Sends : NrtUpdater → List (Call D) → Sent E × State (List (Call D) × W) → Type 0
  Sends te log x = Sending json info te log x.0 x.1.updater x.1.server.0

  -- The end of sendObjectPatch, after the calls that were tried before.
  resynced-Sends :
      (te : NrtUpdater) (log attempts : List (Call D)) (x : Sent E × State (List (Call D) × W))
      → Attempted json te info attempts
      → Updates te (attempts ++ log) x
      → Sends te log (resynced json (logged api) x)
  resynced-Sends te log attempts (sent nrt, s) a (put nrt' calls p e u l) =
      by_update nrt attempts calls a p refl
        (ap {A = NrtUpdater} {B = NrtUpdater}
          (λ t. record t { prev_nrt = some nrt; patch_count = 0 }) u)
        l
  resynced-Sends te log attempts (sent nrt, s) a (not_put x calls p e u l) = absurd (cc e)
  resynced-Sends te log attempts (unsent y, s) a (put nrt' calls p e u l) = absurd (cc e)
  resynced-Sends te log attempts (unsent y, s) a (not_put x calls p e u l) =
      by_none y attempts calls a p refl u l

  counted-Sends :
      (te : NrtUpdater) (log : List (Call D)) (x : Sent E × State (List (Call D) × W))
      → needs_resync te ≡ false
      → Patches te log x
      → Sends te log (counted json (logged api) info x)
  counted-Sends te log (sent nrt, s) n (patching_done nrt' prev p h e u l) =
      let q : nrt ≡ nrt' = cc e in
      by_patch nrt prev p n h refl
        (ap {A = NrtUpdater} {B = NrtUpdater}
            (λ t. record t { patch_count = add64 t.patch_count 1 }) u
          ∙ ap {A = Nrt} {B = NrtUpdater}
              (λ o. record te { prev_nrt = some o; patch_count = add64 te.patch_count 1 }) (sym q))
        l
  counted-Sends te log (sent nrt, s) n (patching_failed x attempts a e u l) = absurd (cc e)
  counted-Sends te log (unsent y, s) n (patching_done nrt' prev p h e u l) = absurd (cc e)
  counted-Sends te log (unsent y, s) n (patching_failed x attempts a e u l) =
      resynced-Sends te log attempts (send_object_update json (logged api) info s) (a n) (
        subst (λ t. Updates t (attempts ++ log) (send_object_update json (logged api) info s)) u
          (subst (λ c. Updates s.updater c (send_object_update json (logged api) info s)) l
            (send_object_update-Updates s)))

  pub send_object_patch-Sending :
      (s : State (List (Call D) × W))
      → Sending json info s.updater s.server.0
          (send_object_patch json (logged api) info s).0
          (send_object_patch json (logged api) info s).1.updater
          (send_object_patch json (logged api) info s).1.server.0
  unfolding send_object_patch patch_nrt
  send_object_patch-Sending s = elim (Bool-cases (needs_resync s.updater)) [
    | inl n ↦ rw n (
        resynced-Sends s.updater s.server.0 [] (send_object_update json (logged api) info s)
          (resync_due n) (send_object_update-Updates s))
    | inr n ↦ rw n (
        counted-Sends s.updater s.server.0 (patch_nrt json (logged api) info s) n
          (patch_from-Patches s s.updater.prev_nrt refl))
  ]
