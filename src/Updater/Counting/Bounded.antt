-- ===== src/Updater/Counting/Bounded.antt =====
-- Run of pkg/nrtupdater: how many patches are sent before the next get and update.
use mathlib.Core.Path.{subst₂}
use resource_topology_export.Base.{
  suc, ◌≤◌, ◌<◌, ◌≡◌, refl, sym, ◌∙◌, inl, inr, true, false, List, [], ◌∷◌, ◌++◌, arith, Bool-cases,
}
use resource_topology_export.Base.Int.{NonNegative, add64, is_negative, lt64-eq-ltb}
use resource_topology_export.Updater.Object.{MonitorInfo}
use resource_topology_export.Updater.{
  NrtUpdater, Json, Api, Sent, State, needs_resync, send_data, run_info, run,
}
use resource_topology_export.Updater.Logged.{
  Call, logged, recent, Attempted, resync_due, no_patch_there, patch_refused, Put, updated, created,
  NotPut, not_read, not_updated, not_created, Sending, by_patch, by_update, by_none,
}
use resource_topology_export.Updater.Counting.{send_object_patch-Sending}

-- In patch mode with a limit, the count is that of the patches that were accepted since the last
-- accepted create or update, and they stay within the limit.
pub record IsBounded {D : Type 0} (te : NrtUpdater) (log : List (Call D)) : Type 0 where
  pub patches : te.args.patch_mode ≡ true
  pub positive : 0 < te.args.patch_resync
  pub fits : NonNegative te.args.patch_resync
  pub is_counted : te.patch_count ≡ recent log
  pub bounded : recent log ≤ te.args.patch_resync

-- With a limit and no resync due, one more patch is within the limit.
room_for_patch :
    {D : Type 0} (te : NrtUpdater) (log : List (Call D))
    → IsBounded te log
    → needs_resync te ≡ false
    → (add64 te.patch_count 1 ≡ suc (recent log)) × (suc (recent log) ≤ te.args.patch_resync)
unfolding needs_resync is_negative add64
room_for_patch te log b h =
    let small : NonNegative te.patch_count = omega (arith, b.is_counted, b.bounded, b.fits) in
    ground (
      arith,
      b.positive,
      b.fits,
      b.is_counted,
      b.bounded,
      lt64-eq-ltb te.patch_count te.args.patch_resync small b.fits,
    )

module _ {D : Type 0} (json : Json D) (te : NrtUpdater) (info : MonitorInfo)
    (log : List (Call D)) where
  recent-Put : {calls : List (Call D)} → Put json te info calls → recent (calls ++ log) ≡ 0
  recent-Put (updated old) = refl
  recent-Put created = refl

  recent-NotPut :
      {calls : List (Call D)} → NotPut json te info calls → recent (calls ++ log) ≡ recent log
  recent-NotPut not_read = refl
  recent-NotPut (not_updated old) = refl
  recent-NotPut not_created = refl

  recent-Attempted :
      {calls : List (Call D)} → Attempted json te info calls → recent (calls ++ log) ≡ recent log
  recent-Attempted (resync_due n) = refl
  recent-Attempted (no_patch_there n h) = refl
  recent-Attempted (patch_refused n h) = refl

module _ {D E : Type 0} (json : Json D) (info : MonitorInfo) (te te' : NrtUpdater)
    (log log' : List (Call D)) (r : Sent E) where
  Sending-IsBounded : IsBounded te log → Sending json info te log r te' log' → IsBounded te' log'
  Sending-IsBounded b (by_patch nrt prev p n h e u l) =
      let (c, le) = room_for_patch te log b n in
      subst₂ IsBounded (sym u) (sym l) (record {
        patches = b.patches;
        positive = b.positive;
        fits = b.fits;
        is_counted = c;
        bounded = le;
      })
  Sending-IsBounded b (by_update nrt attempts calls a p e u l) =
      let none_since : recent (calls ++ (attempts ++ log)) ≡ 0 =
        recent-Put json te info (attempts ++ log) p in
      subst₂ IsBounded (sym u) (sym l) (record {
        patches = b.patches;
        positive = b.positive;
        fits = b.fits;
        is_counted = sym none_since;
        bounded = omega (arith, none_since);
      })
  Sending-IsBounded b (by_none x attempts calls a p e u l) =
      let same : recent (calls ++ (attempts ++ log)) ≡ recent log =
        recent-NotPut json te info (attempts ++ log) p ∙ recent-Attempted json te info log a in
      subst₂ IsBounded (sym u) (sym l) (record {
        patches = b.patches;
        positive = b.positive;
        fits = b.fits;
        is_counted = b.is_counted ∙ sym same;
        bounded = omega (arith, same, b.bounded);
      })

module _ {W D E : Type 0} (json : Json D) (api : Api W D E) where
  send_data-IsBounded :
      (info : MonitorInfo) (s : State (List (Call D) × W))
      → IsBounded s.updater s.server.0
      → IsBounded
          (send_data json (logged api) info s).1.updater
          (send_data json (logged api) info s).1.server.0
  unfolding send_data
  send_data-IsBounded info s b = elim (Bool-cases s.updater.args.no_publish) [
    | inl e ↦ simp e b
    | inr e ↦
        let mode = b.patches in
        simp (e, mode)
          (Sending-IsBounded json info _ _ _ _ _ b (send_object_patch-Sending json api info s))
  ]

  run_info-IsBounded :
      (info : MonitorInfo) (s : State (List (Call D) × W))
      → IsBounded s.updater s.server.0
      → IsBounded
          (run_info json (logged api) info s).1.updater
          (run_info json (logged api) info s).1.server.0
  unfolding run_info
  run_info-IsBounded info s b = send_data-IsBounded info s b

  -- In patch mode with a positive resync limit, the patches that the API server accepted since it
  -- last accepted a create or an update never pass the limit, and the updater's count is theirs,
  -- whatever infos arrive and whatever the API server answers, if both hold before.
  pub run-IsBounded :
      (infos : List MonitorInfo) (s : State (List (Call D) × W))
      → IsBounded s.updater s.server.0
      → IsBounded
          (run json (logged api) infos s).1.updater
          (run json (logged api) infos s).1.server.0
  unfolding run
  run-IsBounded [] s b = b
  run-IsBounded (info ∷ infos) s b =
      run-IsBounded infos (run_info json (logged api) info s).1 (run_info-IsBounded info s b)
