-- ===== src/Updater.antt =====
-- pkg/nrtupdater: writes the NodeResourceTopology object of the node, by get and update or by patch.
pub mod Object
pub mod Sync
pub mod Logged
pub mod Counting
use resource_topology_export.Base.{
  ℕ, zero, suc, ◌+◌, ◌≡◌, Bool, true, false, not, ◌||◌, Option, none, some, List, [], ◌∷◌, ◌++◌,
  Text, nat_beq, if◌then◌else◌,
}
use resource_topology_export.Base.Int.{Int64, add64, is_negative, lt64}
use resource_topology_export.Updater.Object.{
  Nrt, NodeGetter, TmConfig, MonitorInfo, update_reason, update_nrt_info, update_owner_references,
  new_nrt,
}

-- Args, as far as the updater reads it.
pub record Args : Type 0 where
  pub no_publish : Bool
  pub oneshot : Bool
  pub hostname : Text
  pub patch_mode : Bool
  pub patch_resync : Int64

-- NRTUpdater; sendObject is chosen by `patch_mode`.
pub record NrtUpdater : Type 0 where
  pub args : Args
  pub tm_config : TmConfig
  pub node_getter : NodeGetter
  pub prev_nrt : Option Nrt
  pub patch_count : Int64

pub data Operation : Type 0 where
  create_op update_op : Operation

-- Why no patch was made or sent.
pub data PatchReason : Type 0 where
  marshal_previous marshal_current make_patch send_patch : PatchReason

pub data Metric : Type 0 where
  writes : Operation → Text → Metric
  patch_failures : PatchReason → Metric
  patch_size_ratio : ℕ → ℕ → Metric  -- a fraction

-- encoding/json and k8s.io/apimachinery's jsonmergepatch, over a type of documents that the code
-- only measures and hands on: none is an error.
pub record Json (D : Type 0) : Type 0 where
  pub marshal : Nrt → Option D
  pub three_way_patch : D → D → D → Option D
  pub size : D → ℕ

pub record NrtPatchInfo (D : Type 0) : Type 0 where
  pub patch : D
  pub full_obj_bytes : ℕ

-- NRTPatchInfo.SizeRatio, as a fraction
pub size_ratio : {D : Type 0} → Json D → NrtPatchInfo D → ℕ × ℕ
size_ratio json info =
    if nat_beq info.full_obj_bytes 0 then (1, 1) else (json.size info.patch, info.full_obj_bytes)

pub data MadePatch (D : Type 0) : Type 0 where
  made : NrtPatchInfo D → MadePatch D
  not_made : PatchReason → MadePatch D

-- MakeNRTPatch
unfoldable pub make_nrt_patch : {D : Type 0} → Json D → Nrt → Nrt → MadePatch D
make_nrt_patch json old new = elim (json.marshal old) [
  | none ↦ not_made marshal_previous
  | some old_json ↦ elim (json.marshal new) [
    | none ↦ not_made marshal_current
    | some new_json ↦ elim (json.three_way_patch old_json new_json old_json) [
      | none ↦ not_made make_patch
      | some patch ↦ made (record { patch = patch; full_obj_bytes = json.size new_json })
    ]
  ]
]

pub data ApiResult (E : Type 0) : Type 0 where
  ok : Nrt → ApiResult E
  not_found : E → ApiResult E
  failed : E → ApiResult E

-- The client of the API server, over a state of the server.
pub record Api (W D E : Type 0) : Type 0 where
  pub get : Text → W → ApiResult E × W
  pub create : Nrt → W → ApiResult E × W
  pub update : Nrt → W → ApiResult E × W
  pub patch : Text → D → W → ApiResult E × W

pub data SendError (E : Type 0) : Type 0 where
  missing_previous_nrt : SendError E
  no_patch : PatchReason → SendError E
  api_error : E → SendError E

pub data Sent (E : Type 0) : Type 0 where
  sent : Nrt → Sent E
  unsent : SendError E → Sent E

-- The updater with what it writes to.
pub record State (W : Type 0) : Type 0 where
  pub updater : NrtUpdater
  pub server : W
  pub metrics : List Metric

-- needsResync
unfoldable pub needs_resync : NrtUpdater → Bool
needs_resync te =
    if is_negative te.args.patch_resync || nat_beq te.args.patch_resync 0
    then false
    else not (lt64 te.patch_count te.args.patch_resync)

module _ {W D E : Type 0} (json : Json D) (api : Api W D E) where
  -- What create or update gives, with the metric of a write.
  abbrev written : Operation → MonitorInfo → State W → ApiResult E × W → Sent E × State W
  written op info s (ok nrt, w) =
      (sent nrt, record s { server = w; metrics = writes op (update_reason info) ∷ s.metrics })
  written op info s (not_found e, w) = (unsent (api_error e), record s { server = w })
  written op info s (failed e, w) = (unsent (api_error e), record s { server = w })

  abbrev pub updated_nrt : NrtUpdater → MonitorInfo → Nrt → Nrt
  updated_nrt te info nrt =
      update_owner_references te.node_getter (update_nrt_info te.tm_config nrt info)

  send_after_get : MonitorInfo → State W → ApiResult E × W → Sent E × State W
  send_after_get info s (ok nrt, w) =
      written update_op info s (api.update (updated_nrt s.updater info nrt) w)
  send_after_get info s (not_found e, w) =
      written create_op info s
        (api.create (updated_nrt s.updater info (new_nrt s.updater.args.hostname)) w)
  send_after_get info s (failed e, w) = (unsent (api_error e), record s { server = w })

  -- sendObjectUpdate
  unfoldable pub send_object_update : MonitorInfo → State W → Sent E × State W
  unfolding send_after_get
  send_object_update info s = send_after_get info s (api.get s.updater.args.hostname s.server)

  abbrev patched : State W → ApiResult E × W → Sent E × State W
  patched s (ok nrt, w) =
      (sent nrt, record s { server = w; updater = record s.updater { prev_nrt = some nrt } })
  patched s (not_found e, w) = (
    unsent (api_error e),
    record s { server = w; metrics = patch_failures send_patch ∷ s.metrics },
  )
  patched s (failed e, w) = (
    unsent (api_error e),
    record s { server = w; metrics = patch_failures send_patch ∷ s.metrics },
  )

  abbrev send_patch_of : Nrt → State W → MadePatch D → Sent E × State W
  send_patch_of prev s (not_made reason) =
      (unsent (no_patch reason), record s { metrics = patch_failures reason ∷ s.metrics })
  send_patch_of prev s (made info) =
      let (a, b) = size_ratio json info in
      let s' : State W = record s { metrics = patch_size_ratio a b ∷ s.metrics } in
      patched s' (api.patch prev.name info.patch s.server)

  patch_from : MonitorInfo → State W → Option Nrt → Sent E × State W
  patch_from info s none = (unsent missing_previous_nrt, s)
  patch_from info s (some prev) =
      send_patch_of prev s (make_nrt_patch json prev (updated_nrt s.updater info prev))

  -- patchNRT
  unfoldable pub patch_nrt : MonitorInfo → State W → Sent E × State W
  unfolding patch_from
  patch_nrt info s = patch_from info s s.updater.prev_nrt

  -- The end of sendObjectPatch, where the update path was taken.
  abbrev resynced : Sent E × State W → Sent E × State W
  resynced (sent nrt, s) =
      (sent nrt, record s { updater = record s.updater { prev_nrt = some nrt; patch_count = 0 } })
  resynced (unsent e, s) = (unsent e, s)

  abbrev counted : MonitorInfo → Sent E × State W → Sent E × State W
  counted info (sent nrt, s) = (
    sent nrt,
    record s { updater = record s.updater { patch_count = add64 s.updater.patch_count 1 } },
  )
  counted info (unsent e, s) = resynced (send_object_update info s)

  -- sendObjectPatch
  unfoldable pub send_object_patch : MonitorInfo → State W → Sent E × State W
  send_object_patch info s =
      if needs_resync s.updater
      then resynced (send_object_update info s)
      else counted info (patch_nrt info s)

  -- sendData, and Update: none is a success.
  abbrev pub error_of : Sent E → Option (SendError E)
  error_of (sent nrt) = none
  error_of (unsent e) = some e

  unfoldable pub send_data : MonitorInfo → State W → Option (SendError E) × State W
  send_data info s =
      let (r, s') =
        if s.updater.args.patch_mode then send_object_patch info s else send_object_update info s in
      if s.updater.args.no_publish then (none, s) else (error_of r, s')

  -- The case of Run that takes an info. The condition that is set, if any, is true on success. In
  -- one-shot mode `break` only leaves the select statement: no condition is set and the loop goes on.
  unfoldable pub run_info : MonitorInfo → State W → Option Bool × State W
  run_info info s =
      let (e, s') = send_data info s in
      (
        if s.updater.args.oneshot then none else elim e [ none ↦ some true | some x ↦ some false ],
        s',
      )

  -- Run, over the infos that arrive.
  unfoldable pub run : List MonitorInfo → State W → List (Option Bool) × State W
  run [] s = ([], s)
  run (info ∷ infos) s =
      let (c, s') = run_info info s in let (cs, s'') = run infos s' in (c ∷ cs, s'')
