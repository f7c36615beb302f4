-- ===== src/Updater/Sync.antt =====
-- Both ways to write the object publish the same content, against an API server that stores what it
-- accepts.
pub mod Patch
use mathlib.Core.Path.{subst, subst₂}
use resource_topology_export.Base.{
  ℕ, ◌≡◌, refl, ap, sym, ◌∙◌, ◌⊎◌, inl, inr, Bool, true, false, Option, none, some, List, ◌∷◌,
  arith, Text, Bool-cases, Option-cases, if◌then◌else◌,
}
use resource_topology_export.Base.Dict.{Dict}
use resource_topology_export.Monitor.Scan.{Zone, AttributeInfo}
use resource_topology_export.Updater.Object.{
  Nrt, OwnerReference, NodeGetter, MonitorInfo, NodeReply, update_nrt_info, update_owner_references,
  get_node, new_nrt,
}
use resource_topology_export.Updater.{
  Args, Metric, patch_failures, send_patch, NrtUpdater, create_op, update_op, Json, NrtPatchInfo,
  size_ratio, MadePatch, made, not_made, ApiResult, ok, not_found, failed, Api, SendError, Sent,
  sent, unsent, State, patch_size_ratio, needs_resync, written, updated_nrt, send_after_get,
  send_object_update, patched, send_patch_of, patch_from, patch_nrt, make_nrt_patch, counted,
  resynced, send_object_patch,
}
use resource_topology_export.Updater.Counting.{updater-send_object_update}

-- Equal up to the metadata, which the server changes at each write.
pub record SameContent (a b : Nrt) : Type 0 where
  pub name : a.name ≡ b.name
  pub annotations : a.annotations ≡ b.annotations
  pub owner_references : a.owner_references ≡ b.owner_references
  pub zones : a.zones ≡ b.zones
  pub attributes : a.attributes ≡ b.attributes

-- What the program relies on of the API server: it stores one object under the name, answers a get
-- with it, and gives back what it stores on a write. A merge patch made from the stored object turns
-- it into the new one. A refused request changes nothing.
pub record IsFaithful {W D E : Type 0} (json : Json D) (api : Api W D E) (hostname : Text)
    (stored : W → Option Nrt) : Type 0 where
  pub get_ok :
      {w w' : W} {nrt : Nrt}
      → api.get hostname w ≡ (ok nrt, w')
      → (stored w ≡ some nrt) × (stored w' ≡ some nrt) × (nrt.name ≡ hostname)
  pub get_not_found :
      {w w' : W} {e : E}
      → api.get hostname w ≡ (not_found e, w')
      → (stored w ≡ none) × (stored w' ≡ none)
  pub get_failed : {w w' : W} {e : E} → api.get hostname w ≡ (failed e, w') → stored w' ≡ stored w
  pub create_ok :
      {w w' : W} {new nrt : Nrt}
      → api.create new w ≡ (ok nrt, w')
      → SameContent nrt new × (stored w' ≡ some nrt)
  pub create_refused :
      {w w' : W} {new : Nrt} {e : E}
      → (api.create new w ≡ (failed e, w')) ⊎ (api.create new w ≡ (not_found e, w'))
      → stored w' ≡ stored w
  pub update_ok :
      {w w' : W} {new nrt : Nrt}
      → api.update new w ≡ (ok nrt, w')
      → SameContent nrt new × (stored w' ≡ some nrt)
  pub update_refused :
      {w w' : W} {new : Nrt} {e : E}
      → (api.update new w ≡ (failed e, w')) ⊎ (api.update new w ≡ (not_found e, w'))
      → stored w' ≡ stored w
  pub patch_ok :
      {w w' : W} {prev new nrt : Nrt} {info : NrtPatchInfo D}
      → stored w ≡ some prev
      → make_nrt_patch json prev new ≡ made info
      → api.patch hostname info.patch w ≡ (ok nrt, w')
      → SameContent nrt new × (stored w' ≡ some nrt)
  pub patch_refused :
      {w w' : W} {patch : D} {e : E}
      → (api.patch hostname patch w ≡ (failed e, w'))
        ⊎ (api.patch hostname patch w ≡ (not_found e, w'))
      → stored w' ≡ stored w

-- The object that the stored one should become.
abbrev pub desired : NrtUpdater → MonitorInfo → Option Nrt → Nrt
desired te info none =
    update_owner_references te.node_getter
      (update_nrt_info te.tm_config (new_nrt te.args.hostname) info)
desired te info (some nrt) =
    update_owner_references te.node_getter (update_nrt_info te.tm_config nrt info)

-- What a send may do to the stored object.
pub data Published {E : Type 0} (te : NrtUpdater) (info : MonitorInfo) (before : Option Nrt)
    (r : Sent E) (after : Option Nrt) : Type 0 where
  published :
      (nrt : Nrt)
      → r ≡ sent nrt
      → SameContent nrt (desired te info before)
      → after ≡ some nrt
      → nrt.name ≡ te.args.hostname
      → Published te info before r after
  refused : (e : SendError E) → r ≡ unsent e → after ≡ before → Published te info before r after

pub Published-before :
    {E : Type 0} (te : NrtUpdater) (info : MonitorInfo) {b b' after : Option Nrt} {r : Sent E}
    → b ≡ b'
    → Published te info b r after
    → Published te info b' r after
Published-before te info {after = after} {r = r} e p = subst (λ o. Published te info o r after) e p

module _ {W D E : Type 0} (json : Json D) (api : Api W D E) (stored : W → Option Nrt) (s : State W)
    (info : MonitorInfo) (f : IsFaithful json api s.updater.args.hostname stored) where
  name-desired-none : (desired s.updater info none).name ≡ s.updater.args.hostname
  unfolding update_owner_references update_nrt_info new_nrt
  name-desired-none = ground arith

  pub name-desired-some :
      (nrt : Nrt)
      → nrt.name ≡ s.updater.args.hostname
      → (desired s.updater info (some nrt)).name ≡ s.updater.args.hostname
  unfolding update_owner_references update_nrt_info
  name-desired-some nrt h = ground arith

  after_update :
      (nrt : Nrt) (w : W) (r : ApiResult E × W)
      → api.update (desired s.updater info (some nrt)) w ≡ r
      → stored w ≡ some nrt
      → nrt.name ≡ s.updater.args.hostname
      → Published s.updater info
          (some nrt)
          (written json api update_op info s r).0
          (stored (written json api update_op info s r).1.server)
  after_update nrt w (ok new, w') e st n =
      let (c, st') = f.update_ok e in published new refl c st' (c.name ∙ name-desired-some nrt n)
  after_update nrt w (not_found x, w') e st n = refused _ refl (f.update_refused (inr e) ∙ st)
  after_update nrt w (failed x, w') e st n = refused _ refl (f.update_refused (inl e) ∙ st)

  after_create :
      (w : W) (r : ApiResult E × W)
      → api.create (desired s.updater info none) w ≡ r
      → stored w ≡ none
      → Published s.updater info none
          (written json api create_op info s r).0
          (stored (written json api create_op info s r).1.server)
  after_create w (ok new, w') e st =
      let (c, st') = f.create_ok e in published new refl c st' (c.name ∙ name-desired-none)
  after_create w (not_found x, w') e st = refused _ refl (f.create_refused (inr e) ∙ st)
  after_create w (failed x, w') e st = refused _ refl (f.create_refused (inl e) ∙ st)

  after_get :
      (r : ApiResult E × W)
      → api.get s.updater.args.hostname s.server ≡ r
      → Published s.updater info
          (stored s.server)
          (send_after_get json api info s r).0
          (stored (send_after_get json api info s r).1.server)
  unfolding send_after_get
  after_get (ok nrt, w) e =
      let (st, st', n) = f.get_ok e in
      Published-before s.updater info (sym st) (after_update nrt w _ refl st' n)
  after_get (not_found x, w) e =
      let (st, st') = f.get_not_found e in
      Published-before s.updater info (sym st) (after_create w _ refl st')
  after_get (failed x, w) e = refused _ refl (f.get_failed e)

  -- Get and update, or get and create where there is no object, publish the content that the stored
  -- object should have, whatever it was; or they fail and leave it. The API server is as
  -- IsFaithful says.
  pub send_object_update-Published :
      Published s.updater info
        (stored s.server)
        (send_object_update json api info s).0
        (stored (send_object_update json api info s).1.server)
  unfolding send_object_update
  send_object_update-Published = after_get (api.get s.updater.args.hostname s.server) refl
