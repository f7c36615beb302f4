-- ===== src/Updater/Logged.antt =====
-- The calls that pkg/nrtupdater makes of the API server, noted beside the state of the server.
use resource_topology_export.Base.{ℕ, suc, ◌≡◌, Bool, true, false, some, List, [], ◌∷◌, ◌++◌, Text}
use resource_topology_export.Base.Int.{add64}
use resource_topology_export.Updater.Object.{
  Nrt, MonitorInfo, new_nrt, update_nrt_info, update_owner_references,
}
use resource_topology_export.Updater.{
  NrtUpdater, Json, NrtPatchInfo, made, make_nrt_patch, ApiResult, ok, not_found, failed, Api,
  SendError, Sent, sent, unsent, needs_resync,
}

pub data Request (D : Type 0) : Type 0 where
  get_of : Text → Request D
  create_of : Nrt → Request D
  update_of : Nrt → Request D
  patch_of : Text → D → Request D

-- A request, and whether the server accepted it.
pub data Call (D : Type 0) : Type 0 where
  call : Request D → Bool → Call D

abbrev pub accepted : {E : Type 0} → ApiResult E → Bool
accepted (ok nrt) = true
accepted (not_found e) = false
accepted (failed e) = false

module _ {W D E : Type 0} where
  -- A call is noted beside the state of the server, the last one first.
  abbrev pub noted : Request D → List (Call D) → ApiResult E × W → ApiResult E × (List (Call D) × W)
  noted request log answer = (answer.0, (call request (accepted answer.0) ∷ log, answer.1))

  abbrev pub logged : Api W D E → Api (List (Call D) × W) D E
  logged api = record {
    get = λ name s. noted (get_of name) s.0 (api.get name s.1);
    create = λ new s. noted (create_of new) s.0 (api.create new s.1);
    update = λ new s. noted (update_of new) s.0 (api.update new s.1);
    patch = λ name patch s. noted (patch_of name patch) s.0 (api.patch name patch s.1);
  }

module _ {D : Type 0} where
  abbrev counting : Request D → Bool → ℕ → ℕ
  counting (get_of name) b n = n
  counting (create_of new) true n = 0
  counting (create_of new) false n = n
  counting (update_of new) true n = 0
  counting (update_of new) false n = n
  counting (patch_of name patch) true n = suc n
  counting (patch_of name patch) false n = n

  -- The accepted patches since the last accepted create or update.
  abbrev pub recent : List (Call D) → ℕ
  recent [] = 0
  recent (call request b ∷ calls) = counting request b (recent calls)

-- The content that the updater makes of an object.
abbrev pub wanted : NrtUpdater → MonitorInfo → Nrt → Nrt
wanted te info nrt = update_owner_references te.node_getter (update_nrt_info te.tm_config nrt info)

module _ {D : Type 0} (json : Json D) (te : NrtUpdater) (info : MonitorInfo) where
  -- The patch from the object that the updater remembers.
  pub record Patch (prev : Nrt) (p : NrtPatchInfo D) : Type 0 where
    pub is_remembered : te.prev_nrt ≡ some prev
    pub is_made : make_nrt_patch json prev (wanted te info prev) ≡ made p

  -- The calls before get and update: none where a resync is due or there is no patch, or a patch that
  -- was refused.
  pub data Attempted : List (Call D) → Type 0 where
    resync_due : needs_resync te ≡ true → Attempted []
    no_patch_there :
        needs_resync te ≡ false
        → ((prev : Nrt) (p : NrtPatchInfo D) → ¬ Patch prev p)
        → Attempted []
    patch_refused :
        {prev : Nrt} {p : NrtPatchInfo D}
        → needs_resync te ≡ false
        → Patch prev p
        → Attempted (call (patch_of prev.name p.patch) false ∷ [])

  -- A get with an update or, where there is no object, with a create, which are accepted.
  pub data Put : List (Call D) → Type 0 where
    updated :
        (old : Nrt)
        → Put
            (call (update_of (wanted te info old)) true ∷ call (get_of te.args.hostname) true ∷ [])
    created : Put (
        call (create_of (wanted te info (new_nrt te.args.hostname))) true
        ∷ call (get_of te.args.hostname) false
        ∷ [])

  pub data NotPut : List (Call D) → Type 0 where
    not_read : NotPut (call (get_of te.args.hostname) false ∷ [])
    not_updated :
        (old : Nrt)
        → NotPut
            (call (update_of (wanted te info old)) false ∷ call (get_of te.args.hostname) true ∷ [])
    not_created : NotPut (
        call (create_of (wanted te info (new_nrt te.args.hostname))) false
        ∷ call (get_of te.args.hostname) false
        ∷ [])

-- How sendObjectPatch leaves the updater and the calls.
pub data Sending {D E : Type 0} (json : Json D) (info : MonitorInfo) (te : NrtUpdater)
    (log : List (Call D)) (r : Sent E) (te' : NrtUpdater) (log' : List (Call D)) : Type 0 where
  by_patch :
      (nrt prev : Nrt) (p : NrtPatchInfo D)
      → needs_resync te ≡ false
      → Patch json te info prev p
      → r ≡ sent nrt
      → te' ≡ record te { prev_nrt = some nrt; patch_count = add64 te.patch_count 1 }
      → log' ≡ call (patch_of prev.name p.patch) true ∷ log
      → Sending json info te log r te' log'
  by_update :
      (nrt : Nrt) (attempts calls : List (Call D))
      → Attempted json te info attempts
      → Put json te info calls
      → r ≡ sent nrt
      → te' ≡ record te { prev_nrt = some nrt; patch_count = 0 }
      → log' ≡ calls ++ (attempts ++ log)
      → Sending json info te log r te' log'
  by_none :
      (e : SendError E) (attempts calls : List (Call D))
      → Attempted json te info attempts
      → NotPut json te info calls
      → r ≡ unsent e
      → te' ≡ te
      → log' ≡ calls ++ (attempts ++ log)
      → Sending json info te log r te' log'
