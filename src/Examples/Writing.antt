-- ===== src/Examples/Writing.antt =====
-- The updater against a server that stores what it is given, and the observer.
use resource_topology_export.Base.{
  ℕ, ◌-◌, ◌≡◌, refl, sym, ap, ◌∙◌, ◌⊎◌, inl, inr, true, false, Option, none, some, List, [], ◌∷◌,
  Text, text_beq, text_beq_iff, if◌then◌else◌, arith,
}
use resource_topology_export.Base.Strings.{codes}
use resource_topology_export.Podres.{PodResources}
use resource_topology_export.Middleware.{Reply}
use resource_topology_export.Monitor.Resources.{ResourceMonitor}
use resource_topology_export.Monitor.Scan.{ScanArgs, PodFingerprint, scan, scan_pods}
use resource_topology_export.Updater.Object.{Nrt, MonitorInfo, disabled}
use resource_topology_export.Updater.{
  Args, Json, NrtPatchInfo, MadePatch, made, make_nrt_patch, ApiResult, ok, not_found, failed, Api,
  State, send_object_update, send_object_patch, run,
}
use resource_topology_export.Updater.Logged.{Call, call, get_of, patch_of, logged}
use resource_topology_export.Updater.Counting.Bounded.{IsBounded, run-IsBounded}
use resource_topology_export.Updater.Sync.{
  SameContent, IsFaithful, Published, send_object_update-Published,
}
use resource_topology_export.Updater.Sync.Patch.{InSync, Kept, send_object_patch-Kept}
use resource_topology_export.Exporter.{Times, Event, is_timer, observe}
use resource_topology_export.Exporter.Observing.{Outcome, observe-Outcome}
use resource_topology_export.Exporter.Publishing.{handle_event, Shown, handle_event-Shown}

-- Documents are the objects themselves, and a patch is the new object.
abbrev json : Json Nrt
json = record { marshal = λ nrt. some nrt; three_way_patch = λ a b c. some b; size = λ d. 100 }

-- The answer to a get: an object under another name is not given back.
abbrev found : Text → Option Nrt → ApiResult ℕ
found name none = not_found 404
found name (some nrt) = if text_beq nrt.name name then ok nrt else failed 500

abbrev server : Api (Option Nrt) Nrt ℕ
server = record {
  get = λ name w. (found name w, w);
  create = λ new w. (ok new, some new);
  update = λ new w. (ok new, some new);
  patch = λ name patch w. (ok patch, some patch);
}

abbrev stored : Option Nrt → Option Nrt
stored w = w

same_refl : (a b : Nrt) → a ≡ b → SameContent a b
same_refl a b e = record {
  name = ap (λ (x : Nrt). x.name) e;
  annotations = ap (λ (x : Nrt). x.annotations) e;
  owner_references = ap (λ (x : Nrt). x.owner_references) e;
  zones = ap (λ (x : Nrt). x.zones) e;
  attributes = ap (λ (x : Nrt). x.attributes) e;
}

result_of : {a b : ApiResult ℕ × Option Nrt} → a ≡ b → a.0 ≡ b.0
result_of e = ap {A = ApiResult ℕ × Option Nrt} (λ t. t.0) e

state_of : {a b : ApiResult ℕ × Option Nrt} → a ≡ b → a.1 ≡ b.1
state_of e = ap {A = ApiResult ℕ × Option Nrt} (λ t. t.1) e

found_ok :
    (name : Text) (w : Option Nrt) {nrt : Nrt}
    → found name w ≡ ok nrt
    → (w ≡ some nrt) × (nrt.name ≡ name)
found_ok name none e = absurd (cc e)
found_ok name (some a) {nrt} e =
    let q : a ≡ nrt = ground arith in
    let n : a.name ≡ name = ground (arith, text_beq_iff a.name name) in
    (ap some q, ap (λ (x : Nrt). x.name) (sym q) ∙ n)

found-none : (name : Text) (w : Option Nrt) {x : ℕ} → found name w ≡ not_found x → w ≡ none
found-none name none e = refl
found-none name (some a) e = ground arith

ok_of : {a b : Nrt} → ◌≡◌ {A = ApiResult ℕ} (ok a) (ok b) → a ≡ b
ok_of e = cc e

made_patch :
    (prev new : Nrt) (info : NrtPatchInfo Nrt)
    → make_nrt_patch json prev new ≡ made info
    → info.patch ≡ new
unfolding make_nrt_patch
made_patch prev new info e =
    let q : ◌≡◌ {A = MadePatch Nrt} (made (record { patch = new; full_obj_bytes = 100 }))
        (made info) =
      e in
    let p : record { patch = new; full_obj_bytes = 100 } ≡ info = cc q in
    sym (ap (λ (x : NrtPatchInfo Nrt). x.patch) p)

refused_absurd :
    {nrt : Nrt} {v w : Option Nrt} {e : ℕ}
    → (◌≡◌ {A = ApiResult ℕ × Option Nrt} (ok nrt, v) (failed e, w))
      ⊎ (◌≡◌ {A = ApiResult ℕ × Option Nrt} (ok nrt, v) (not_found e, w))
    → ⊥
refused_absurd (inl h) = cc (result_of h)
refused_absurd (inr h) = cc (result_of h)

server-IsFaithful : IsFaithful json server (codes "n1") stored
server-IsFaithful = record {
  get_ok = λ {w} {w'} {nrt} h.
      let (st, n) = found_ok (codes "n1") w (result_of h) in (st, sym (state_of h) ∙ st, n);
  get_not_found = λ {w} {w'} {e} h.
      let st = found-none (codes "n1") w (result_of h) in (st, sym (state_of h) ∙ st);
  get_failed = λ h. sym (state_of h);
  create_ok = λ {w} {w'} {new} {nrt} h.
      let q = ok_of (result_of h) in (same_refl nrt new (sym q), sym (state_of h) ∙ ap some q);
  create_refused = λ h. absurd (refused_absurd h);
  update_ok = λ {w} {w'} {new} {nrt} h.
      let q = ok_of (result_of h) in (same_refl nrt new (sym q), sym (state_of h) ∙ ap some q);
  update_refused = λ h. absurd (refused_absurd h);
  patch_ok = λ {w} {w'} {prev} {new} {nrt} {info} st m h.
      let q = ok_of (result_of h) in
      (same_refl nrt new (sym q ∙ made_patch prev new info m), sym (state_of h) ∙ ap some q);
  patch_refused = λ h. absurd (refused_absurd h);
}

abbrev args : Args
args = record {
  no_publish = false;
  oneshot = false;
  hostname = codes "n1";
  patch_mode = true;
  patch_resync = 3;
}

abbrev info : MonitorInfo
info = record {
  timer = true;
  zones = record { name = codes "node-0"; type = codes "Node"; costs = []; resources = [] } ∷ [];
  attributes = [];
  annotations = [];
}

abbrev written_before : Nrt
written_before = record {
  name = codes "n1";
  annotations = (codes "owner", codes "team") ∷ [];
  owner_references = [];
  zones = [];
  attributes = [];
  metadata = [];
}

-- The updater after two patches, with the object that the server stores.
abbrev before : State (Option Nrt)
before = record {
  updater = record {
    args = args;
    tm_config = record { policy = codes "single-numa-node"; scope = codes "pod" };
    node_getter = disabled;
    prev_nrt = some written_before;
    patch_count = 2;
  };
  server = some written_before;
  metrics = [];
}

before-InSync : InSync before.updater (stored before.server)
before-InSync = record {
  remembered =
      λ prev e. let q : written_before ≡ prev = cc e in (e, ap (λ (x : Nrt). x.name) (sym q));
}

-- The same, with the calls so far: two patches.
abbrev before_logged : State (List (Call Nrt) × Option Nrt)
before_logged = record {
  updater = before.updater;
  server = (
    call (patch_of (codes "n1") written_before) true
        ∷ call (patch_of (codes "n1") written_before) true
        ∷ call (get_of (codes "n1")) true
        ∷ [],
    some written_before,
  );
  metrics = [];
}

before-IsBounded : IsBounded before_logged.updater before_logged.server.0
before-IsBounded = record {
  patches = refl;
  positive = omega arith;
  fits = omega arith;
  is_counted = refl;
  bounded = omega arith;
}

send_object_update-Published_example :
    Published before.updater info
      (stored before.server)
      (send_object_update json server info before).0
      (stored (send_object_update json server info before).1.server)
send_object_update-Published_example =
    send_object_update-Published json server stored before info server-IsFaithful

send_object_patch-Kept_example :
    Kept before.updater info
      (stored before.server)
      (send_object_patch json server info before).0
      (send_object_patch json server info before).1.updater
      (stored (send_object_patch json server info before).1.server)
send_object_patch-Kept_example =
    send_object_patch-Kept json server stored before info server-IsFaithful before-InSync

run-IsBounded_example :
    IsBounded
      (run json (logged server) (info ∷ info ∷ info ∷ []) before_logged).1.updater
      (run json (logged server) (info ∷ info ∷ info ∷ []) before_logged).1.server.0
run-IsBounded_example =
    run-IsBounded json server (info ∷ info ∷ info ∷ []) before_logged before-IsBounded

-- Seconds, and no rounding.
abbrev seconds : Times
seconds = record {
  Time = ℕ;
  sub = λ a b. a - b;
  round_second = λ d. d;
  duration_text = λ d. d ∷ [];
}

abbrev tick : Event seconds
tick = record { timestamp = 70; timer_interval = 60 }

abbrev no_fingerprint : PodFingerprint
no_fingerprint = record {
  attribute = codes "fp";
  attribute_method = codes "method";
  annotation = codes "fp";
  method_all = codes "all";
  sign = λ prs. codes "s";
}

abbrev scan_args : ScanArgs
scan_args = record {
  namespace = [];
  pod_set_fingerprint = true;
  pod_set_fingerprint_method = codes "all";
}

abbrev monitor : ResourceMonitor
monitor = record {
  node_name = codes "n1";
  topo = [];
  core_id_to_node_id_map = [];
  node_capacity = [];
  node_allocatable = [];
}

abbrev refusal : Reply ℕ (List PodResources)
refusal = record { resp = []; err = some 5 }

observe-Outcome_example :
    Outcome true
      (is_timer seconds tick)
      (scan_pods no_fingerprint scan_args monitor [] [])
      refusal
      (observe seconds true 10 tick (scan no_fingerprint scan_args monitor [] refusal)).1
observe-Outcome_example =
    observe-Outcome seconds no_fingerprint scan_args monitor [] true 10 tick refusal

abbrev answer : Reply ℕ (List PodResources)
answer = record { resp = []; err = none }

handle_event-Shown_example :
    Shown before.updater
      (scan_pods no_fingerprint scan_args monitor [] [])
      (stored before.server)
      (stored
        (handle_event json server seconds no_fingerprint scan_args monitor [] false 10 tick answer
          before).1.server)
      (handle_event json server seconds no_fingerprint scan_args monitor [] false 10 tick answer
        before).0
handle_event-Shown_example =
    handle_event-Shown json server stored before server-IsFaithful before-InSync refl seconds
      no_fingerprint scan_args monitor [] false 10 tick answer refl
