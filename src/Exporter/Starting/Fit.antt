-- ===== src/Exporter/Starting/Fit.antt =====
-- What Execute of pkg/resourcetopologyexporter starts is fit for the theorems on its parts.
use mathlib.Core.Path.{subst}
use mathlib.Core.List.{append-nil}
use resource_topology_export.Base.{
  ◌≡◌, ◌≢◌, ◌↔◌, refl, sym, ap, ◌∙◌, inl, inr, true, false, Option, none, some, List, [], ◌∷◌, ◌++◌,
  Text, ◌<◌, arith, Result, ok, failed, Bool-cases,
}
use resource_topology_export.Base.Int.{
  Int64, lt64, is_negative, NonNegative, IsPositive, lt64_zero_iff,
}
use resource_topology_export.Updater.Object.{TmConfig, NodeGetter}
use resource_topology_export.Updater.{Args}
use resource_topology_export.Updater.Counting.Bounded.{IsBounded}
use resource_topology_export.Monitor.Starting.{
  Started, ready, no_topology, no_resources, no_informer,
}
use resource_topology_export.Events.{
  Source, fresh, Setting, set, negative_interval, already_set, set_interval, FileAnswers, add_file,
  ensure_notify_file_path,
}
use resource_topology_export.Exporter.Settings.{
  Settings, settings, config_error, no_policy, get_topology_manager_settings,
}
use resource_topology_export.Exporter.Starting.{
  ExecuteArgs, EventSource, is_limited, limited_source, after_interval, create_event_source,
  new_nrt_updater, Running, running, Surroundings, getter_for, injector_for, with_monitor,
  with_events, with_injector, with_getter, with_settings, execute,
}
use resource_topology_export.Exporter.Starting.Parts.{
  HasSettings, HasGetter, HasInjector, get_topology_manager_settings-HasSettings,
  getter_for-HasGetter, injector_for-HasInjector,
}

-- The event source, which watches the notify file, if one is given.
pub record IsSource (args : ExecuteArgs) (events : EventSource) : Type 0 where
  pub not_negative : is_negative args.sleep_interval ≡ false
  pub interval : events.source.sleep_interval ≡ args.sleep_interval
  pub unwatched : args.notify_file_path ≡ [] → events.source.filters ≡ []
  pub watched : args.notify_file_path ≢ [] → events.source.filters ≡ args.notify_file_path ∷ []
  pub limiter :
      (events.decorated ≡ true)
      ↔ (IsPositive args.max_events_per_time_unit × IsPositive args.time_unit_to_limit_events)

-- What holds of the parts when Execute starts them.
pub record IsStarted {E : Type 0} (s : Surroundings E) (nrt_args : Args) (args : ExecuteArgs)
    (r : Running) : Type 0 where
  pub updater_args : r.updater.args ≡ nrt_args
  pub nothing_remembered : r.updater.prev_nrt ≡ none
  pub bounded :
      nrt_args.patch_mode ≡ true
      → 0 < nrt_args.patch_resync
      → NonNegative nrt_args.patch_resync
      → IsBounded {D = Text} r.updater []
  pub has_settings : HasSettings s.kubelet_config args.tm r.updater.tm_config
  pub has_getter : HasGetter s.list_nodes args.add_nrt_owner_enable r.updater.node_getter
  pub has_injector : HasInjector s.lookup args.pod_readiness_enable r.injector
  pub has_source : IsSource args r.events
  pub has_monitor : s.monitor ≡ ready r.monitor

set_interval-fresh :
    (interval : Int64) (es : Source)
    → set_interval interval fresh ≡ set es
    → (is_negative interval ≡ false) × (es ≡ record fresh { sleep_interval = interval })
unfolding set_interval lt64
set_interval-fresh interval es h = elim (Bool-cases (is_negative interval)) [
  | inl b ↦ let bad = rw (set_interval, b) at h in cc
  | inr b ↦
      let made : Path Setting (set (record fresh { sleep_interval = interval })) (set es) =
        rw (set_interval, b) at h in
      let same : record fresh { sleep_interval = interval } ≡ es = cc in (b, sym same)
]

abbrev watching : Text → List Text
watching [] = []
watching (c ∷ path) = (c ∷ path) ∷ []

add_file_lem :
    (fs : FileAnswers) (path : Text) (es new : Source)
    → add_file fs path es ≡ some new
    → new ≡ record es { filters = es.filters ++ watching path }
unfolding add_file
add_file_lem fs [] es new h =
    let same : es ≡ new = cc h in
    sym same ∙ ap (λ (l : List Text). record es { filters = l }) (sym (append-nil es.filters))
add_file_lem fs (c ∷ path) es new h = elim (Bool-cases (ensure_notify_file_path fs)) [
  | inl b ↦ let bad = rw (add_file, b) at h in cc
  | inr b ↦
      let made : Path (Option Source) (some (record es { filters = es.filters ++ (c ∷ path) ∷ [] }))
          (some new) =
        rw (add_file, b) at h in
      let same : record es { filters = es.filters ++ (c ∷ path) ∷ [] } ≡ new = cc in sym same
]

unwatched_lem : (path : Text) → path ≡ [] → watching path ≡ []
unwatched_lem [] h = refl
unwatched_lem (c ∷ path) h = absurd (cc h)

watched_lem : (path : Text) → path ≢ [] → watching path ≡ path ∷ []
watched_lem [] h = absurd (h refl)
watched_lem (c ∷ path) h = refl

is_limited_iff :
    (args : ExecuteArgs)
    → (is_limited args ≡ true)
      ↔ (IsPositive args.max_events_per_time_unit × IsPositive args.time_unit_to_limit_events)
is_limited_iff args =
    let n = lt64_zero_iff args.max_events_per_time_unit in
    let u = lt64_zero_iff args.time_unit_to_limit_events in
    (
      (λ h. (n.0 (ground arith), u.0 (ground arith))),
      λ h. let a = n.1 h.0 in let b = u.1 h.1 in ground arith,
    )

-- The source that createEventSource makes of the arguments.
abbrev source_of : ExecuteArgs → Source
source_of args = record fresh {
  sleep_interval = args.sleep_interval;
  filters = watching args.notify_file_path;
}

module _ (fs : FileAnswers) (args : ExecuteArgs) (events : EventSource) where
  limited_source-IsSource :
      (o : Option Source) (es : Source)
      → is_negative args.sleep_interval ≡ false
      → es ≡ record fresh { sleep_interval = args.sleep_interval }
      → add_file fs args.notify_file_path es ≡ o
      → limited_source args o ≡ some events
      → IsSource args events
  limited_source-IsSource none es n q a h = absurd (cc h)
  limited_source-IsSource (some new) es n q a h =
      let same : record { source = new; decorated = is_limited args } ≡ events = cc h in
      let made : new ≡ source_of args =
        add_file_lem fs args.notify_file_path es new a
        ∙ ap (λ (e : Source). record e { filters = e.filters ++ watching args.notify_file_path })
            q in
      subst (IsSource args)
        (ap (λ (e : Source). record { source = e; decorated = is_limited args }) (sym made) ∙ same)
        (record {
          not_negative = n;
          interval = refl;
          unwatched = unwatched_lem args.notify_file_path;
          watched = watched_lem args.notify_file_path;
          limiter = is_limited_iff args;
        })

  after_interval-IsSource :
      (r : Setting)
      → set_interval args.sleep_interval fresh ≡ r
      → after_interval fs args r ≡ some events
      → IsSource args events
  after_interval-IsSource (set es) g h =
      let (n, q) = set_interval-fresh args.sleep_interval es g in
      limited_source-IsSource (add_file fs args.notify_file_path es) es n q refl h
  after_interval-IsSource negative_interval g h = absurd (cc h)
  after_interval-IsSource already_set g h = absurd (cc h)

  create_event_source-IsSource : create_event_source fs args ≡ some events → IsSource args events
  unfolding create_event_source
  create_event_source-IsSource h =
      after_interval-IsSource (set_interval args.sleep_interval fresh) refl h

module _ {E : Type 0} (s : Surroundings E) (nrt_args : Args) (args : ExecuteArgs)
    (r : Running) where
  with_monitor-IsStarted :
      (tm : TmConfig) (getter : NodeGetter) (injector : Option (Text × Text)) (events : EventSource)
      (started : Started E)
      → s.monitor ≡ started
      → get_topology_manager_settings s.kubelet_config args.tm ≡ settings tm
      → getter_for s nrt_args args args.add_nrt_owner_enable ≡ ok getter
      → injector_for s nrt_args args args.pod_readiness_enable ≡ some injector
      → IsSource args events
      → with_monitor s nrt_args args tm getter injector events started ≡ running r
      → IsStarted s nrt_args args r
  unfolding new_nrt_updater
  with_monitor-IsStarted tm getter injector events (ready rm) m t g i e h =
      let same : record {
        updater = new_nrt_updater getter nrt_args tm;
        injector = injector;
        events = events;
        monitor = rm;
      }
          ≡ r =
        cc h in
      rw (sym same) (record {
        updater_args = refl;
        nothing_remembered = refl;
        bounded = λ on p f. record {
          patches = on;
          positive = p;
          fits = f;
          is_counted = refl;
          bounded = omega arith;
        };
        has_settings = get_topology_manager_settings-HasSettings s.kubelet_config args.tm tm t;
        has_getter = getter_for-HasGetter s nrt_args args args.add_nrt_owner_enable getter g;
        has_injector =
            injector_for-HasInjector s nrt_args args args.pod_readiness_enable injector i;
        has_source = e;
        has_monitor = m;
      })
  with_monitor-IsStarted tm getter injector events (no_topology x) m t g i e h = absurd (cc h)
  with_monitor-IsStarted tm getter injector events (no_resources x) m t g i e h = absurd (cc h)
  with_monitor-IsStarted tm getter injector events (no_informer x) m t g i e h = absurd (cc h)

  with_events-IsStarted :
      (tm : TmConfig) (getter : NodeGetter) (injector : Option (Text × Text))
      (o : Option EventSource)
      → get_topology_manager_settings s.kubelet_config args.tm ≡ settings tm
      → getter_for s nrt_args args args.add_nrt_owner_enable ≡ ok getter
      → injector_for s nrt_args args args.pod_readiness_enable ≡ some injector
      → create_event_source s.files args ≡ o
      → with_events s nrt_args args tm getter injector o ≡ running r
      → IsStarted s nrt_args args r
  with_events-IsStarted tm getter injector none t g i e h = absurd (cc h)
  with_events-IsStarted tm getter injector (some events) t g i e h =
      with_monitor-IsStarted tm getter injector events s.monitor refl t g i
        (create_event_source-IsSource s.files args events e) h

  with_injector-IsStarted :
      (tm : TmConfig) (getter : NodeGetter) (o : Option (Option (Text × Text)))
      → get_topology_manager_settings s.kubelet_config args.tm ≡ settings tm
      → getter_for s nrt_args args args.add_nrt_owner_enable ≡ ok getter
      → injector_for s nrt_args args args.pod_readiness_enable ≡ o
      → with_injector s nrt_args args tm getter o ≡ running r
      → IsStarted s nrt_args args r
  with_injector-IsStarted tm getter none t g i h = absurd (cc h)
  with_injector-IsStarted tm getter (some injector) t g i h =
      with_events-IsStarted tm getter injector (create_event_source s.files args) t g i refl h

  with_getter-IsStarted :
      (tm : TmConfig) (o : Result E NodeGetter)
      → get_topology_manager_settings s.kubelet_config args.tm ≡ settings tm
      → getter_for s nrt_args args args.add_nrt_owner_enable ≡ o
      → with_getter s nrt_args args tm o ≡ running r
      → IsStarted s nrt_args args r
  with_getter-IsStarted tm (failed e) t g h = absurd (cc h)
  with_getter-IsStarted tm (ok getter) t g h = with_injector-IsStarted tm getter _ t g refl h

  with_settings-IsStarted :
      (o : Settings E)
      → get_topology_manager_settings s.kubelet_config args.tm ≡ o
      → with_settings s nrt_args args o ≡ running r
      → IsStarted s nrt_args args r
  with_settings-IsStarted (settings tm) t h = with_getter-IsStarted tm _ t refl h
  with_settings-IsStarted (config_error e) t h = absurd (cc h)
  with_settings-IsStarted no_policy t h = absurd (cc h)

  -- What Execute starts, when it does: an updater with the given arguments that remembers nothing, so
  -- that in patch mode with a positive resync limit its count is as run-IsBounded asks for; with the
  -- topology manager's settings that are given, or, where the policy or the scope is not, those of the
  -- kubelet's file; and with a node getter that knows exactly the nodes of the API server if owners are
  -- to be set, and none otherwise. Exactly if pod readiness is on there is an injector, with the
  -- identity from the environment. The event source has the given interval, which is not negative,
  -- watches exactly the notify file, if one is given, and has a rate limiter exactly if both of its
  -- parameters are positive. The monitor is the one that was made.
  pub execute-IsStarted : execute s nrt_args args ≡ running r → IsStarted s nrt_args args r
  unfolding execute
  execute-IsStarted h = with_settings-IsStarted _ refl h
