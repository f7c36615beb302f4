-- ===== src/Events/Sources.antt =====
-- What UnlimitedEventSource of pkg/notification writes to its channel.
use resource_topology_export.Base.{
  ◌≡◌, refl, ◌↔◌, ◌⊎◌, inl, inr, true, false, List, [], ◌∷◌, Text, Any, All, Any-map, any→Any,
  Any→any, text_beq_iff, Bool-cases, arith,
}
use resource_topology_export.Base.Int.{lt64}
use resource_topology_export.Exporter.{Times, Event, is_timer}
use resource_topology_export.Events.{
  FsEvent, Source, passes, any_filter, Wake, tick, file_event, watch_error, stop, loop, run,
}

-- The mode of a watched file changed, or it was written.
abbrev pub Touches : FsEvent → Text → Type 0
Touches event path = (event.name ≡ path) × ((event.chmod ≡ true) ⊎ (event.write ≡ true))

passes_iff : (event : FsEvent) (path : Text) → (passes event path ≡ true) ↔ Touches event path
unfolding passes
passes_iff event path = ground (arith, text_beq_iff event.name path)

any_filter_iff :
    (filters : List Text) (event : FsEvent)
    → (any_filter filters event ≡ true) ↔ Any (Touches event) filters
unfolding any_filter
any_filter_iff filters event = (
  (λ h. Any-map _ _ (λ path e. (passes_iff event path).0 e) filters (any→Any _ filters h)),
  λ h. Any→any _ filters (Any-map _ _ (λ path e. (passes_iff event path).1 e) filters h),
)

module _ (t : Times) (es : Source) where
  -- The ticker exists only for a positive interval.
  abbrev pub CanHappen : Wake t → Type 0
  CanHappen (tick ts) = lt64 0 es.sleep_interval ≡ true
  CanHappen _ = Unit

  -- One event for each tick, marked as periodic, and for each change of a watched file, not marked,
  -- in order, up to the stop.
  pub data Emitted : List (Wake t) → List (Event t) → Type 0 where
    ended : Emitted [] []
    stopped : {wakes : List (Wake t)} → Emitted (stop ∷ wakes) []
    errors :
        {wakes : List (Wake t)} {events : List (Event t)}
        → Emitted wakes events
        → Emitted (watch_error ∷ wakes) events
    periodic :
        {ts : t.Time} {e : Event t} {wakes : List (Wake t)} {events : List (Event t)}
        → e.timestamp ≡ ts
        → is_timer t e ≡ true
        → Emitted wakes events
        → Emitted (tick ts ∷ wakes) (e ∷ events)
    reactive :
        {now : t.Time} {event : FsEvent} {e : Event t} {wakes : List (Wake t)}
        {events : List (Event t)}
        → Any (Touches event) es.filters
        → e.timestamp ≡ now
        → is_timer t e ≡ false
        → Emitted wakes events
        → Emitted (file_event now event ∷ wakes) (e ∷ events)
    irrelevant :
        {now : t.Time} {event : FsEvent} {wakes : List (Wake t)} {events : List (Event t)}
        → ¬ Any (Touches event) es.filters
        → Emitted wakes events
        → Emitted (file_event now event ∷ wakes) events

  -- An event without an interval is not periodic.
  unmarked : (now : t.Time) → is_timer t (record { timestamp = now; timer_interval = 0 }) ≡ false
  unfolding is_timer lt64
  unmarked now = refl

  ticks :
      (ts : t.Time)
      → lt64 0 es.sleep_interval ≡ true
      → is_timer t (record { timestamp = ts; timer_interval = es.sleep_interval }) ≡ true
  unfolding is_timer
  ticks ts h = h

  loop-Emitted : (wakes : List (Wake t)) → All CanHappen wakes → Emitted wakes (loop t es wakes)
  unfolding loop
  loop-Emitted [] h = ended
  loop-Emitted (tick ts ∷ wakes) h = periodic refl (ticks ts h.0) (loop-Emitted wakes h.1)
  loop-Emitted (file_event now event ∷ wakes) h = elim (Bool-cases (any_filter es.filters event)) [
    | inl e ↦ rw e (
        reactive ((any_filter_iff es.filters event).0 e) refl (unmarked now)
          (loop-Emitted wakes h.1))
    | inr e ↦
        rw e
          (irrelevant (λ a. cc (e, (any_filter_iff es.filters event).1 a)) (loop-Emitted wakes h.1))
  ]
  loop-Emitted (watch_error ∷ wakes) h = errors (loop-Emitted wakes h.1)
  loop-Emitted (stop ∷ wakes) h = stopped

  -- Run writes an event at its start, not marked as periodic; then one for each tick, marked, and
  -- one, not marked, for each change of mode or write of a watched file, in order; and none after
  -- the stop. Ticks come only when the interval is positive.
  pub run-Emitted :
      (now : t.Time) (wakes : List (Wake t))
      → All CanHappen wakes
      → (first : Event t) × (events : List (Event t)) × (run t es now wakes ≡ first ∷ events)
        × (is_timer t first ≡ false)
        × Emitted wakes events
  unfolding run
  run-Emitted now wakes h = (_, _, refl, unmarked now, loop-Emitted wakes h)
