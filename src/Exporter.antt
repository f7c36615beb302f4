-- ===== src/Exporter.antt =====
-- pkg/resourcetopologyexporter: the observer that scans on every event, and the set-up.
pub mod Observing
pub mod Publishing
pub mod Settings
pub mod Starting
use resource_topology_export.Base.{
  ◌≡◌, Bool, true, false, Option, none, some, List, [], ◌∷◌, Text, ℕ, text_eq, if◌then◌else◌,
}
use resource_topology_export.Base.Int.{Int64, is_negative, lt64}
use resource_topology_export.Base.Dict.{Dict, put}
use resource_topology_export.Base.Strings.{codes}
use resource_topology_export.Middleware.{Reply}
use resource_topology_export.Monitor.Scan.{Zone, AttributeInfo, ScanResponse}
use resource_topology_export.Updater.Object.{MonitorInfo}

-- Go's package time, as far as the observer uses it: instants, their difference, rounding to a
-- second, and the text of a duration.
pub record Times : Type 1 where
  pub Time : Type 0
  pub sub : Time → Time → Int64
  pub round_second : Int64 → Int64
  pub duration_text : Int64 → Text

-- clampTime
unfoldable pub clamp_time : Int64 → Int64
clamp_time t = if is_negative t then 0 else t

-- k8sannotations.SleepDuration and UpdateInterval
abbrev pub sleep_duration : Text
sleep_duration = codes "k8stopoawareschedwg/sleep-duration"

abbrev pub update_interval : Text
update_interval = codes "k8stopoawareschedwg/update-interval"

-- What an event makes the observer do: a panic; or the condition that it sets, true on success, with
-- the info that it sends.
pub data Observed : Type 0 where
  panicked : Observed
  scan_failed : Observed
  sent_info : MonitorInfo → Observed

module _ (t : Times) where
  open t use {Time, sub, round_second, duration_text}

  -- notification.Event
  pub record Event : Type 0 where
    pub timestamp : Time
    pub timer_interval : Int64

  -- Event.IsTimer
  unfoldable pub is_timer : Event → Bool
  is_timer ev = lt64 0 ev.timer_interval

  -- The two writes to the annotations; a write to a nil map panics.
  unfoldable pub expose :
      Bool → Int64 → Event → Option (Dict Text Text) → Option (Option (Dict Text Text))
  expose false diff ev annotations = some annotations
  expose true diff ev none = none
  expose true diff ev (some annotations) = some (
      some (
        put (put annotations sleep_duration (duration_text (clamp_time (round_second diff))))
          update_interval (duration_text (clamp_time ev.timer_interval))))

  -- A nil map of annotations reads as an empty one.
  abbrev entries : Option (Dict Text Text) → Dict Text Text
  entries none = []
  entries (some annotations) = annotations

  abbrev conclude :
      {E : Type 0} → Bool → Reply E ScanResponse → Option (Option (Dict Text Text)) → Observed
  conclude timer reply none = panicked
  conclude timer reply (some annotations) = elim reply.err [
    | some e ↦ scan_failed
    | none ↦ sent_info (record {
      timer = timer;
      zones = reply.resp.zones;
      attributes = reply.resp.attributes;
      annotations = entries annotations;
    })
  ]

  -- The case of ResourceObserver.Run that takes an event: the new time of the last wakeup, and what
  -- it does.
  unfoldable pub observe :
      {E : Type 0} → Bool → Time → Event → Reply E ScanResponse → Time × Observed
  unfolding expose is_timer
  observe expose_timing last ev reply = (
    ev.timestamp,
    conclude (is_timer ev) reply
        (expose expose_timing (sub ev.timestamp last) ev reply.resp.annotations),
  )
