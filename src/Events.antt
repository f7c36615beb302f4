-- ===== src/Events.antt =====
-- pkg/notification/notification.go: events from a timer and from watched files.
pub mod Limiter
pub mod Sources
use resource_topology_export.Base.{
  ◌≡◌, refl, Bool, true, false, ◌&&◌, ◌||◌, not, Option, none, some, List, [], ◌∷◌, ◌++◌, Text, ℕ,
  any, text_beq, nat_beq, if◌then◌else◌,
}
use resource_topology_export.Base.Int.{Int64, is_negative, lt64}
use resource_topology_export.Exporter.{Times, Event}

-- fsnotify.Event, with the bits of its operation that the code tests.
pub record FsEvent : Type 0 where
  pub name : Text
  pub chmod : Bool
  pub write : Bool

-- UnlimitedEventSource without its channels: each filter is given by the path that it watches.
pub record Source : Type 0 where
  pub sleep_interval : Int64
  pub filters : List Text

abbrev pub fresh : Source
fresh = record { sleep_interval = 0; filters = [] }

-- The filter that AddFile appends.
unfoldable pub passes : FsEvent → Text → Bool
passes event path = if text_beq event.name path then event.chmod || event.write else false

-- AnyFilter
unfoldable pub any_filter : List Text → FsEvent → Bool
any_filter filters event = any (passes event) filters

pub data Setting : Type 0 where
  set : Source → Setting
  negative_interval : Setting
  already_set : Setting

-- SetInterval
unfoldable pub set_interval : Int64 → Source → Setting
set_interval interval es =
    if is_negative interval
    then negative_interval
    else if lt64 0 es.sleep_interval
    then already_set
    else set (record es { sleep_interval = interval })

-- What the file system answers to ensureNotifyFilePath: each Bool says whether the call failed.
pub record FileAnswers : Type 0 where
  pub mkdir_failed : Bool
  pub stat : Option (ℕ × Bool)  -- the size, and whether it is a regular file
  pub create_failed : Bool
  pub close_failed : Bool

-- ensureNotifyFilePath: whether it fails.
unfoldable pub ensure_notify_file_path : FileAnswers → Bool
ensure_notify_file_path fs =
    let unusable : Bool = elim fs.stat [
      | none ↦ false
      | some (size, regular) ↦ not (nat_beq size 0) || not regular
    ] in
    if fs.mkdir_failed
    then true
    else if unusable
    then true
    else if fs.create_failed
    then true
    else fs.close_failed

-- AddFile: none is an error. A watch that cannot be added is only logged.
unfoldable pub add_file : FileAnswers → Text → Source → Option Source
add_file fs [] es = some es
add_file fs (c ∷ path) es =
    if ensure_notify_file_path fs
    then none
    else some (record es { filters = es.filters ++ (c ∷ path) ∷ [] })

module _ (t : Times) where
  -- What Run selects on. A file event comes with the time at which it is handled.
  pub data Wake : Type 0 where
    tick : t.Time → Wake
    file_event : t.Time → FsEvent → Wake
    watch_error : Wake
    stop : Wake

  -- The loop of Run: the events that it writes to the channel.
  unfoldable pub loop : Source → List Wake → List (Event t)
  loop es [] = []
  loop es (tick ts ∷ wakes) =
      record { timestamp = ts; timer_interval = es.sleep_interval } ∷ loop es wakes
  loop es (file_event now event ∷ wakes) =
      let rest = loop es wakes in
      if any_filter es.filters event
      then record { timestamp = now; timer_interval = 0 } ∷ rest
      else rest
  loop es (watch_error ∷ wakes) = loop es wakes
  loop es (stop ∷ wakes) = []

  -- Run, with the time at which it starts.
  unfoldable pub run : Source → t.Time → List Wake → List (Event t)
  run es now wakes = record { timestamp = now; timer_interval = 0 } ∷ loop es wakes
