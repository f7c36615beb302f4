-- ===== src/Exporter/Observing.antt =====
-- What the observer does on an event.
use resource_topology_export.Base.{
  ◌≡◌, refl, inl, inr, Bool, true, false, none, some, List, [], text_eq, Bool-cases, Option-cases,
}
use resource_topology_export.Podres.{PodResources}
use resource_topology_export.Middleware.{Reply}
use resource_topology_export.Monitor.Resources.{ResourceMonitor}
use resource_topology_export.Monitor.Scan.{
  ScanResponse, ScanArgs, PodFingerprint, ResourceExclude, scan, scan_pods,
}
use resource_topology_export.Updater.Object.{MonitorInfo}
use resource_topology_export.Exporter.{
  Times, Event, Observed, panicked, scan_failed, sent_info, is_timer, observe,
}

-- What an event leads to, by the answer of the pod resources API.
pub data Outcome {E : Type 0} (expose_timing : Bool) (timer : Bool) (resp : ScanResponse)
    (reply : Reply E (List PodResources)) (o : Observed) : Type 0 where
  lost :
      (e : E)
      → reply.err ≡ some e
      → expose_timing ≡ true
      → o ≡ panicked
      → Outcome expose_timing timer resp reply o
  reported :
      (e : E)
      → reply.err ≡ some e
      → expose_timing ≡ false
      → o ≡ scan_failed
      → Outcome expose_timing timer resp reply o
  observed :
      (info : MonitorInfo)
      → reply.err ≡ none
      → o ≡ sent_info info
      → info.timer ≡ timer
      → info.zones ≡ resp.zones
      → info.attributes ≡ resp.attributes
      → Outcome expose_timing timer resp reply o

module _ {E : Type 0} (t : Times) (pfp : PodFingerprint) (args : ScanArgs) (rm : ResourceMonitor)
    (exclude : ResourceExclude) where
  scan_failed_lem :
      (reply : Reply E (List PodResources)) {e : E}
      → reply.err ≡ some e
      → scan pfp args rm exclude reply
        ≡ record { resp = record { zones = []; attributes = []; annotations = none }; err = some e }
  unfolding scan
  scan_failed_lem reply h = simp (h, scan)

  scan_works_lem :
      (reply : Reply E (List PodResources))
      → reply.err ≡ none
      → scan pfp args rm exclude reply
        ≡ record { resp = scan_pods pfp args rm exclude reply.resp; err = none }
  unfolding scan
  scan_works_lem reply h = simp (h, scan)

  observed_works :
      (expose_timing : Bool) (last : t.Time) (ev : Event t) (reply : Reply E (List PodResources))
      → reply.err ≡ none
      → Outcome expose_timing
          (is_timer t ev)
          (scan_pods pfp args rm exclude reply.resp)
          reply
          (observe t {E = E} expose_timing last ev
            (record { resp = scan_pods pfp args rm exclude reply.resp; err = none })).1
  unfolding observe scan_pods
  observed_works true last ev reply h = observed _ h refl refl refl refl
  observed_works false last ev reply h = observed _ h refl refl refl refl

  -- When the pod resources API answers, the observer sends an info with the zones and the attributes
  -- of the scan, marked by whether the event came from the timer. When it fails, the observer sends
  -- nothing: it sets the condition to false if the timing is not exposed, and panics on a write to a
  -- nil map if it is.
  pub observe-Outcome :
      (expose_timing : Bool) (last : t.Time) (ev : Event t) (reply : Reply E (List PodResources))
      → Outcome expose_timing
          (is_timer t ev)
          (scan_pods pfp args rm exclude reply.resp)
          reply
          (observe t expose_timing last ev (scan pfp args rm exclude reply)).1
  observe-Outcome expose_timing last ev reply = elim (Option-cases reply.err) [
    | inl h ↦ rw (scan_works_lem reply h) (observed_works expose_timing last ev reply h)
    | inr (e, h) ↦ elim (Bool-cases expose_timing) [
      | inl b ↦ rw (scan_failed_lem reply h) (lost e h b (unfold observe in rw b))
      | inr b ↦ rw (scan_failed_lem reply h) (reported e h b (unfold observe in rw b))
    ]
  ]
