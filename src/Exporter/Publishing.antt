-- ===== src/Exporter/Publishing.antt =====
-- The observer and the updater together, as Execute of pkg/resourcetopologyexporter connects them:
-- what an event makes of the stored object.
use mathlib.Core.Path.{subst}
use resource_topology_export.Base.{
  ◌≡◌, refl, sym, ap, ◌∙◌, Bool, true, false, Option, none, some, List, ◌++◌, if◌then◌else◌, arith,
}
use resource_topology_export.Podres.{PodResources}
use resource_topology_export.Middleware.{Reply}
use resource_topology_export.Monitor.Resources.{ResourceMonitor}
use resource_topology_export.Monitor.Scan.{
  ScanResponse, ScanArgs, PodFingerprint, ResourceExclude, scan, scan_pods,
}
use resource_topology_export.Updater.Object.{
  Nrt, MonitorInfo, NodeGetter, make_attributes, update_owner_references, update_nrt_info, new_nrt,
}
use resource_topology_export.Updater.{
  Json, Api, State, NrtUpdater, Sent, send_data, run_info, send_object_patch, send_object_update,
  error_of,
}
use resource_topology_export.Updater.Sync.{
  IsFaithful, Published, published, refused, desired, send_object_update-Published,
}
use resource_topology_export.Updater.Sync.Patch.{InSync, send_object_patch-Kept}
use resource_topology_export.Exporter.{
  Times, Event, Observed, panicked, scan_failed, sent_info, is_timer, observe,
}
use resource_topology_export.Exporter.Observing.{Outcome, lost, reported, observed, observe-Outcome}

module _ {W D E : Type 0} (json : Json D) (api : Api W D E) where
  -- The updater takes what the observer sends, over the channel of infos.
  unfoldable pub forwarded : Observed → State W → Option Bool × State W
  forwarded panicked s = (none, s)
  forwarded scan_failed s = (none, s)
  forwarded (sent_info info) s = run_info json api info s

  module _ {K : Type 0} (t : Times) (pfp : PodFingerprint) (args : ScanArgs) (rm : ResourceMonitor)
      (exclude : ResourceExclude) where
    -- One event, from the observer to the API server.
    unfoldable pub handle_event :
        Bool → t.Time → Event t → Reply K (List PodResources) → State W → Option Bool × State W
    unfolding forwarded
    handle_event expose_timing last ev reply s =
        forwarded (observe t expose_timing last ev (scan pfp args rm exclude reply)).1 s

owned_content :
    (getter : NodeGetter) (nrt : Nrt)
    → ((update_owner_references getter nrt).zones ≡ nrt.zones)
      × ((update_owner_references getter nrt).attributes ≡ nrt.attributes)
unfolding update_owner_references
owned_content getter nrt = (ground arith, ground arith)

desired_content :
    (te : NrtUpdater) (info : MonitorInfo) (before : Option Nrt)
    → ((desired te info before).zones ≡ info.zones)
      × ((desired te info before).attributes ≡ info.attributes ++ make_attributes te.tm_config)
unfolding update_nrt_info
desired_content te info none =
    owned_content te.node_getter (update_nrt_info te.tm_config (new_nrt te.args.hostname) info)
desired_content te info (some nrt) =
    owned_content te.node_getter (update_nrt_info te.tm_config nrt info)

-- What an event may do to the stored object: it shows the scan, under the node's name, or it is as it
-- was. Unless the updater is in one-shot mode, the condition says which.
pub data Shown (te : NrtUpdater) (resp : ScanResponse) (before after : Option Nrt)
    (cond : Option Bool) : Type 0 where
  shown :
      (nrt : Nrt)
      → after ≡ some nrt
      → nrt.name ≡ te.args.hostname
      → nrt.zones ≡ resp.zones
      → nrt.attributes ≡ resp.attributes ++ make_attributes te.tm_config
      → (te.args.oneshot ≡ false → cond ≡ some true)
      → Shown te resp before after cond
  unchanged :
      after ≡ before
      → (te.args.oneshot ≡ false → cond ≡ some false)
      → Shown te resp before after cond

module _ {W D E : Type 0} (json : Json D) (api : Api W D E) (stored : W → Option Nrt) (s : State W)
    (f : IsFaithful json api s.updater.args.hostname stored)
    (i : InSync s.updater (stored s.server)) (publishes : s.updater.args.no_publish ≡ false) where
  sent_by : Bool → MonitorInfo → Sent E × State W
  sent_by patch info =
      if patch then send_object_patch json api info s else send_object_update json api info s

  sent_by-Published :
      (patch : Bool) (info : MonitorInfo)
      → Published s.updater info
          (stored s.server)
          (sent_by patch info).0
          (stored (sent_by patch info).1.server)
  unfolding sent_by
  sent_by-Published true info = (send_object_patch-Kept json api stored s info f i).0
  sent_by-Published false info = send_object_update-Published json api stored s info f

  condition_of_send : Bool → Sent E → Option Bool
  condition_of_send oneshot r =
      if oneshot
      then none
      else elim (error_of json api r) [ none ↦ some true | some x ↦ some false ]

  run_info_lem :
      (info : MonitorInfo)
      → run_info json api info s ≡ (
        condition_of_send s.updater.args.oneshot (sent_by s.updater.args.patch_mode info).0,
        (sent_by s.updater.args.patch_mode info).1,
      )
  unfolding run_info send_data sent_by condition_of_send
  run_info_lem info = rw publishes refl

  shown_lem :
      (resp : ScanResponse) (info : MonitorInfo) (r : Sent E) (after : Option Nrt)
      → info.zones ≡ resp.zones
      → info.attributes ≡ resp.attributes
      → Published s.updater info (stored s.server) r after
      → Shown s.updater resp (stored s.server) after (condition_of_send s.updater.args.oneshot r)
  unfolding condition_of_send
  shown_lem resp info r after z a (published nrt e c st n) =
      let (dz, da) = desired_content s.updater info (stored s.server) in
      shown nrt st n (c.zones ∙ dz ∙ z)
        (c.attributes ∙ da ∙ ap (λ l. l ++ make_attributes s.updater.tm_config) a)
        (λ o. rw (o, e) refl)
  shown_lem resp info r after z a (refused x e st) = unchanged st (λ o. rw (o, e) refl)

  module _ {K : Type 0} (t : Times) (pfp : PodFingerprint) (args : ScanArgs) (rm : ResourceMonitor)
      (exclude : ResourceExclude) where
    forwarded-Shown :
        (expose_timing timer : Bool) (reply : Reply K (List PodResources)) (resp : ScanResponse)
        (o : Observed)
        → reply.err ≡ none
        → Outcome expose_timing timer resp reply o
        → Shown s.updater resp
            (stored s.server)
            (stored (forwarded json api o s).1.server)
            (forwarded json api o s).0
    unfolding forwarded
    forwarded-Shown expose_timing timer reply resp o h (lost e g b q) =
        absurd (let bad : none ≡ some e = sym h ∙ g in cc bad)
    forwarded-Shown expose_timing timer reply resp o h (reported e g b q) =
        absurd (let bad : none ≡ some e = sym h ∙ g in cc bad)
    forwarded-Shown expose_timing timer reply resp o h (observed info g q m z a) =
        subst
          (λ u.
            Shown s.updater resp (stored s.server) (stored (forwarded json api u s).1.server)
              (forwarded json api u s).0)
          (sym q)
          (subst (λ p. Shown s.updater resp (stored s.server) (stored p.1.server) p.0)
            (sym (run_info_lem info))
            (shown_lem resp info _ _ z a (sent_by-Published s.updater.args.patch_mode info)))

    -- When the pod resources API answers an event's scan, the object that the API server stores then
    -- shows, under the node's name, the zones of the scan and its attributes with the topology
    -- manager's, and the condition is true; or the object is as it was, and the condition is false.
    -- In one-shot mode no condition is said. The server is as IsFaithful says, the updater in step with
    -- it, and publishing is not switched off.
    pub handle_event-Shown :
        (expose_timing : Bool) (last : t.Time) (ev : Event t) (reply : Reply K (List PodResources))
        → reply.err ≡ none
        → Shown s.updater
            (scan_pods pfp args rm exclude reply.resp)
            (stored s.server)
            (stored
              (handle_event json api t pfp args rm exclude expose_timing last ev reply s).1.server)
            (handle_event json api t pfp args rm exclude expose_timing last ev reply s).0
    unfolding handle_event
    handle_event-Shown expose_timing last ev reply h =
        forwarded-Shown expose_timing (is_timer t ev) reply
          (scan_pods pfp args rm exclude reply.resp) _ h
          (observe-Outcome t pfp args rm exclude expose_timing last ev reply)
