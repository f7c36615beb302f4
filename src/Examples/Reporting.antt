-- ===== src/Examples/Reporting.antt =====
-- Conditions of the exporter's pod, and the observer, at concrete inputs.
use resource_topology_export.Base.{
  ℕ, ◌≡◌, sym, ap, Option, none, some, List, [], ◌∷◌, if◌then◌else◌, text_beq, text_eq,
}
use resource_topology_export.Base.Dict.{get}
use resource_topology_export.Base.Strings.{codes}
use resource_topology_export.Readiness.{PodCondition, PodApi, Injector, inject, upsert}
use resource_topology_export.Readiness.Injected.{
  IsFaithful, IsKnown, Kept, condition_of, condition_of-upsert, inject-Kept,
}

-- A server that stores the conditions and never fails.
abbrev server : PodApi (List PodCondition) ℕ
server = record { get_pod = λ w. (none, w, w); update_status = λ conds w. (none, conds) }

abbrev identity : List PodCondition → List PodCondition
identity w = w

server-IsFaithful : IsFaithful server identity
server-IsFaithful = record {
  got = λ h. sym (ap {A = Option ℕ × List PodCondition × List PodCondition} (λ t. t.2) h);
  got_conditions =
      λ h. sym (ap {A = Option ℕ × List PodCondition × List PodCondition} (λ t. t.1) h);
  accepted = λ h. sym (ap {A = Option ℕ × List PodCondition} (λ t. t.1) h);
  rejected = λ h. absurd (cc (ap {A = Option ℕ × List PodCondition} (λ t. t.0) h));
}

abbrev ready : PodCondition
ready = record {
  type = codes "NodeTopologyUpdated";
  status = codes "True";
  reason = [];
  message = [];
  stamp = 7;
}

abbrev failing : PodCondition
failing = record {
  type = codes "NodeTopologyUpdated";
  status = codes "False";
  reason = codes "UpdateFailed";
  message = codes "failed";
  stamp = 5;
}

abbrev scheduled : PodCondition
scheduled = record {
  type = codes "PodScheduled";
  status = codes "True";
  reason = [];
  message = [];
  stamp = 1;
}

condition_of-upsert_example :
    condition_of (codes "PodScheduled") (upsert ready (scheduled ∷ failing ∷ [])) ≡ (
      if text_beq ready.type (codes "PodScheduled")
      then some ready
      else condition_of (codes "PodScheduled") (scheduled ∷ failing ∷ []))
condition_of-upsert_example =
    condition_of-upsert ready (scheduled ∷ failing ∷ []) (codes "PodScheduled")

abbrev nothing : Injector
nothing = []

nothing-IsKnown : IsKnown nothing (scheduled ∷ failing ∷ [])
unfolding get
nothing-IsKnown = record { shown = λ type old h. absurd (cc h) }

inject-Kept_example :
    Kept ready
      (scheduled ∷ failing ∷ [])
      (inject server ready nothing (scheduled ∷ failing ∷ [])).0
      (inject server ready nothing (scheduled ∷ failing ∷ [])).1
      (inject server ready nothing (scheduled ∷ failing ∷ [])).2
inject-Kept_example =
    inject-Kept server identity server-IsFaithful ready nothing (scheduled ∷ failing ∷ [])
      nothing-IsKnown
