-- ===== src/Readiness/Injected.antt =====
-- What Inject of pkg/podreadiness does to the pod's conditions, and what it remembers.
use mathlib.Core.Path.{subst}
use resource_topology_export.Base.{
  ◌≡◌, ◌≢◌, refl, sym, ◌∙◌, inl, inr, true, Option, none, some, List, [], ◌∷◌, arith, Text, find,
  Bool-cases, text_eq, text_beq, text_beq_iff, if◌then◌else◌,
}
use resource_topology_export.Base.Dict.{get, put, get-put}
use resource_topology_export.Readiness.{
  PodCondition, equal_pod_condition, upsert, PodApi, Injector, after_status, after_pod, is_known,
  inject,
}

-- The first condition of a type, which is the one that the kubelet and its clients read.
abbrev pub condition_of : Text → List PodCondition → Option PodCondition
condition_of type conds = find (λ c. text_beq c.type type) conds

-- After a condition is merged into the pod's conditions, it is the first one of its type, and the
-- first one of any other type is as before.
pub condition_of-upsert :
    (cond : PodCondition) (conds : List PodCondition) (type : Text)
    → condition_of type (upsert cond conds)
      ≡ (if text_beq cond.type type then some cond else condition_of type conds)
unfolding find upsert
condition_of-upsert cond [] type = ground arith
condition_of-upsert cond (c ∷ cs) type = ground (
  arith,
  text_beq_iff c.type cond.type,
  text_beq_iff c.type type,
  text_beq_iff cond.type type,
  condition_of-upsert cond cs type,
)

-- What the program relies on of the API server: it answers with the conditions that it stores,
-- stores those that it accepts, and changes nothing on an error.
pub record IsFaithful {W E : Type 0} (api : PodApi W E) (stored : W → List PodCondition)
    : Type 0 where
  pub got :
      {w w' : W} {e : Option E} {conds : List PodCondition}
      → api.get_pod w ≡ (e, conds, w')
      → stored w' ≡ stored w
  pub got_conditions :
      {w w' : W} {conds : List PodCondition} → api.get_pod w ≡ (none, conds, w') → conds ≡ stored w
  pub accepted :
      {w w' : W} {conds : List PodCondition}
      → api.update_status conds w ≡ (none, w')
      → stored w' ≡ conds
  pub rejected :
      {w w' : W} {conds : List PodCondition} {e : E}
      → api.update_status conds w ≡ (some e, w')
      → stored w' ≡ stored w

-- What the injector remembers is what the pod shows.
pub record IsKnown (last : Injector) (conds : List PodCondition) : Type 0 where
  pub shown :
      (type : Text) (old : PodCondition)
      → get last type ≡ some old
      → condition_of type conds ≡ some old

-- The pod shows the condition, up to its time stamp.
abbrev pub Shows : PodCondition → List PodCondition → Type 0
Shows cond conds =
    (c : PodCondition) × (condition_of cond.type conds ≡ some c)
    × (equal_pod_condition c cond ≡ true)

-- How Inject ends: with an error, and the pod as it was; or with the pod showing the condition and
-- every other condition as it was.
pub data Ends {E : Type 0} (cond : PodCondition) (before : List PodCondition) (err : Option E)
    (after : List PodCondition) : Type 0 where
  fails : (e : E) → err ≡ some e → after ≡ before → Ends cond before err after
  shows :
      err ≡ none
      → Shows cond after
      → ((type : Text) → cond.type ≢ type → condition_of type after ≡ condition_of type before)
      → Ends cond before err after

equal_refl : (c : PodCondition) → equal_pod_condition c c ≡ true
unfolding equal_pod_condition
equal_refl c = ground (
  arith,
  text_beq_iff c.type c.type,
  text_beq_iff c.status c.status,
  text_beq_iff c.reason c.reason,
  text_beq_iff c.message c.message,
)

put-IsKnown :
    (cond : PodCondition) (last : Injector) (conds : List PodCondition)
    → IsKnown last conds
    → IsKnown (put last cond.type cond) (upsert cond conds)
put-IsKnown cond last conds k = record {
  shown = λ type old h. elim (Bool-cases (text_beq cond.type type)) [
    | inl e ↦ ground (arith, get-put last cond.type type cond, condition_of-upsert cond conds type)
    | inr e ↦
        condition_of-upsert cond conds type
        ∙ rw e (k.shown type old (ground (arith, get-put last cond.type type cond)))
  ];
}

upsert-Shows : (cond : PodCondition) (conds : List PodCondition) → Shows cond (upsert cond conds)
upsert-Shows cond conds = (
  cond,
  ground (arith, condition_of-upsert cond conds cond.type, text_beq_iff cond.type cond.type),
  equal_refl cond,
)

upsert_others :
    (cond : PodCondition) (conds : List PodCondition) (type : Text)
    → cond.type ≢ type
    → condition_of type (upsert cond conds) ≡ condition_of type conds
upsert_others cond conds type h =
    ground (arith, condition_of-upsert cond conds type, text_beq_iff cond.type type)

-- An end of Inject with what it remembers.
abbrev pub Kept :
    {E : Type 0}
    → PodCondition
    → List PodCondition
    → Option E
    → Injector
    → List PodCondition
    → Type 0
Kept cond before err last after = Ends cond before err after × IsKnown last after

module _ {W E : Type 0} (api : PodApi W E) (stored : W → List PodCondition)
    (f : IsFaithful api stored) where
  after_status-Kept :
      (cond : PodCondition) (last : Injector) (before : List PodCondition) (w : W)
      (r : Option E × W)
      → api.update_status (upsert cond before) w ≡ r
      → stored w ≡ before
      → IsKnown last before
      → Kept cond before
          (after_status api last cond r).0
          (after_status api last cond r).1
          (stored (after_status api last cond r).2)
  after_status-Kept cond last before w (none, w') e st k =
      subst (λ c. Kept {E = E} cond before none (put last cond.type cond) c) (sym (f.accepted e))
        (
          shows refl (upsert-Shows cond before) (upsert_others cond before),
          put-IsKnown cond last before k,
        )
  after_status-Kept cond last before w (some x, w') e st k =
      subst (λ c. Kept cond before (some x) last c) (sym (f.rejected e ∙ st)) (fails x refl refl, k)

  after_pod-Kept :
      (cond : PodCondition) (last : Injector) (w : W) (r : Option E × List PodCondition × W)
      → api.get_pod w ≡ r
      → IsKnown last (stored w)
      → Kept cond
          (stored w)
          (after_pod api last cond r).0
          (after_pod api last cond r).1
          (stored (after_pod api last cond r).2)
  after_pod-Kept cond last w (some x, conds, w') e k =
      subst (λ c. Kept cond (stored w) (some x) last c) (sym (f.got e)) (fails x refl refl, k)
  after_pod-Kept cond last w (none, conds, w') e k =
      let q : conds ≡ stored w = f.got_conditions e in
      let r = api.update_status (upsert cond conds) w' in
      subst
        (λ b.
          Kept cond b (after_status api last cond r).0 (after_status api last cond r).1
            (stored (after_status api last cond r).2))
        q
        (after_status-Kept cond last conds w' r refl (f.got e ∙ sym q)
          (subst (IsKnown last) (sym q) k))

  known-Shows :
      (cond : PodCondition) (last : Injector) (conds : List PodCondition) (o : Option PodCondition)
      → get last cond.type ≡ o
      → is_known api o cond ≡ true
      → IsKnown last conds
      → Shows cond conds
  known-Shows cond last conds none g h k = absurd (cc h)
  known-Shows cond last conds (some old) g h k = (old, k.shown cond.type old g, h)

  -- Inject either fails and changes no condition, or succeeds and then the pod shows the condition,
  -- up to its time stamp, and every condition of another type as before, also where it makes no call
  -- because nothing changed. What it remembers is what the pod shows. The API server is as
  -- IsFaithful says, and before, what is remembered is shown.
  pub inject-Kept :
      (cond : PodCondition) (last : Injector) (w : W)
      → IsKnown last (stored w)
      → Kept cond
          (stored w)
          (inject api cond last w).0
          (inject api cond last w).1
          (stored (inject api cond last w).2)
  unfolding inject
  inject-Kept cond last w k = elim (Bool-cases (is_known api (get last cond.type) cond)) [
    | inl e ↦ simp e (shows refl (known-Shows cond last (stored w) _ refl e k) (λ type ne. refl), k)
    | inr e ↦ simp e (after_pod-Kept cond last w (api.get_pod w) refl k)
  ]
