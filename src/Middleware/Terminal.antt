-- ===== src/Middleware/Terminal.antt =====
-- pkg/podres/middleware/terminalpods: drops the pods that the informer lists as terminal.
use resource_topology_export.Base.{
  ◌≡◌, refl, ◌↔◌, inl, inr, Bool, true, ◌&&◌, none, some, List, [], ◌∷◌, arith, Text, text_beq,
  text_beq_iff, any, Any, any→Any, Any→any, Any-map, Bool-cases, Option-cases, if◌then◌else◌,
}
use resource_topology_export.Podres.{PodResources}
use resource_topology_export.Middleware.{Reply, Filtered, done, drop, keep}

-- A pod as the lister of the informer gives it.
pub record Pod : Type 0 where
  pub namespace : Text
  pub name : Text

-- The inner loop of FilterFrom.
unfoldable pub is_terminal : List Pod → PodResources → Bool
is_terminal pods pr =
    any (λ pod. text_beq pod.namespace pr.namespace && text_beq pod.name pr.name) pods

unfoldable pub filter_from : List Pod → List PodResources → List PodResources
filter_from pods [] = []
filter_from pods (pr ∷ prs) =
    let rest = filter_from pods prs in if is_terminal pods pr then rest else pr ∷ rest

-- What the informer's lister gives: pods or an error.
abbrev pub Listed : Type 0 → Type 0
Listed E = Reply E (List Pod)

-- filteringClient.List, over what the wrapped client and the lister answer
unfoldable pub list :
    {E : Type 0} → Listed E → Reply E (List PodResources) → Reply E (List PodResources)
list pods reply = elim reply.err [
  | some e ↦ reply
  | none ↦ elim pods.err [
    | some e ↦ record { resp = reply.resp; err = some e }
    | none ↦ record { resp = filter_from pods.resp reply.resp; err = none }
  ]
]

-- Some listed pod has the namespace and the name.
abbrev pub IsTerminal : List Pod → PodResources → Type 0
IsTerminal pods pr = Any (λ pod. (pod.namespace ≡ pr.namespace) × (pod.name ≡ pr.name)) pods

same_pod_iff :
    (pr : PodResources) (pod : Pod)
    → ((text_beq pod.namespace pr.namespace && text_beq pod.name pr.name) ≡ true)
      ↔ ((pod.namespace ≡ pr.namespace) × (pod.name ≡ pr.name))
same_pod_iff pr pod =
    ground (arith, text_beq_iff pod.namespace pr.namespace, text_beq_iff pod.name pr.name)

is_terminal_iff :
    (pods : List Pod) (pr : PodResources) → (is_terminal pods pr ≡ true) ↔ IsTerminal pods pr
unfolding is_terminal
is_terminal_iff pods pr = (
  (λ h. Any-map _ _ (λ pod. (same_pod_iff pr pod).0) pods (any→Any _ pods h)),
  λ h. Any→any _ pods (Any-map _ _ (λ pod. (same_pod_iff pr pod).1) pods h),
)

filter_from-Filtered :
    (pods : List Pod) (prs : List PodResources)
    → Filtered (IsTerminal pods) prs (filter_from pods prs)
unfolding filter_from
filter_from-Filtered pods [] = done
filter_from-Filtered pods (pr ∷ prs) = elim (Bool-cases (is_terminal pods pr)) [
  | inl e ↦ rw e (drop ((is_terminal_iff pods pr).0 e) (filter_from-Filtered pods prs))
  | inr e ↦ rw e (keep (λ h. cc ((is_terminal_iff pods pr).1 h)) (filter_from-Filtered pods prs))
]

-- What a call of List comes to.
pub data Outcome {E : Type 0} (pods : Listed E) (reply out : Reply E (List PodResources))
    : Type 0 where
  client_failed : (e : E) → reply.err ≡ some e → out ≡ reply → Outcome pods reply out
  lister_failed :
      (e : E)
      → reply.err ≡ none
      → pods.err ≡ some e
      → out ≡ record { resp = reply.resp; err = some e }
      → Outcome pods reply out
  answered :
      reply.err ≡ none
      → pods.err ≡ none
      → out.err ≡ none
      → Filtered (IsTerminal pods.resp) reply.resp out.resp
      → Outcome pods reply out

module _ {E : Type 0} (pods : Listed E) (reply : Reply E (List PodResources)) where
  list_client_failed : {e : E} → reply.err ≡ some e → list pods reply ≡ reply
  unfolding list
  list_client_failed h = simp (h, list)

  list_lister_failed :
      {e : E}
      → reply.err ≡ none
      → pods.err ≡ some e
      → list pods reply ≡ record { resp = reply.resp; err = some e }
  unfolding list
  list_lister_failed h k = simp (h, k, list)

  list_answered :
      reply.err ≡ none
      → pods.err ≡ none
      → list pods reply ≡ record { resp = filter_from pods.resp reply.resp; err = none }
  unfolding list
  list_answered h k = simp (h, k, list)

-- If the wrapped client fails, List passes its answer on; if then the lister fails, List gives the
-- response unfiltered with the lister's error; otherwise it succeeds, and the response is the
-- wrapped one without exactly the pods that the lister gave, in order.
pub list-Outcome :
    {E : Type 0} (pods : Listed E) (reply : Reply E (List PodResources))
    → Outcome pods reply (list pods reply)
list-Outcome pods reply = elim (Option-cases reply.err) [
  | inr (e, h) ↦ client_failed e h (list_client_failed pods reply h)
  | inl h ↦ elim (Option-cases pods.err) [
    | inr (e, k) ↦ lister_failed e h k (list_lister_failed pods reply h k)
    | inl k ↦
        rw (list_answered pods reply h k)
          (answered h k refl (filter_from-Filtered pods.resp reply.resp))
  ]
]
