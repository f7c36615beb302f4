-- ===== src/Middleware/Exclude.antt =====
-- pkg/podres/middleware/podexclude: drops the pods whose namespace and name match an item.
use resource_topology_export.Base.{
  ◌≡◌, ◌↔◌, inl, inr, Bool, true, false, ◌&&◌, not, List, [], ◌∷◌, ◌++◌, arith, Text, any, Any,
  any→Any, Any→any, Any-map, Bool-cases, if◌then◌else◌,
}
use resource_topology_export.Base.Strings.{codes}
use resource_topology_export.Podres.{PodResources}
use resource_topology_export.Middleware.{Reply, filter_reply, Filtered, done, drop, keep}

pub record Item : Type 0 where
  pub namespace_pattern : Text
  pub name_pattern : Text

-- List.String: ", ns/name" for each item, and the first two bytes cut.
describe_items : List Item → Text
describe_items [] = []
describe_items (item ∷ items) =
    codes ", "
    ++ (item.namespace_pattern ++ (codes "/" ++ (item.name_pattern ++ describe_items items)))

cut_two : Text → Text
cut_two [] = []
cut_two (a ∷ []) = []
cut_two (a ∷ b ∷ s) = s

pub items_string : List Item → Text
unfolding describe_items cut_two
items_string items = cut_two (describe_items items)

-- What filepath.Match returns.
pub record MatchResult : Type 0 where
  pub matched : Bool
  pub bad_pattern : Bool

-- filepath.Match is the Go library's: a pattern, a name, and what it answers.
module _ (glob : Text → Text → MatchResult) where
  -- One round of the loop of ShouldExclude: whether the item excludes the pod. A bad pattern is
  -- told apart only in debug mode.
  unfoldable pub item_excludes : Item → Text → Text → Bool → Bool
  item_excludes item namespace name debug =
      let ns = glob item.namespace_pattern namespace in
      let n = glob item.name_pattern name in
      if ns.bad_pattern && debug
      then false
      else if not ns.matched
      then false
      else if n.bad_pattern && debug
      then false
      else if not n.matched
      then false
      else true

  unfoldable pub should_exclude : List Item → Text → Text → Bool → Bool
  should_exclude pod_excludes namespace name debug =
      any (λ item. item_excludes item namespace name debug) pod_excludes

  unfoldable pub filter_pods : List Item → Bool → List PodResources → List PodResources
  filter_pods pod_excludes debug [] = []
  filter_pods pod_excludes debug (pr ∷ prs) =
      let rest = filter_pods pod_excludes debug prs in
      if should_exclude pod_excludes pr.namespace pr.name debug then rest else pr ∷ rest

  -- filteringClient.List, over what the wrapped client answers
  unfoldable pub list :
      {E : Type 0} → List Item → Bool → Reply E (List PodResources) → Reply E (List PodResources)
  unfolding filter_reply filter_pods
  list pod_excludes debug reply = filter_reply (filter_pods pod_excludes debug) reply

  -- Some item matches both the namespace and the name of the pod.
  abbrev pub IsExcluded : List Item → PodResources → Type 0
  IsExcluded pod_excludes pr =
      Any
        (λ item.
          ((glob item.namespace_pattern pr.namespace).matched ≡ true)
          × ((glob item.name_pattern pr.name).matched ≡ true))
        pod_excludes

  -- filepath.Match: with a malformed pattern, nothing matches.
  module _
      (no_bad_match : (p n : Text)
        → (glob p n).bad_pattern ≡ true
        → (glob p n).matched ≡ false) where
    item_excludes_iff :
        (item : Item) (namespace name : Text) (debug : Bool)
        → (item_excludes item namespace name debug ≡ true) ↔ (
            ((glob item.namespace_pattern namespace).matched ≡ true)
            × ((glob item.name_pattern name).matched ≡ true))
    unfolding item_excludes
    item_excludes_iff item namespace name debug =
        ground (
          arith,
          no_bad_match item.namespace_pattern namespace,
          no_bad_match item.name_pattern name,
        )

    should_exclude_iff :
        (pod_excludes : List Item) (debug : Bool) (pr : PodResources)
        → (should_exclude pod_excludes pr.namespace pr.name debug ≡ true)
          ↔ IsExcluded pod_excludes pr
    unfolding should_exclude
    should_exclude_iff pod_excludes debug pr = (
      (λ h.
          Any-map _ _ (λ item. (item_excludes_iff item pr.namespace pr.name debug).0) pod_excludes
            (any→Any _ pod_excludes h)),
      λ h. Any→any _ pod_excludes (
          Any-map _ _ (λ item. (item_excludes_iff item pr.namespace pr.name debug).1) pod_excludes
            h),
    )

    -- The filter keeps exactly the pods that no item matches, in order, in debug mode or not,
    -- provided that filepath.Match reports no match for a malformed pattern.
    pub filter_pods-Filtered :
        (pod_excludes : List Item) (debug : Bool) (prs : List PodResources)
        → Filtered (IsExcluded pod_excludes) prs (filter_pods pod_excludes debug prs)
    unfolding filter_pods
    filter_pods-Filtered pod_excludes debug [] = done
    filter_pods-Filtered pod_excludes debug (pr ∷ prs) =
        elim (Bool-cases (should_exclude pod_excludes pr.namespace pr.name debug)) [
          | inl e ↦ rw e (
              drop ((should_exclude_iff pod_excludes debug pr).0 e)
                (filter_pods-Filtered pod_excludes debug prs))
          | inr e ↦ rw e (
              keep (λ h. cc ((should_exclude_iff pod_excludes debug pr).1 h))
                (filter_pods-Filtered pod_excludes debug prs))
        ]
