-- ===== src/Exporter/Starting/Parts.antt =====
-- Parts that Execute of pkg/resourcetopologyexporter sets up: the topology manager's settings, the
-- node getter and the condition injector.
use mathlib.Core.Path.{subst}
use resource_topology_export.Base.{
  ℕ, ◌≡◌, ◌≢◌, refl, sym, ap, ◌∙◌, ◌⊎◌, inl, inr, Bool, true, false, Option, none, some, List, [],
  ◌∷◌, Text, text_eq, text_beq, text_beq_iff, arith, Any, Result, ok, Bool-cases, Option-cases,
  Result-cases,
}
use resource_topology_export.Base.Dict.{Dict, get, put, get-put}
use resource_topology_export.Base.Strings.{codes}
use resource_topology_export.Updater.Object.{
  TmConfig, NodeInfo, NodeGetter, disabled, cache_nodes, new_cached_node_getter, NodeReply, found,
  not_configured, not_found, get_node,
}
use resource_topology_export.Updater.{Args}
use resource_topology_export.Exporter.Settings.{
  TmArgs, Settings, settings, Kubelet, kubelet, unreadable, from_kubelet,
  get_topology_manager_settings,
}
use resource_topology_export.Exporter.Starting.{
  ExecuteArgs, injector_identity, Surroundings, getter_for, injector_for,
}

-- The settings of the topology manager: both given ones, or else those of the kubelet's file.
pub data HasSettings {E : Type 0} (read : Text → Kubelet E) (args : TmArgs) (tm : TmConfig)
    : Type 0 where
  both_given :
      args.topology_manager_policy ≢ []
      → args.topology_manager_scope ≢ []
      → tm.policy ≡ args.topology_manager_policy
      → tm.scope ≡ args.topology_manager_scope
      → HasSettings read args tm
  from_file :
      (args.topology_manager_policy ≡ []) ⊎ (args.topology_manager_scope ≡ [])
      → args.kubelet_config_file ≢ []
      → read args.kubelet_config_file ≡ kubelet tm
      → HasSettings read args tm

-- What the node getter answers for a name, by the nodes of the API server.
pub data Answered (nodes : List NodeInfo) (name : Text) : NodeReply → Type 0 where
  known :
      (node : NodeInfo)
      → Any (λ n. n ≡ node) nodes
      → node.name ≡ name
      → Answered nodes name (found node)
  unknown : ¬ Any (λ n. n.name ≡ name) nodes → Answered nodes name (not_found name)

pub data HasGetter {E : Type 0} (list_nodes : Result E (List NodeInfo)) (enable : Bool)
    (getter : NodeGetter) : Type 0 where
  no_owners :
      enable ≡ false
      → ((name : Text) → get_node getter name ≡ not_configured)
      → HasGetter list_nodes enable getter
  sets_owners :
      (nodes : List NodeInfo)
      → enable ≡ true
      → list_nodes ≡ ok nodes
      → ((name : Text) → Answered nodes name (get_node getter name))
      → HasGetter list_nodes enable getter

-- The identity of the injector, of which the environment has both parts.
pub data HasInjector (lookup : Text → Option Text) (enable : Bool)
    : Option (Text × Text) → Type 0 where
  no_injection : enable ≡ false → HasInjector lookup enable none
  injects :
      (namespace pod : Text)
      → enable ≡ true
      → lookup (codes "REFERENCE_NAMESPACE") ≡ some namespace
      → lookup (codes "REFERENCE_POD_NAME") ≡ some pod
      → HasInjector lookup enable (some (namespace, pod))

abbrev tm_args : Text → Text → Text → TmArgs
tm_args policy scope file = record {
  topology_manager_policy = policy;
  topology_manager_scope = scope;
  kubelet_config_file = file;
}

HasSettings-file :
    {E : Type 0} (read : Text → Kubelet E) (policy scope file : Text) (tm : TmConfig)
    (k : Kubelet E)
    → (policy ≡ []) ⊎ (scope ≡ [])
    → file ≢ []
    → read file ≡ k
    → from_kubelet k ≡ settings tm
    → HasSettings read (tm_args policy scope file) tm
HasSettings-file read policy scope file tm (kubelet conf) o n p h =
    let same : conf ≡ tm = cc h in from_file o n (p ∙ ap kubelet same)
HasSettings-file read policy scope file tm (unreadable e) o n p h = absurd (cc h)

filled : (c : ℕ) (s : Text) → c ∷ s ≢ []
filled c s h = cc h

HasSettings-of :
    {E : Type 0} (read : Text → Kubelet E) (policy scope file : Text) (tm : TmConfig)
    → get_topology_manager_settings read (tm_args policy scope file) ≡ settings tm
    → HasSettings read (tm_args policy scope file) tm
unfolding get_topology_manager_settings
HasSettings-of {E} read (c ∷ p) (d ∷ s) file tm h =
    let made : Path (Settings E) (settings (record { policy = c ∷ p; scope = d ∷ s }))
        (settings tm) =
      h in
    let same : record { policy = c ∷ p; scope = d ∷ s } ≡ tm = cc made in
    both_given (filled c p) (filled d s) (ap (λ (t : TmConfig). t.policy) (sym same))
      (ap (λ (t : TmConfig). t.scope) (sym same))
HasSettings-of read [] scope [] tm h = absurd (cc h)
HasSettings-of read [] scope (f ∷ file) tm h =
    HasSettings-file read [] scope (f ∷ file) tm _ (inl refl) (filled f file) refl h
HasSettings-of read (c ∷ p) [] [] tm h = absurd (cc h)
HasSettings-of read (c ∷ p) [] (f ∷ file) tm h =
    HasSettings-file read (c ∷ p) [] (f ∷ file) tm _ (inr refl) (filled f file) refl h

pub get_topology_manager_settings-HasSettings :
    {E : Type 0} (read : Text → Kubelet E) (args : TmArgs) (tm : TmConfig)
    → get_topology_manager_settings read args ≡ settings tm
    → HasSettings read args tm
get_topology_manager_settings-HasSettings read args tm h =
    HasSettings-of read args.topology_manager_policy args.topology_manager_scope
      args.kubelet_config_file tm h

cached_lem :
    (nodes : List NodeInfo) (d : Dict Text NodeInfo) (name : Text)
    → ((node : NodeInfo) × Any (λ n. n ≡ node) nodes
        × (node.name ≡ name)
        × (get (cache_nodes d nodes) name ≡ some node))
      ⊎ ((¬ Any (λ n. n.name ≡ name) nodes) × (get (cache_nodes d nodes) name ≡ get d name))
unfolding cache_nodes
cached_lem [] d name = inr ((λ h. h), refl)
cached_lem (n ∷ nodes) d name = elim (cached_lem nodes (put d n.name n) name) [
  | inl (node, m, e, g) ↦ inl (node, inr m, e, g)
  | inr (absent, g) ↦ elim (Bool-cases (text_beq n.name name)) [
    | inl same ↦
        inl (
          n,
          inl refl,
          (text_beq_iff n.name name).0 same,
          g ∙ get-put d n.name name n ∙ rw same refl,
        )
    | inr other ↦ inr (
      elim [ inl x ↦ let yes = (text_beq_iff n.name name).1 x in cc | inr y ↦ absent y ],
      g ∙ get-put d n.name name n ∙ rw other refl,
    )
  ]
]

new_cached_node_getter-Answered :
    (nodes : List NodeInfo) (name : Text)
    → Answered nodes name (get_node (new_cached_node_getter nodes) name)
unfolding new_cached_node_getter get_node get
new_cached_node_getter-Answered nodes name = elim (cached_lem nodes [] name) [
  | inl (node, m, e, g) ↦ rw (get_node, g) (known node m e)
  | inr (absent, g) ↦ rw (get_node, g) (unknown absent)
]

module _ {E : Type 0} (s : Surroundings E) (nrt_args : Args) (args : ExecuteArgs) where
  pub getter_for-HasGetter :
      (enable : Bool) (getter : NodeGetter)
      → getter_for s nrt_args args enable ≡ ok getter
      → HasGetter s.list_nodes enable getter
  unfolding get_node
  getter_for-HasGetter false getter h =
      let same : disabled ≡ getter = cc h in
      subst (HasGetter s.list_nodes false) same (no_owners refl (λ name. refl))
  getter_for-HasGetter true getter h = elim (Result-cases s.list_nodes) [
    | inl (e, p) ↦ let bad = rw p at h in cc
    | inr (nodes, p) ↦
        let made : Path (Result E NodeGetter) (ok (new_cached_node_getter nodes)) (ok getter) =
          rw p at h in
        let same : new_cached_node_getter nodes ≡ getter = cc in
        subst (HasGetter s.list_nodes true) same
          (sets_owners nodes refl p (new_cached_node_getter-Answered nodes))
  ]

  injector_identity_lem :
      (namespace pod : Text)
      → injector_identity s.lookup ≡ some (namespace, pod)
      → (s.lookup (codes "REFERENCE_NAMESPACE") ≡ some namespace)
        × (s.lookup (codes "REFERENCE_POD_NAME") ≡ some pod)
  unfolding injector_identity
  injector_identity_lem namespace pod h = ground arith

  pub injector_for-HasInjector :
      (enable : Bool) (injector : Option (Text × Text))
      → injector_for s nrt_args args enable ≡ some injector
      → HasInjector s.lookup enable injector
  injector_for-HasInjector false injector h =
      let same : none ≡ injector = cc h in
      subst (HasInjector s.lookup false) same (no_injection refl)
  injector_for-HasInjector true injector h = elim (Option-cases (injector_identity s.lookup)) [
    | inl p ↦ let bad = rw (injector_for, p) at h in cc
    | inr ((namespace, pod), p) ↦
        let made : Path (Option (Option (Text × Text))) (some (some (namespace, pod)))
            (some injector) =
          rw (injector_for, p) at h in
        let same : some (namespace, pod) ≡ injector = cc in
        let (n, q) = injector_identity_lem namespace pod p in
        subst (HasInjector s.lookup true) same (injects namespace pod refl n q)
  ]
