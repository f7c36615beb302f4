-- ===== src/Middleware/Chain.antt =====
-- main of cmd/resource-topology-exporter: the client of the pod resources API with its middlewares,
-- the shared pool first, then, as the arguments say, the excluded and the terminal pods.
use resource_topology_export.Base.{
  ◌≡◌, ◌⊎◌, Bool, true, false, none, some, List, [], ◌∷◌, Text, map,
}
use resource_topology_export.Podres.{PodResources}
use resource_topology_export.Middleware.{Reply, Filtered}
use resource_topology_export.Middleware.Exclude.{Item, MatchResult, IsExcluded}
use resource_topology_export.Middleware.Exclude
use resource_topology_export.Middleware.Terminal.{Listed, IsTerminal}
use resource_topology_export.Middleware.Terminal
use resource_topology_export.Middleware.SharedPool.{
  CpuSets, FilteringClient, find_shared_pool_cpus, shrink_pod,
}
use resource_topology_export.Middleware.SharedPool

-- The arguments that main reads for the client.
pub record ChainArgs : Type 0 where
  pub debug : Bool
  pub pod_exclude : List Item
  pub exclude_terminal_pods : Bool

module _ (glob : Text → Text → MatchResult) where
  -- The client of podexclude is there only if there are items.
  unfoldable pub exclude_items :
      {E : Type 0} → List Item → Bool → Reply E (List PodResources) → Reply E (List PodResources)
  exclude_items [] debug reply = reply
  exclude_items (item ∷ items) debug reply = Exclude.list glob (item ∷ items) debug reply

unfoldable pub exclude_terminal :
    {E : Type 0} → Bool → Listed E → Reply E (List PodResources) → Reply E (List PodResources)
exclude_terminal false pods reply = reply
exclude_terminal true pods reply = Terminal.list pods reply

module _ (cs : CpuSets) (glob : Text → Text → MatchResult) {E : Type 0} where
  -- What List gives at the end of the chain, over what the kubelet and the lister answer.
  unfoldable pub chained_list :
      ChainArgs
      → FilteringClient cs
      → Listed E
      → Reply E (List PodResources)
      → Reply E (List PodResources)
  unfolding exclude_items exclude_terminal
  chained_list args fc pods reply =
      exclude_terminal args.exclude_terminal_pods pods
        (exclude_items glob args.pod_exclude args.debug (SharedPool.list cs fc reply).1)

module _ (cs : CpuSets) (glob : Text → Text → MatchResult)
    (no_bad_match : (p n : Text) → (glob p n).bad_pattern ≡ true → (glob p n).matched ≡ false)
    {E : Type 0} (args : ChainArgs) (fc : FilteringClient cs) (pods : Listed E)
    (reply : Reply E (List PodResources)) where
  -- The pods without the CPUs of the shared pool.
  abbrev shrunk : List PodResources
  shrunk = map (shrink_pod cs (find_shared_pool_cpus cs fc.ref_cnt reply.resp)) reply.resp

  abbrev IsOff : PodResources → Type 0
  IsOff pr = (args.exclude_terminal_pods ≡ true) × IsTerminal pods.resp pr

  -- What the chain comes to.
  pub data Composed (out : Reply E (List PodResources)) : Type 0 where
    unreachable : (e : E) → reply.err ≡ some e → out ≡ reply → Composed out
    unlisted :
        (e : E)
        → reply.err ≡ none
        → args.exclude_terminal_pods ≡ true
        → pods.err ≡ some e
        → out.err ≡ some e
        → Filtered (IsExcluded glob args.pod_exclude) shrunk out.resp
        → Composed out
    filtered :
        reply.err ≡ none
        → out.err ≡ none
        → Filtered (λ pr. IsExcluded glob args.pod_exclude pr ⊎ IsOff pr) shrunk out.resp
        → Composed out
