-- ===== src/Examples/Clients.antt =====
-- The middleware of the pod resources client on a few pods.
use Prim.Native.String.{String}
use mathlib.Core.Path.{subst}
use resource_topology_export.Base.{
  ℕ, ◌≡◌, sym, ◌↔◌, inl, inr, Bool, true, false, not, ◌&&◌, none, some, List, [], ◌∷◌, Text,
  text_beq, arith, nat_beq, nat_beq_iff, any, select, any→Any, Any→any, Any-map, Bool-cases,
}
use resource_topology_export.Base.Int.{Int64}
use resource_topology_export.Base.Strings.{codes}
use resource_topology_export.Podres.{PodResources}
use resource_topology_export.Middleware.{Reply, Filtered}
use resource_topology_export.Middleware.Exclude.{
  Item, MatchResult, IsExcluded, filter_pods, filter_pods-Filtered,
}
use resource_topology_export.Middleware.Terminal
use resource_topology_export.Middleware.Terminal.{Pod, Listed, Outcome, list-Outcome}
use resource_topology_export.Middleware.SharedPool.{
  CpuSets, Has, FilteringClient, filter_list_response, Pairs, PodShrunk,
}
use resource_topology_export.Middleware.SharedPool.Pool.{
  IsSharedPool, filter_list_response-PodShrunk,
}
use resource_topology_export.Middleware.Chain.{ChainArgs}

abbrev pod_of : String → PodResources
pod_of name = record {
  name = codes name;
  namespace = codes "ns";
  containers = record { name = codes "c"; devices = []; memory = []; cpu_ids = 1 ∷ 2 ∷ [] } ∷ [];
}

abbrev pods : List PodResources
pods = pod_of "a" ∷ pod_of "b" ∷ []

-- Literal patterns, of which [ alone is malformed.
abbrev literal : Text → Text → MatchResult
literal pattern name = record {
  matched = not (text_beq pattern (codes "[")) && text_beq pattern name;
  bad_pattern = text_beq pattern (codes "[");
}

literal_bad : (p n : Text) → (literal p n).bad_pattern ≡ true → (literal p n).matched ≡ false
literal_bad p n h = ground arith

abbrev items : List Item
items =
    record { namespace_pattern = codes "["; name_pattern = codes "b" }
    ∷ record { namespace_pattern = codes "ns"; name_pattern = codes "a" }
    ∷ []

filter_pods-Filtered_example :
    Filtered (IsExcluded literal items) pods (filter_pods literal items true pods)
filter_pods-Filtered_example = filter_pods-Filtered literal literal_bad items true pods

abbrev listed : Listed ℕ
listed = record { resp = record { namespace = codes "ns"; name = codes "b" } ∷ []; err = none }

abbrev reply : Reply ℕ (List PodResources)
reply = record { resp = pods; err = none }

list-Outcome_example : Outcome listed reply (Terminal.list listed reply)
list-Outcome_example = list-Outcome listed reply

-- Sets of CPUs as lists.
absent : List Int64 → Int64 → Bool
absent b x = not (any (λ y. nat_beq y x) b)

Has-iff : (c : Int64) (l : List Int64) → (any (λ y. nat_beq y c) l ≡ true) ↔ Has c l
Has-iff c l = (
  (λ h. Any-map _ _ (λ y. (nat_beq_iff y c).0) l (any→Any _ l h)),
  λ h. Any→any _ l (Any-map _ _ (λ y. (nat_beq_iff y c).1) l h),
)

absent_iff : (b : List Int64) (x : Int64) → (absent b x ≡ true) ↔ ¬ Has x b
unfolding absent
absent_iff b x = (
  (λ h m. ground (arith, (Has-iff x b).1 m)),
  λ h. elim (Bool-cases (any (λ y. nat_beq y x) b)) [
    | inl e ↦ absurd (h ((Has-iff x b).0 e))
    | inr e ↦ rw e
  ],
)

select-Has : (a b : List Int64) (c : Int64) → Has c (select (absent b) a) ↔ (Has c a × ¬ Has c b)
unfolding select
select-Has [] b c = ((λ h. absurd h), λ h. h.0)
select-Has (x ∷ a) b c = elim (Bool-cases (absent b x)) [
  | inl e ↦ rw e (
    elim [
      | inl q ↦ (inl q, subst (λ y. ¬ Has y b) q ((absent_iff b x).0 e))
      | inr m ↦ let (h, k) = (select-Has a b c).0 m in (inr h, k)
    ],
    λ (m, k). elim m [ inl q ↦ inl q | inr h ↦ inr ((select-Has a b c).1 (h, k)) ],
  )
  | inr e ↦ rw e (
    (λ m. let (h, k) = (select-Has a b c).0 m in (inr h, k)),
    λ (m, k). elim m [
      | inl q ↦ absurd (cc ((absent_iff b x).1 (subst (λ y. ¬ Has y b) (sym q) k)))
      | inr h ↦ (select-Has a b c).1 (h, k)
    ],
  )
]

abbrev lists : CpuSets
lists = record {
  CpuSet = List Int64;
  empty = [];
  from_list = λ cpus. cpus;
  difference = λ a b. select (absent b) a;
  to_list = λ cpus. cpus;
  equals = λ a b. text_beq a b;
  mem_empty = λ c h. h;
  mem_from_list = λ cpus c. ((λ h. h), λ h. h);
  mem_difference = select-Has;
}

abbrev client : FilteringClient lists
client = record {
  ref_cnt =
      some (record { namespace = codes "ns"; pod_name = codes "b"; container_name = codes "c" });
  shared_pool_cpus = [];
}

filter_list_response-PodShrunk_example :
    (pool : List Int64) × IsSharedPool client.ref_cnt pool pods
    × Pairs (PodShrunk pool) pods (filter_list_response lists client pods).1
filter_list_response-PodShrunk_example = filter_list_response-PodShrunk lists client pods

abbrev chain_args : ChainArgs
chain_args = record { debug = true; pod_exclude = items; exclude_terminal_pods = true }
