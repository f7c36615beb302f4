-- ===== src/Monitor/Scan/Resources.antt =====
-- The resources of one zone of Scan in pkg/resourcemonitor: their quantities and their choice.
use mathlib.Core.Path.{subst}
use resource_topology_export.Base.{
  ◌-◌, ◌≤◌, ◌≡◌, ◌↔◌, refl, sym, true, Option, none, some, List, [], ◌∷◌, map, ◌⊎◌, inl, inr, arith,
  Text, nat_eq, text_eq, text_beq_iff, Any, any→Any, Any→any, Any-map, Bool-cases,
}
use resource_topology_export.Base.Int.{
  Int64, NonNegative, sub64_negative, sub64-eq-sub, lt64-eq-ltb,
}
use resource_topology_export.Base.Dict.{get, get_or}
use resource_topology_export.Base.Strings.{codes}
use resource_topology_export.Middleware.{Filtered, done, drop, keep}
use resource_topology_export.Monitor.Counters.{ResourceCounter}
use resource_topology_export.Monitor.Scan.{
  ResourceExclude, in_exclude_set, ResourceInfo, report_capacity, report_available, has_name,
  resource_info, zone_resources,
}

-- The three quantities of a resource, against what was counted.
pub record IsConsistent (alloc used : Int64) (info : ResourceInfo) : Type 0 where
  pub allocatable : info.allocatable ≡ alloc
  pub available : info.available ≡ alloc - used
  pub available_le : info.available ≤ info.allocatable
  pub allocatable_le : info.allocatable ≤ info.capacity
  pub capacity_fits : NonNegative info.capacity

report_available-eq-sub :
    (alloc used : Int64)
    → NonNegative alloc
    → NonNegative used
    → report_available alloc used ≡ alloc - used
unfolding report_available
report_available-eq-sub alloc used a u =
    ground (arith, sub64_negative alloc used a u, sub64-eq-sub alloc used a u)

abbrev pub KnownFits : Option Int64 → Type 0
KnownFits none = Unit
KnownFits (some c) = NonNegative c

le-report_capacity :
    (known : Option Int64) (alloc : Int64)
    → KnownFits known
    → NonNegative alloc
    → alloc ≤ report_capacity known alloc
unfolding report_capacity
le-report_capacity none alloc k a = ground (arith, lt64-eq-ltb alloc alloc a a)
le-report_capacity (some c) alloc k a =
    ground (arith, lt64-eq-ltb c alloc k a, lt64-eq-ltb alloc alloc a a)

report_capacity-fits :
    (known : Option Int64) (alloc : Int64)
    → KnownFits known
    → NonNegative alloc
    → NonNegative (report_capacity known alloc)
unfolding report_capacity
report_capacity-fits none alloc k a = ground (arith, lt64-eq-ltb alloc alloc a a)
report_capacity-fits (some c) alloc k a =
    ground (arith, lt64-eq-ltb c alloc k a, lt64-eq-ltb alloc alloc a a)

-- A resource is reported with the allocatable that was counted, with the rest of it that is not
-- used, or zero if more is used, and with a capacity that is not negative and not below the
-- allocatable; the counts are not negative.
pub resource_info-IsConsistent :
    (capacities used : ResourceCounter) (name : Text) (alloc : Int64)
    → NonNegative alloc
    → NonNegative (get_or used name 0)
    → KnownFits (get capacities name)
    → IsConsistent alloc (get_or used name 0) (resource_info capacities used name alloc)
unfolding resource_info
resource_info-IsConsistent capacities used name alloc a u k =
    let av = report_available-eq-sub alloc (get_or used name 0) a u in
    record {
      allocatable = refl;
      available = av;
      available_le = omega (arith, av);
      allocatable_le = le-report_capacity (get capacities name) alloc k a;
      capacity_fits = report_capacity-fits (get capacities name) alloc k a;
    }

-- The exclude list names the resource for every node or for this one.
abbrev pub IsListed : ResourceExclude → Text → Text → Type 0
IsListed exclude key name =
    (names : List Text) × (get exclude key ≡ some names) × Any (λ n. n ≡ name) names

abbrev pub IsExcludedName : ResourceExclude → Text → Text → Type 0
IsExcludedName exclude node_name name =
    IsListed exclude (codes "*") name ⊎ IsListed exclude node_name name

has_name_iff :
    (name : Text) (o : Option (List Text))
    → (has_name name o ≡ true)
      ↔ ((names : List Text) × (o ≡ some names) × Any (λ n. n ≡ name) names)
has_name_iff name none = ((λ h. absurd (ground arith)), λ (ns, g, m). absurd (ground arith))
has_name_iff name (some names) = (
  (λ h. (names, refl, Any-map _ _ (λ n. (text_beq_iff n name).0) names (any→Any _ names h))),
  λ (ns, g, m). Any→any _ names (
      Any-map _ _ (λ n. (text_beq_iff n name).1) names
        (let q : names ≡ ns = cc g in subst (λ l. Any (λ n. n ≡ name) l) (sym q) m)),
)

in_exclude_set_iff :
    (exclude : ResourceExclude) (node_name name : Text)
    → (in_exclude_set exclude name node_name ≡ true) ↔ IsExcludedName exclude node_name name
unfolding in_exclude_set
in_exclude_set_iff exclude node_name name =
    let star = has_name_iff name (get exclude (codes "*")) in
    let own = has_name_iff name (get exclude node_name) in
    (
      (λ h. elim (Bool-cases (has_name name (get exclude (codes "*")))) [
        | inl e ↦ inl (star.0 e)
        | inr e ↦ inr (own.0 (ground arith))
      ]),
      elim [ inl x ↦ ground (arith, star.1 x) | inr y ↦ ground (arith, own.1 y) ],
    )

-- What is reported as allocatable, with its name.
abbrev pub reported_pair : ResourceInfo → Text × Int64
reported_pair info = (info.name, info.allocatable)

-- A zone lists exactly the allocatable resources of the node that the exclude list does not name,
-- for every node or for this one, each with its allocatable count, in their order.
pub zone_resources-Filtered :
    (exclude : ResourceExclude) (node_name : Text) (capacities used alloc : ResourceCounter)
    → Filtered
        (λ e. IsExcludedName exclude node_name e.0)
        alloc
        (map reported_pair (zone_resources exclude node_name capacities used alloc))
unfolding zone_resources resource_info
zone_resources-Filtered exclude node_name capacities used [] = done
zone_resources-Filtered exclude node_name capacities used ((name, quan) ∷ rest) =
    elim (Bool-cases (in_exclude_set exclude name node_name)) [
      | inl e ↦ rw e (
          drop ((in_exclude_set_iff exclude node_name name).0 e)
            (zone_resources-Filtered exclude node_name capacities used rest))
      | inr e ↦ rw e (
          keep (λ h. cc ((in_exclude_set_iff exclude node_name name).1 h))
            (zone_resources-Filtered exclude node_name capacities used rest))
    ]
