-- ===== src/Monitor/Resources/Panics.antt =====
-- When updateNodeResources of pkg/resourcemonitor runs into a nil map or a nil node.
use resource_topology_export.Base.{
  ◌≡◌, refl, ◌↔◌, inl, inr, true, false, Option, none, some, [], ◌∷◌, arith, Text, nat_eq, text_eq,
  nat_beq_iff, Any, Any-map, Bool-cases, Option-cases,
}
use resource_topology_export.Base.Int.{Int64}
use resource_topology_export.Base.Dict.{get, put, get-put}
use resource_topology_export.Monitor.Counters.{ResourceCounter, PerNumaResourceCounter}
use resource_topology_export.Monitor.Resources.{
  is_native_resource, copy_counter, update_devices_capacity,
}

-- The counter has a resource of a device plugin.
abbrev pub HasDevice : ResourceCounter → Type 0
HasDevice counter = Any (λ entry. is_native_resource entry.0 ≡ false) counter

-- A device is counted on a NUMA node for which there is no capacity.
abbrev pub HasStray : PerNumaResourceCounter → PerNumaResourceCounter → Type 0
HasStray allocatable capacity =
    Any (λ entry. HasDevice entry.1 × (get capacity entry.0 ≡ none)) allocatable

-- Two maps with the same keys.
abbrev SameKeys : PerNumaResourceCounter → PerNumaResourceCounter → Type 0
SameKeys c d = (k : Int64) → (get c k ≡ none) ↔ (get d k ≡ none)

put-SameKeys :
    (c : PerNumaResourceCounter) (numa : Int64) (old new : ResourceCounter)
    → get c numa ≡ some old
    → SameKeys (put c numa new) c
put-SameKeys c numa old new h k = ground (arith, get-put c numa k new, nat_beq_iff numa k)

-- What the inner loop does.
data Copied (numa : Int64) (counter : ResourceCounter) (c : PerNumaResourceCounter)
    : Option PerNumaResourceCounter → Type 0 where
  stray : HasDevice counter → get c numa ≡ none → Copied numa counter c none
  copied :
      {d : PerNumaResourceCounter}
      → SameKeys d c
      → ¬ (HasDevice counter × (get c numa ≡ none))
      → Copied numa counter c (some d)

Copied-native :
    (numa : Int64) (name : Text) (quan : Int64) (counter : ResourceCounter)
    (c : PerNumaResourceCounter) {out : Option PerNumaResourceCounter}
    → is_native_resource name ≡ true
    → Copied numa counter c out
    → Copied numa ((name, quan) ∷ counter) c out
Copied-native numa name quan counter c e (stray h g) = stray (inr h) g
Copied-native numa name quan counter c e (copied s n) =
    copied s (λ (h, g). elim h [ inl x ↦ cc | inr y ↦ n (y, g) ])

Copied-device :
    (numa : Int64) (name : Text) (quan : Int64) (counter : ResourceCounter)
    (c c' : PerNumaResourceCounter) {old : ResourceCounter} {out : Option PerNumaResourceCounter}
    → get c numa ≡ some old
    → SameKeys c' c
    → Copied numa counter c' out
    → Copied numa ((name, quan) ∷ counter) c out
Copied-device numa name quan counter c c' h k (stray d g) = absurd (ground (arith, (k numa).0 g))
Copied-device numa name quan counter c c' h k (copied s n) =
    copied (λ j. ((λ g. (k j).0 ((s j).0 g)), λ g. (s j).1 ((k j).1 g))) (λ (d, g). ground arith)

module _ (numa : Int64) (name : Text) (quan : Int64) (rest : ResourceCounter)
    (c : PerNumaResourceCounter) where
  copy_counter_native :
      is_native_resource name ≡ true
      → copy_counter numa ((name, quan) ∷ rest) c ≡ copy_counter numa rest c
  unfolding copy_counter
  copy_counter_native e = rw (e, copy_counter)

  copy_counter_stray :
      is_native_resource name ≡ false
      → get c numa ≡ none
      → copy_counter numa ((name, quan) ∷ rest) c ≡ none
  unfolding copy_counter
  copy_counter_stray e g = rw (e, copy_counter) (rw g)

  copy_counter_device :
      {old : ResourceCounter}
      → is_native_resource name ≡ false
      → get c numa ≡ some old
      → copy_counter numa ((name, quan) ∷ rest) c
        ≡ copy_counter numa rest (put c numa (put old name quan))
  unfolding copy_counter
  copy_counter_device e g = rw (e, copy_counter) (rw g)

copy_counter-Copied :
    (numa : Int64) (counter : ResourceCounter) (c : PerNumaResourceCounter)
    → Copied numa counter c (copy_counter numa counter c)
copy_counter-Copied numa [] c =
    unfold copy_counter in copied (λ k. ((λ h. h), λ h. h)) (λ (h, g). h)
copy_counter-Copied numa ((name, quan) ∷ rest) c = elim (Bool-cases (is_native_resource name)) [
  | inl e ↦
      rw (copy_counter_native numa name quan rest c e)
        (Copied-native numa name quan rest c e (copy_counter-Copied numa rest c))
  | inr e ↦ elim (Option-cases (get c numa)) [
    | inl g ↦ rw (copy_counter_stray numa name quan rest c e g) (stray (inl e) g)
    | inr (old, g) ↦ rw (copy_counter_device numa name quan rest c e g) (
        Copied-device numa name quan rest c (put c numa (put old name quan)) g
          (put-SameKeys c numa old (put old name quan) g)
          (copy_counter-Copied numa rest (put c numa (put old name quan))))
  ]
]

Any-stray :
    (allocatable c d : PerNumaResourceCounter)
    → SameKeys d c
    → HasStray allocatable c
    → HasStray allocatable d
Any-stray allocatable c d s h = Any-map _ _ (λ entry (dev, g). (dev, (s entry.0).1 g)) allocatable h

-- What the outer loop does.
data Updated (allocatable c : PerNumaResourceCounter) : Option PerNumaResourceCounter → Type 0 where
  fails : HasStray allocatable c → Updated allocatable c none
  works :
      {d : PerNumaResourceCounter}
      → SameKeys d c
      → ¬ HasStray allocatable c
      → Updated allocatable c (some d)

Updated-next :
    (numa : Int64) (counter : ResourceCounter) (rest c d : PerNumaResourceCounter)
    {out : Option PerNumaResourceCounter}
    → SameKeys d c
    → ¬ (HasDevice counter × (get c numa ≡ none))
    → Updated rest d out
    → Updated ((numa, counter) ∷ rest) c out
Updated-next numa counter rest c d s n (fails h) =
    fails (inr (Any-stray rest d c (λ k. ((s k).1, (s k).0)) h))
Updated-next numa counter rest c d s n (works t m) =
    works (λ k. ((λ g. (s k).0 ((t k).0 g)), λ g. (t k).1 ((s k).1 g)))
      (elim [ inl x ↦ n x | inr y ↦ m (Any-stray rest c d s y) ])

-- The outer loop after one round.
Updated-step :
    (numa : Int64) (counter : ResourceCounter) (rest c : PerNumaResourceCounter)
    (o : Option PerNumaResourceCounter)
    → Copied numa counter c o
    → ((d : PerNumaResourceCounter) → Updated rest d (update_devices_capacity rest d))
    → Updated
        ((numa, counter) ∷ rest)
        c
        (elim o [ none ↦ none | some d ↦ update_devices_capacity rest d ])
Updated-step numa counter rest c none (stray h g) next = fails (inl (h, g))
Updated-step numa counter rest c (some d) (copied s n) next =
    Updated-next numa counter rest c d s n (next d)

update_devices_capacity-Updated :
    (allocatable c : PerNumaResourceCounter)
    → Updated allocatable c (update_devices_capacity allocatable c)
unfolding update_devices_capacity
update_devices_capacity-Updated [] c = works (λ k. ((λ h. h), λ h. h)) (λ h. h)
update_devices_capacity-Updated ((numa, counter) ∷ rest) c =
    Updated-step numa counter rest c (copy_counter numa counter c)
      (copy_counter-Copied numa counter c) (update_devices_capacity-Updated rest)

none-Updated :
    (allocatable c : PerNumaResourceCounter) {out : Option PerNumaResourceCounter}
    → Updated allocatable c out
    → (out ≡ none) ↔ HasStray allocatable c
none-Updated allocatable c (fails h) = ((λ e. h), λ x. refl)
none-Updated allocatable c (works s n) = ((λ e. cc), λ x. absurd (n x))

-- updateDevicesCapacity writes to a nil map, a panic, exactly when a device resource is counted as
-- allocatable on a NUMA node for which there is no capacity.
pub update_devices_capacity_panics_iff :
    (allocatable capacity : PerNumaResourceCounter)
    → (update_devices_capacity allocatable capacity ≡ none) ↔ HasStray allocatable capacity
update_devices_capacity_panics_iff allocatable capacity =
    none-Updated allocatable capacity (update_devices_capacity-Updated allocatable capacity)
