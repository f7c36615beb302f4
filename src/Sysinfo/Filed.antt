-- ===== src/Sysinfo/Filed.antt =====
-- What GetMemory and the huge pages put under a NUMA node.
pub mod Counted
pub mod Read
pub mod Total
use resource_topology_export.Base.{
  ℕ, ◌≡◌, ◌≢◌, refl, sym, ap, ◌∙◌, inl, inr, Bool, true, false, ◌&&◌, Option, none, some, List, [],
  ◌∷◌, ◌++◌, arith, Text, Result, ok, failed, nat_eq, text_eq, ◌==◌, text_beq, text_beq_iff,
  nat_beq, nat_beq_iff, if◌then◌else◌, Bool-cases, Option-cases, Result-cases, any,
}
use resource_topology_export.Base.Int.{Int64, mul64}
use resource_topology_export.Base.Dict.{
  Dict, get, get_or, put, put_all, or_else, IsUnique, put-IsUnique, get-put_all, get-put,
  get_or-put, get-put_self, beq_refl,
}
use resource_topology_export.Base.Strings.{codes, parse_int}
use resource_topology_export.Middleware.{Reply}
use resource_topology_export.Monitor.Normalize.{resource_memory}
use resource_topology_export.Monitor.Resources.{MemoryCounters}
use resource_topology_export.Sysinfo.{
  Entry, SysFs, SysError, Hugepages, is_node_dir, after_node, sys_devices_nodes,
}
use resource_topology_export.Sysinfo.Memory.{get_memory, memory_of_entries, memory_for_node}
use resource_topology_export.Sysinfo.Pages.{get_hugepages}
use resource_topology_export.Sysinfo.Counters.{
  hugepage_resource_name_from_size, add_hugepages, no_counters, get_memory_resource_counters,
}

-- The entry is a directory for the node.
abbrev pub names_node : Int64 → Entry → Bool
names_node id entry = is_node_dir entry && nat_beq (parse_int (after_node entry.name)).value id

module _ {E : Type 0} (fs : SysFs E) (root : Text) where
  memory_skips :
      (entry : Entry) (entries : List Entry) (memory : Dict Int64 Int64)
      → is_node_dir entry ≡ false
      → memory_of_entries fs root (entry ∷ entries) memory
        ≡ memory_of_entries fs root entries memory
  unfolding memory_of_entries
  memory_skips entry entries memory d = rw (memory_of_entries, d) refl

  -- An entry for a node that can be read, and the rest.
  memory_reads :
      (entry : Entry) (entries : List Entry) (memory : Dict Int64 Int64)
      → is_node_dir entry ≡ true
      → (memory_of_entries fs root (entry ∷ entries) memory).err ≡ none
      → memory_of_entries fs root (entry ∷ entries) memory
        ≡ memory_of_entries fs root entries (
            put memory
              (parse_int (after_node entry.name)).value
              (memory_for_node fs root (parse_int (after_node entry.name)).value).resp)
  unfolding memory_of_entries
  memory_reads entry entries memory d h =
      elim (Option-cases (parse_int (after_node entry.name)).error) [
        | inr (e, p) ↦ let bad = rw (memory_of_entries, d, p) at h in cc
        | inl p ↦
            elim (Option-cases
              (memory_for_node fs root (parse_int (after_node entry.name)).value).err) [
                | inr (e, q) ↦ let bad = rw (memory_of_entries, d, p, q) at h in cc
                | inl q ↦ rw (memory_of_entries, d, p, q) refl
              ]
      ]

  pub filed_from :
      (entries : List Entry) (memory : Dict Int64 Int64) (id : Int64)
      → (memory_of_entries fs root entries memory).err ≡ none
      → get (memory_of_entries fs root entries memory).resp id ≡ (
          if any (names_node id) entries
          then some (memory_for_node fs root id).resp
          else get memory id)
  unfolding any
  filed_from [] memory id h = unfold memory_of_entries in refl
  filed_from (entry ∷ entries) memory id h = elim (Bool-cases (is_node_dir entry)) [
    | inr d ↦
        let skip = memory_skips entry entries memory d in
        rw (skip, d) (filed_from entries memory id (rw skip at h))
    | inl d ↦
        let step = memory_reads entry entries memory d h in
        let node = (parse_int (after_node entry.name)).value in
        let read = (memory_for_node fs root node).resp in
        elim (Bool-cases (nat_beq node id)) [
          | inl same ↦
              rw (step, d, same)
                (filed_from entries (put memory node read) id (rw step at h)
                  ∙ rw (get-put memory node id read, same, sym ((nat_beq_iff node id).0 same))
                      (ground arith))
          | inr other ↦
              rw (step, d, other)
                (filed_from entries (put memory node read) id (rw step at h)
                  ∙ rw (get-put memory node id read, other) refl)
        ]
  ]

  pub memory_of_entries-IsUnique :
      (entries : List Entry) (memory : Dict Int64 Int64)
      → IsUnique memory
      → (memory_of_entries fs root entries memory).err ≡ none
      → IsUnique (memory_of_entries fs root entries memory).resp
  memory_of_entries-IsUnique [] memory u h = unfold memory_of_entries in u
  memory_of_entries-IsUnique (entry ∷ entries) memory u h = elim (Bool-cases (is_node_dir entry)) [
    | inr d ↦
        let skip = memory_skips entry entries memory d in
        rw skip (memory_of_entries-IsUnique entries memory u (rw skip at h))
    | inl d ↦
        let step = memory_reads entry entries memory d h in
        rw step (memory_of_entries-IsUnique entries _ (put-IsUnique memory _ _ u) (rw step at h))
  ]

module _ (quantity_text : Int64 → Text) where
  -- The huge pages stand on the node under the resource.
  abbrev pub are_under : Text → Int64 → Hugepages → Bool
  are_under name id hp =
      text_beq (hugepage_resource_name_from_size quantity_text hp.size_kb) name
      && nat_beq hp.node_id id

  -- The bytes of the last huge pages that stand on the node under the resource.
  unfoldable pub last_bytes : Text → Int64 → List Hugepages → Option Int64
  unfolding or_else
  last_bytes name id [] = none
  last_bytes name id (hp ∷ hps) =
      or_else (last_bytes name id hps)
        (if are_under name id hp then some (mul64 (mul64 hp.total hp.size_kb) 1024) else none)

  or_else_assoc : (a b c : Option Int64) → or_else a (or_else b c) ≡ or_else (or_else a b) c
  unfolding or_else
  or_else_assoc none b c = refl
  or_else_assoc (some v) b c = refl

  written_one :
      (hp : Hugepages) (counters : MemoryCounters) (name key : Text) (id : Int64) (v : Int64)
      → get (get_or (put counters key (put (get_or counters key []) hp.node_id v)) name []) id
        ≡ or_else
            (if text_beq key name && nat_beq hp.node_id id then some v else none)
            (get (get_or counters name []) id)
  unfolding or_else
  written_one hp counters name key id v = elim (Bool-cases (text_beq key name)) [
    | inl same ↦
        rw
          (
            get_or-put counters key name (put (get_or counters key []) hp.node_id v) [],
            same,
            get-put (get_or counters key []) hp.node_id id v,
            (text_beq_iff key name).0 same,
          )
          (ground arith)
    | inr other ↦
        rw (get_or-put counters key name (put (get_or counters key []) hp.node_id v) [], other) refl
  ]

  pub add_hugepages-last_bytes :
      (hps : List Hugepages) (counters : MemoryCounters) (name : Text) (id : Int64)
      → get (get_or (add_hugepages quantity_text hps counters) name []) id
        ≡ or_else (last_bytes name id hps) (get (get_or counters name []) id)
  unfolding add_hugepages last_bytes
  add_hugepages-last_bytes [] counters name id = unfold or_else in refl
  add_hugepages-last_bytes (hp ∷ hps) counters name id =
      add_hugepages-last_bytes hps _ name id
      ∙ ap (or_else (last_bytes name id hps)) (
          written_one hp counters name (hugepage_resource_name_from_size quantity_text hp.size_kb)
            id _)
      ∙ or_else_assoc (last_bytes name id hps) _ _

  not_under_memory :
      (size : Int64)
      → text_beq (hugepage_resource_name_from_size quantity_text size) resource_memory ≡ false
  unfolding hugepage_resource_name_from_size text_beq
  not_under_memory size = refl

  -- Nothing stands under memory after the huge pages.
  pub memory_stays :
      (hps : List Hugepages) (counters : MemoryCounters)
      → get_or counters resource_memory [] ≡ []
      → get_or (add_hugepages quantity_text hps counters) resource_memory [] ≡ []
  unfolding add_hugepages
  memory_stays [] counters h = h
  memory_stays (hp ∷ hps) counters h =
      memory_stays hps _
        (get_or-put counters _ resource_memory _ [] ∙ rw (not_under_memory hp.size_kb) h)
