-- ===== src/Sysinfo/Filed/Counted.antt =====
-- GetMemoryResourceCounters of pkg/sysinfo: what it counts on each NUMA node.
use resource_topology_export.Base.{
  ◌≡◌, refl, ap, ◌∙◌, inl, inr, false, none, some, List, [], Text, ok, nat_eq, text_eq, text_beq,
  if◌then◌else◌, Option-cases, Result-cases, any,
}
use resource_topology_export.Base.Int.{Int64}
use resource_topology_export.Base.Dict.{
  Dict, get, get_or, put, put_all, or_else, IsUnique, get-put_all, get_or-put, beq_refl,
}
use resource_topology_export.Monitor.Normalize.{resource_memory}
use resource_topology_export.Monitor.Resources.{MemoryCounters}
use resource_topology_export.Sysinfo.{Entry, SysFs, Hugepages, sys_devices_nodes}
use resource_topology_export.Sysinfo.Memory.{
  get_memory, memory_of_entries, read_total_memory_from_meminfo,
}
use resource_topology_export.Sysinfo.Pages.{get_hugepages}
use resource_topology_export.Sysinfo.Counters.{
  add_hugepages, no_counters, get_memory_resource_counters,
}
use resource_topology_export.Sysinfo.Filed.Read.{AllPages, get_hugepages-AllPages}
use resource_topology_export.Sysinfo.Filed.Total.{meminfo_path, memory_for_node-resp}
use resource_topology_export.Sysinfo.Filed.{
  names_node, last_bytes, filed_from, memory_of_entries-IsUnique, add_hugepages-last_bytes,
  memory_stays,
}

-- The counters, by what the entries of the directory of the nodes and the huge pages say.
pub record IsCounted {E : Type 0} (quantity_text : Int64 → Text) (fs : SysFs E) (root : Text)
    (counters : MemoryCounters) : Type 0 where
  pub entries : List Entry
  pub are_entries : fs.read_dir (sys_devices_nodes fs root) ≡ ok entries
  pub pages : List Hugepages
  pub are_pages : AllPages fs root entries pages
  pub memory_on :
      (id : Int64)
      → get (get_or counters resource_memory []) id ≡ (
          if any (names_node id) entries
          then some (read_total_memory_from_meminfo fs (meminfo_path fs root id)).resp
          else none)
  pub hugepages_on :
      (name : Text) (id : Int64)
      → text_beq resource_memory name ≡ false
      → get (get_or counters name []) id ≡ last_bytes quantity_text name id pages

module _ {E : Type 0} (quantity_text : Int64 → Text) (fs : SysFs E) (root : Text) where
  abbrev hugepage_counters : MemoryCounters
  hugepage_counters =
      add_hugepages quantity_text (get_hugepages fs root).resp (no_counters quantity_text)

  hugepage_counters-memory : get_or hugepage_counters resource_memory [] ≡ []
  hugepage_counters-memory =
      memory_stays quantity_text (get_hugepages fs root).resp (no_counters quantity_text)
        (unfold get_or get text_beq in refl)

  written : Dict Int64 Int64 → MemoryCounters
  written memory =
      put hugepage_counters resource_memory
        (put_all (get_or hugepage_counters resource_memory []) memory)

  under_memory :
      (memory : Dict Int64 Int64) (id : Int64)
      → IsUnique memory
      → get (get_or (written memory) resource_memory []) id ≡ get memory id
  unfolding written
  under_memory memory id u =
      let found : get_or (written memory) resource_memory [] ≡ put_all [] memory =
        get_or-put hugepage_counters resource_memory resource_memory _ []
        ∙ rw (hugepage_counters-memory, beq_refl resource_memory) refl in
      let last : or_else (get memory id) (get [] id) ≡ get memory id =
        unfold or_else get in
        elim (Option-cases (get memory id)) [ inl e ↦ rw e refl | inr (v, e) ↦ rw e refl ] in
      ap (λ d. get d id) found ∙ get-put_all [] memory id u ∙ last

  under_other :
      (memory : Dict Int64 Int64) (name : Text) (id : Int64)
      → text_beq resource_memory name ≡ false
      → get (get_or (written memory) name []) id
        ≡ last_bytes quantity_text name id (get_hugepages fs root).resp
  unfolding written text_beq
  under_other memory name id other =
      let kept : get_or (written memory) name [] ≡ get_or hugepage_counters name [] =
        get_or-put hugepage_counters resource_memory name _ [] ∙ rw other refl in
      let nothing : get_or (no_counters quantity_text) name [] ≡ [] =
        unfold get_or get in rw other refl in
      ap (λ d. get d id) kept
      ∙ add_hugepages-last_bytes quantity_text (get_hugepages fs root).resp
          (no_counters quantity_text) name id
      ∙ ap (λ d. or_else (last_bytes quantity_text name id (get_hugepages fs root).resp) (get d id))
          nothing
      ∙ elim (Option-cases (last_bytes quantity_text name id (get_hugepages fs root).resp)) [
        | inl e ↦ unfold or_else get in rw e refl
        | inr (v, e) ↦ unfold or_else get in rw e refl
      ]

  IsCounted-memory :
      (get_hugepages fs root).err ≡ none
      → (get_memory fs root).err ≡ none
      → IsCounted quantity_text fs root (written (get_memory fs root).resp)
  unfolding get_memory get
  IsCounted-memory g h = elim (Result-cases (fs.read_dir (sys_devices_nodes fs root))) [
    | inl (e, r) ↦ let bad = rw (get_memory, r) at h in cc
    | inr (entries, r) ↦
        let works : (memory_of_entries fs root entries []).err ≡ none = rw (get_memory, r) at h in
        let same : (get_memory fs root).resp ≡ (memory_of_entries fs root entries []).resp =
          rw (get_memory, r) refl in
        rw same (record {
          entries = entries;
          are_entries = r;
          pages = (get_hugepages fs root).resp;
          are_pages = get_hugepages-AllPages fs root entries r g;
          memory_on = λ id.
              under_memory _ id (memory_of_entries-IsUnique fs root entries [] tt works)
              ∙ filed_from fs root entries [] id works
              ∙ ap (λ (v : Int64). if any (names_node id) entries then some v else none)
                  (memory_for_node-resp fs root id);
          hugepages_on = λ name id other. under_other _ name id other;
        })
  ]

  works_lem :
      (get_memory_resource_counters quantity_text fs root).err ≡ none
      → ((get_hugepages fs root).err ≡ none)
        × ((get_memory fs root).err ≡ none)
        × ((get_memory_resource_counters quantity_text fs root).resp
            ≡ written (get_memory fs root).resp)
  unfolding get_memory_resource_counters written
  works_lem h = elim (Option-cases (get_hugepages fs root).err) [
    | inr (e, p) ↦ let bad = rw (get_memory_resource_counters, p) at h in cc
    | inl p ↦ elim (Option-cases (get_memory fs root).err) [
      | inr (e, q) ↦ let bad = rw (get_memory_resource_counters, p, q) at h in cc
      | inl q ↦ (p, q, rw (get_memory_resource_counters, p, q) refl)
    ]
  ]

  -- When GetMemoryResourceCounters works, it counts as memory of a node what
  -- readTotalMemoryFromMeminfo reads from the node's meminfo, for exactly the nodes that have a
  -- directory. Under any other resource it counts the bytes of the last huge pages of that resource on
  -- the node: of the huge pages that the directories of the nodes hold, one for each directory under
  -- hugepages, of the size in its name, with the number that its file nr_hugepages holds.
  pub get_memory_resource_counters-IsCounted :
      (get_memory_resource_counters quantity_text fs root).err ≡ none
      → IsCounted quantity_text fs root (get_memory_resource_counters quantity_text fs root).resp
  get_memory_resource_counters-IsCounted h =
      let (p, q, same) = works_lem h in rw same (IsCounted-memory p q)
