-- ===== src/Sysinfo/Filed/Total.antt =====
-- MemoryForNode of pkg/sysinfo: the file that it reads.
use resource_topology_export.Base.{
  ◌≡◌, refl, sym, inl, inr, some, List, [], ◌∷◌, Text, Bool-cases, Option-cases, Result-cases,
}
use resource_topology_export.Base.Int.{Int64, minus_one}
use resource_topology_export.Base.Strings.{Parsed, codes, contains}
use resource_topology_export.Sysinfo.{SysFs, SysError, sys_devices_nodes_node_nth}
use resource_topology_export.Sysinfo.Memory.{
  mem_total, converted, total_of_parts, total_in, read_total_memory_from_meminfo, memory_for_node,
}

module _ {E : Type 0} (fs : SysFs E) where
  abbrev pub meminfo_path : Text → Int64 → Text
  meminfo_path root id = fs.join (sys_devices_nodes_node_nth fs root id ∷ codes "meminfo" ∷ [])

  converted-failed :
      (value : Text) (p : Parsed) (e : SysError E)
      → (converted value p).err ≡ some e
      → (converted {E = E} value p).resp ≡ minus_one
  unfolding converted
  converted-failed value p e h = elim (Option-cases p.error) [
    | inl n ↦ let bad = rw (converted, n) at h in cc
    | inr (x, n) ↦ rw (converted, n) refl
  ]

  total_of_parts-failed :
      (line : Text) (parts : List Text) (e : SysError E)
      → (total_of_parts line parts).err ≡ some e
      → (total_of_parts {E = E} line parts).resp ≡ minus_one
  unfolding total_of_parts
  total_of_parts-failed line [] e h = refl
  total_of_parts-failed line (label ∷ []) e h = refl
  total_of_parts-failed line (label ∷ value ∷ []) e h = converted-failed _ _ e h
  total_of_parts-failed line (label ∷ value ∷ more ∷ parts) e h = refl

  total_in-failed :
      (path : Text) (lines : List Text) (e : SysError E)
      → (total_in path lines).err ≡ some e
      → (total_in {E = E} path lines).resp ≡ minus_one
  unfolding total_in
  total_in-failed path [] e h = refl
  total_in-failed path (line ∷ lines) e h = elim (Bool-cases (contains line mem_total)) [
    | inl b ↦ rw b (total_of_parts-failed line _ e (rw b at h))
    | inr b ↦ rw b (total_in-failed path lines e (rw b at h))
  ]

  read_total-failed :
      (path : Text) (e : SysError E)
      → (read_total_memory_from_meminfo fs path).err ≡ some e
      → (read_total_memory_from_meminfo fs path).resp ≡ minus_one
  unfolding read_total_memory_from_meminfo
  read_total-failed path e h = elim (Result-cases (fs.read_file path)) [
    | inl (x, r) ↦ rw (read_total_memory_from_meminfo, r) refl
    | inr (file, r) ↦
        rw (read_total_memory_from_meminfo, r)
          (total_in-failed path _ e (rw (read_total_memory_from_meminfo, r) at h))
  ]

  -- MemoryForNode gives what is read from the meminfo of the node.
  pub memory_for_node-resp :
      (root : Text) (id : Int64)
      → (memory_for_node fs root id).resp
        ≡ (read_total_memory_from_meminfo fs (meminfo_path root id)).resp
  unfolding memory_for_node
  memory_for_node-resp root id =
      elim (Option-cases (read_total_memory_from_meminfo fs (meminfo_path root id)).err) [
        | inr (e, p) ↦ rw (memory_for_node, p) (sym (read_total-failed (meminfo_path root id) e p))
        | inl p ↦ rw (memory_for_node, p) refl
      ]
