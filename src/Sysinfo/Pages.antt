-- ===== src/Sysinfo/Pages.antt =====
-- hugepages.go and sysinfo.go of pkg/sysinfo: the huge pages of the NUMA nodes, and the counters of
-- memory and huge pages.
use resource_topology_export.Base.{
  true, false, ◌&&◌, ◌||◌, Option, none, some, List, [], ◌∷◌, ◌++◌, Text, Result, ok, failed,
  nat_eq, text_eq, nat_beq, leb, if◌then◌else◌,
}
use resource_topology_export.Base.Int.{Int64, minus_one}
use resource_topology_export.Base.Strings.{Parsed, codes, has_prefix, is_space, trim, parse_int}
use resource_topology_export.Middleware.{Reply}
use resource_topology_export.Sysinfo.{
  Entry, SysFs, SysError, Hugepages, os_error, no_integer, no_node_id, no_hugepages_on,
  malformed_entry, not_clean, not_subpath, unread, sys_devices_nodes, sys_devices_nodes_node_nth,
  is_node_dir, after_node,
}

-- What fmt.Sscanf(name, "hugepages-%dkB", &size) reads: the literal, white space but no new line, a
-- sign, decimal digits, the literal; what follows is left.
unfoldable pub skip_literal : Text → Text → Option Text
skip_literal [] s = some s
skip_literal (p ∷ ps) [] = none
skip_literal (p ∷ ps) (c ∷ s) = let rest = skip_literal ps s in if nat_beq p c then rest else none

unfoldable pub skip_blanks : Text → Option Text
skip_blanks [] = some []
skip_blanks (c ∷ s) =
    let rest = skip_blanks s in
    if nat_beq c 10 then none else if is_space c then rest else some (c ∷ s)

unfoldable pub take_digits : Text → Text × Text
take_digits [] = ([], [])
take_digits (c ∷ s) =
    let (digits, rest) = take_digits s in
    if leb 48 c && leb c 57 then (c ∷ digits, rest) else ([], c ∷ s)

unfoldable pub take_number : Text → Text × Text
unfolding take_digits
take_number [] = ([], [])
take_number (c ∷ s) =
    let (digits, rest) = take_digits s in
    if nat_beq c b'+' || nat_beq c b'-' then (c ∷ digits, rest) else take_digits (c ∷ s)

unfoldable pub scanned_number : Text × Text → Option Int64
unfolding skip_literal
scanned_number (number, rest) = elim (parse_int number).error [
  | some e ↦ none
  | none ↦ elim (skip_literal (codes "kB") rest) [
    | none ↦ none
    | some s ↦ some (parse_int number).value
  ]
]

unfoldable pub scan_size : Text → Option Int64
unfolding skip_literal skip_blanks take_number scanned_number
scan_size name = elim (skip_literal (codes "hugepages-") name) [
  | none ↦ none
  | some s ↦ elim (skip_blanks s) [ none ↦ none | some s' ↦ scanned_number (take_number s') ]
]

module _ {E : Type 0} where
  int_of : Parsed → Reply (SysError E) Int64
  int_of parsed = elim parsed.error [
    | some e ↦ record { resp = parsed.value; err = some (no_integer e) }
    | none ↦ record { resp = parsed.value; err = none }
  ]

module _ {E : Type 0} (fs : SysFs E) where
  -- readIntFromFile
  unfoldable pub read_int_from_file : Text → Reply (SysError E) Int64
  unfolding int_of
  read_int_from_file path = elim (fs.read_file path) [
    | failed e ↦ record { resp = minus_one; err = some (os_error e) }
    | ok data' ↦ int_of (parse_int (trim is_space data'))
  ]

  -- The checks of HugepagesForNode on one directory, of which the size was read: its count.
  unfoldable pub count_in : Text → Text → Result (SysError E) Int64
  unfolding read_int_from_file
  count_in hp_path name =
      let entry_path = fs.join (hp_path ∷ name ∷ []) in
      elim (fs.eval_symlinks (fs.join (entry_path ∷ codes "nr_hugepages" ∷ []))) [
        | failed e ↦ failed (not_clean entry_path e)
        | ok path ↦ elim (has_prefix path hp_path) [
          | false ↦ failed (not_subpath path hp_path)
          | true ↦ elim (read_int_from_file path).err [
            | some e ↦ failed (unread path e)
            | none ↦ ok (read_int_from_file path).resp
          ]
        ]
      ]

  -- The loop of HugepagesForNode, over the entries of the directory of the node.
  unfoldable pub hugepages_in :
      Int64 → Text → List Entry → List Hugepages → Reply (SysError E) (List Hugepages)
  unfolding count_in
  hugepages_in id hp_path [] hps = record { resp = hps; err = none }
  hugepages_in id hp_path (entry ∷ entries) hps = elim entry.is_dir [
    | false ↦ hugepages_in id hp_path entries hps
    | true ↦ elim (scan_size entry.name) [
      | none ↦ record { resp = hps; err = some (malformed_entry entry.name) }
      | some size ↦ elim (count_in hp_path entry.name) [
        | failed e ↦ record { resp = hps; err = some e }
        | ok total ↦
            hugepages_in id hp_path entries
              (hps ++ record { node_id = id; size_kb = size; total = total } ∷ [])
      ]
    ]
  ]

  -- HugepagesForNode
  unfoldable pub hugepages_for_node : Text → Int64 → Reply (SysError E) (List Hugepages)
  unfolding hugepages_in
  hugepages_for_node root id =
      let hp_path = fs.join (sys_devices_nodes_node_nth fs root id ∷ codes "hugepages" ∷ []) in
      elim (fs.read_dir hp_path) [
        | failed e ↦ record { resp = []; err = some (os_error e) }
        | ok entries ↦ hugepages_in id hp_path entries []
      ]

  -- The loop of GetHugepages.
  unfoldable pub hugepages_of_entries :
      Text → List Entry → List Hugepages → Reply (SysError E) (List Hugepages)
  unfolding hugepages_for_node
  hugepages_of_entries root [] hps = record { resp = hps; err = none }
  hugepages_of_entries root (entry ∷ entries) hps = elim (is_node_dir entry) [
    | false ↦ hugepages_of_entries root entries hps
    | true ↦
        let id = parse_int (after_node entry.name) in
        let read = hugepages_for_node root id.value in
        elim id.error [
          | some e ↦ record { resp = hps; err = some (no_node_id entry.name) }
          | none ↦ elim read.err [
            | some e ↦ record { resp = hps; err = some (no_hugepages_on id.value e) }
            | none ↦ hugepages_of_entries root entries (hps ++ read.resp)
          ]
        ]
  ]

  -- GetHugepages
  unfoldable pub get_hugepages : Text → Reply (SysError E) (List Hugepages)
  unfolding hugepages_of_entries
  get_hugepages root = elim (fs.read_dir (sys_devices_nodes fs root)) [
    | failed e ↦ record { resp = []; err = some (os_error e) }
    | ok entries ↦ hugepages_of_entries root entries []
  ]
