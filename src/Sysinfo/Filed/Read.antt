-- ===== src/Sysinfo/Filed/Read.antt =====
-- The readers of pkg/sysinfo: which files they read, and what the files hold.
use mathlib.Core.List.{append_assoc, append-nil}
use resource_topology_export.Base.{
  ◌≡◌, refl, sym, ◌∙◌, inl, inr, true, false, none, some, List, [], ◌∷◌, ◌++◌, Text, Result, ok,
  Bool-cases, Option-cases, Result-cases,
}
use resource_topology_export.Base.Int.{Int64}
use resource_topology_export.Base.Strings.{codes, has_prefix, is_space, trim, parse_int}
use resource_topology_export.Sysinfo.{
  Entry, SysFs, SysError, Hugepages, sys_devices_nodes, sys_devices_nodes_node_nth, is_node_dir,
  after_node,
}
use resource_topology_export.Sysinfo.Pages.{
  scan_size, read_int_from_file, count_in, hugepages_in, hugepages_for_node, hugepages_of_entries,
  get_hugepages,
}

module _ {E : Type 0} (fs : SysFs E) where
  -- The number in nr_hugepages of a directory of huge pages; its path stays below the node's.
  pub record IsCount (hp_path name : Text) (total : Int64) : Type 0 where
    pub path : Text
    pub is_path :
        fs.eval_symlinks (fs.join (fs.join (hp_path ∷ name ∷ []) ∷ codes "nr_hugepages" ∷ []))
        ≡ ok path
    pub is_below : has_prefix path hp_path ≡ true
    pub file : Text
    pub is_file : fs.read_file path ≡ ok file
    pub is_number : parse_int (trim is_space file) ≡ record { value = total; error = none }

  -- The huge pages of a node: one for each directory, of the size in its name.
  pub data NodePages (id : Int64) (hp_path : Text) : List Entry → List Hugepages → Type 0 where
    nothing : NodePages id hp_path [] []
    passes :
        {entry : Entry} {entries : List Entry} {hps : List Hugepages}
        → entry.is_dir ≡ false
        → NodePages id hp_path entries hps
        → NodePages id hp_path (entry ∷ entries) hps
    finds :
        {entry : Entry} {entries : List Entry} {hps : List Hugepages} (size total : Int64)
        → entry.is_dir ≡ true
        → scan_size entry.name ≡ some size
        → IsCount hp_path entry.name total
        → NodePages id hp_path entries hps
        → NodePages id hp_path
            (entry ∷ entries)
            (record { node_id = id; size_kb = size; total = total } ∷ hps)

  abbrev pub hugepages_dir : Text → Int64 → Text
  hugepages_dir root id = fs.join (sys_devices_nodes_node_nth fs root id ∷ codes "hugepages" ∷ [])

  -- The huge pages of all nodes that have a directory, in order.
  pub data AllPages (root : Text) : List Entry → List Hugepages → Type 0 where
    nothing : AllPages root [] []
    passes :
        {entry : Entry} {entries : List Entry} {hps : List Hugepages}
        → is_node_dir entry ≡ false
        → AllPages root entries hps
        → AllPages root (entry ∷ entries) hps
    finds :
        {entry : Entry} {entries in_node : List Entry} {hps more : List Hugepages} (id : Int64)
        → is_node_dir entry ≡ true
        → (parse_int (after_node entry.name)).value ≡ id
        → fs.read_dir (hugepages_dir root id) ≡ ok in_node
        → NodePages id (hugepages_dir root id) in_node hps
        → AllPages root entries more
        → AllPages root (entry ∷ entries) (hps ++ more)

  read_int_from_file-number :
      (path : Text)
      → (read_int_from_file fs path).err ≡ none
      → (file : Text) × (fs.read_file path ≡ ok file)
        × (parse_int (trim is_space file)
            ≡ record { value = (read_int_from_file fs path).resp; error = none })
  unfolding read_int_from_file
  read_int_from_file-number path h = elim (Result-cases (fs.read_file path)) [
    | inl (e, r) ↦ let bad = rw (read_int_from_file, r) at h in cc
    | inr (file, r) ↦ elim (Option-cases (parse_int (trim is_space file)).error) [
      | inr (e, n) ↦ let bad = rw (read_int_from_file, r, n) at h in cc
      | inl n ↦ (file, r, rw (read_int_from_file, r, n) refl)
    ]
  ]

  count_in-IsCount :
      (hp_path name : Text) (total : Int64)
      → count_in fs hp_path name ≡ ok total
      → IsCount hp_path name total
  unfolding count_in
  count_in-IsCount hp_path name total h =
      elim (Result-cases
        (fs.eval_symlinks (fs.join (fs.join (hp_path ∷ name ∷ []) ∷ codes "nr_hugepages" ∷ [])))) [
          | inl (e, p) ↦ let bad = rw (count_in, p) at h in cc
          | inr (path, p) ↦ elim (Bool-cases (has_prefix path hp_path)) [
            | inr b ↦ let bad = rw (count_in, p, b) at h in cc
            | inl b ↦ elim (Option-cases (read_int_from_file fs path).err) [
              | inr (e, n) ↦ let bad = rw (count_in, p, b, n) at h in cc
              | inl n ↦
                  let made : Path (Result (SysError E) Int64) (ok (read_int_from_file fs path).resp)
                      (ok total) =
                    rw (count_in, p, b, n) at h in
                  let same : (read_int_from_file fs path).resp ≡ total = cc in
                  let (file, r, number) = read_int_from_file-number path n in
                  record {
                    path = path;
                    is_path = p;
                    is_below = b;
                    file = file;
                    is_file = r;
                    is_number = number ∙ (λ i. record { value = same i; error = none });
                  }
            ]
          ]
        ]

  abbrev Found : (List Hugepages → Type 0) → List Hugepages → List Hugepages → Type 0
  Found P old new = (more : List Hugepages) × P more × (new ≡ old ++ more)

  hugepages_in-NodePages :
      (id : Int64) (hp_path : Text) (entries : List Entry) (hps : List Hugepages)
      → (hugepages_in fs id hp_path entries hps).err ≡ none
      → Found (NodePages id hp_path entries) hps (hugepages_in fs id hp_path entries hps).resp
  unfolding hugepages_in
  hugepages_in-NodePages id hp_path [] hps h = ([], nothing, sym (append-nil hps))
  hugepages_in-NodePages id hp_path (entry ∷ entries) hps h = elim (Bool-cases entry.is_dir) [
    | inr d ↦
        let (more, pages, e) =
          hugepages_in-NodePages id hp_path entries hps (rw (hugepages_in, d) at h) in
        (more, passes d pages, rw (hugepages_in, d) e)
    | inl d ↦ elim (Option-cases (scan_size entry.name)) [
      | inl p ↦ let bad = rw (hugepages_in, d, p) at h in cc
      | inr (size, p) ↦ elim (Result-cases (count_in fs hp_path entry.name)) [
        | inl (e, q) ↦ let bad = rw (hugepages_in, d, p, q) at h in cc
        | inr (total, q) ↦
            let hp : Hugepages = record { node_id = id; size_kb = size; total = total } in
            let (more, pages, e) =
              hugepages_in-NodePages id hp_path entries (hps ++ hp ∷ [])
                (rw (hugepages_in, d, p, q) at h) in
            (
              hp ∷ more,
              finds size total d p (count_in-IsCount hp_path entry.name total q) pages,
              rw (hugepages_in, d, p, q) (e ∙ append_assoc hps (hp ∷ []) more),
            )
      ]
    ]
  ]

  hugepages_for_node-NodePages :
      (root : Text) (id : Int64)
      → (hugepages_for_node fs root id).err ≡ none
      → (in_node : List Entry) × (fs.read_dir (hugepages_dir root id) ≡ ok in_node)
        × NodePages id (hugepages_dir root id) in_node (hugepages_for_node fs root id).resp
  unfolding hugepages_for_node
  hugepages_for_node-NodePages root id h =
      elim (Result-cases (fs.read_dir (hugepages_dir root id))) [
        | inl (e, p) ↦ let bad = rw (hugepages_for_node, p) at h in cc
        | inr (in_node, p) ↦
            let (more, pages, e) =
              hugepages_in-NodePages id (hugepages_dir root id) in_node []
                (rw (hugepages_for_node, p) at h) in
            (in_node, p, rw (hugepages_for_node, p, e) pages)
      ]

  hugepages_of_entries-AllPages :
      (root : Text) (entries : List Entry) (hps : List Hugepages)
      → (hugepages_of_entries fs root entries hps).err ≡ none
      → Found (AllPages root entries) hps (hugepages_of_entries fs root entries hps).resp
  unfolding hugepages_of_entries
  hugepages_of_entries-AllPages root [] hps h = ([], nothing, sym (append-nil hps))
  hugepages_of_entries-AllPages root (entry ∷ entries) hps h =
      elim (Bool-cases (is_node_dir entry)) [
        | inr d ↦
            let (more, pages, e) =
              hugepages_of_entries-AllPages root entries hps (rw (hugepages_of_entries, d) at h) in
            (more, passes d pages, rw (hugepages_of_entries, d) e)
        | inl d ↦ elim (Option-cases (parse_int (after_node entry.name)).error) [
          | inr (e, p) ↦ let bad = rw (hugepages_of_entries, d, p) at h in cc
          | inl p ↦
              let id = (parse_int (after_node entry.name)).value in
              elim (Option-cases (hugepages_for_node fs root id).err) [
                | inr (e, q) ↦ let bad = rw (hugepages_of_entries, d, p, q) at h in cc
                | inl q ↦
                    let (in_node, r, here) = hugepages_for_node-NodePages root id q in
                    let found = (hugepages_for_node fs root id).resp in
                    let (more, pages, e) =
                      hugepages_of_entries-AllPages root entries (hps ++ found)
                        (rw (hugepages_of_entries, d, p, q) at h) in
                    (
                      found ++ more,
                      finds id d refl r here pages,
                      rw (hugepages_of_entries, d, p, q) (e ∙ append_assoc hps found more),
                    )
              ]
        ]
      ]

  pub get_hugepages-AllPages :
      (root : Text) (entries : List Entry)
      → fs.read_dir (sys_devices_nodes fs root) ≡ ok entries
      → (get_hugepages fs root).err ≡ none
      → AllPages root entries (get_hugepages fs root).resp
  unfolding get_hugepages
  get_hugepages-AllPages root entries r h =
      let (more, pages, e) =
        hugepages_of_entries-AllPages root entries [] (rw (get_hugepages, r) at h) in
      rw (get_hugepages, r, e) pages
