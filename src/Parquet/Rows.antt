-- ===== src/Parquet/Rows.antt =====
-- What ReadParquet returns: the columns it finds, and a document for every row.
use telemetry_search_engine.Common.{
  ℕ, zero, suc, ◌+◌, ◌<◌, ◌^◌, ◌≡◌, refl, ap, ◌∙◌, List, [], ◌∷◌, Text, Map, to_lower, Option, none,
  some, codes, get, put, get-put, get_elem?, length, text_eq, text_beq, text_beq_iff, if◌then◌else◌,
  arith, Bool-cases, inl, inr, false,
}
use telemetry_search_engine.Common.Int.{ℤ, pos, negsuc}
use telemetry_search_engine.Index.{Document}
use telemetry_search_engine.Parquet.{
  Reader, leaf_name, path_map, fill_cells, add_column, read_columns, to_int32, documents_from,
}

-- An int32 keeps a number of its range.
pub to_int32_pos : (n : ℕ) → n < 2 ^ 31 → to_int32 (pos n) ≡ pos n
unfolding to_int32
to_int32_pos n h = ground arith

pub to_int32_negsuc : (n : ℕ) → n < 2 ^ 31 → to_int32 (negsuc n) ≡ negsuc n
unfolding to_int32
to_int32_negsuc n h = ground arith

length-fill_cells : (n : ℕ) (vals : List Text) → length (fill_cells n vals) ≡ n
unfolding fill_cells
length-fill_cells zero vals = refl
length-fill_cells (suc n) [] = ap suc (length-fill_cells n [])
length-fill_cells (suc n) (v ∷ vals) = ap suc (length-fill_cells n vals)

-- A map without two entries of one key.
abbrev IsKeyed : {V : Type 0} → Map Text V → Type 0
IsKeyed [] = Unit
IsKeyed ((k, v) ∷ m) = (get k m ≡ none) × IsKeyed m

put-IsKeyed : {V : Type 0} (k : Text) (v : V) (m : Map Text V) → IsKeyed m → IsKeyed (put k v m)
unfolding put
put-IsKeyed k v [] h = (unfold get in refl, tt)
put-IsKeyed k v ((j, w) ∷ m) (absent, h) = elim (Bool-cases (text_beq j k)) [
  | inl e ↦ rw e (absent, h)
  | inr e ↦ rw e (get-put k j v m ∙ rw (apart e) absent, put-IsKeyed k v m h)
]
  where
    apart : text_beq j k ≡ false → text_beq k j ≡ false
    apart e = ground (arith, text_beq_iff j k, text_beq_iff k j)

module _ (unicode : Text → Text) where
  -- The last of the paths whose leaf has a lower-case name, or else a path given.
  abbrev pub last_path : Text → Option Text → List Text → Option Text
  last_path name found [] = found
  last_path name found (path ∷ paths) =
      last_path name
        (if text_beq (to_lower unicode (leaf_name path)) name then some path else found) paths

  path_map_lem :
      (name : Text) (paths : List Text) (m : Map Text Text)
      → get name (path_map unicode paths m) ≡ last_path name (get name m) paths
  unfolding path_map
  path_map_lem name [] m = refl
  path_map_lem name (path ∷ paths) m =
      let leaf = to_lower unicode (leaf_name path) in
      path_map_lem name paths (put leaf path m)
      ∙ ap (λ o. last_path name o paths) (get-put leaf name path m)

  path_map-IsKeyed :
      (paths : List Text) (m : Map Text Text) → IsKeyed m → IsKeyed (path_map unicode paths m)
  unfolding path_map
  path_map-IsKeyed [] m h = h
  path_map-IsKeyed (path ∷ paths) m h =
      path_map-IsKeyed paths (put (to_lower unicode (leaf_name path)) path m)
        (put-IsKeyed (to_lower unicode (leaf_name path)) path m h)

-- The cells of the column at a path, or else cells given.
abbrev pub read_or : ℕ → Option (List Text) → Option (List Text) → Option (List Text)
read_or n found none = found
read_or n found (some vals) = some (fill_cells n vals)

abbrev pub cells_at : Reader → Option (List Text) → Option Text → Option (List Text)
cells_at r found none = found
cells_at r found (some path) = read_or r.num_rows found (r.read_column path)

add_column_lem :
    (n : ℕ) (name leaf : Text) (vals : Option (List Text)) (cols : Map Text (List Text))
    → get name (add_column n leaf vals cols)
      ≡ (if text_beq leaf name then read_or n (get name cols) vals else get name cols)
add_column_lem n name leaf none cols = ground arith
add_column_lem n name leaf (some vals) cols = get-put leaf name (fill_cells n vals) cols

get-cons :
    (leaf name path : Text) (m : Map Text Text)
    → get name ((leaf, path) ∷ m) ≡ (if text_beq leaf name then some path else get name m)
unfolding get
get-cons leaf name path m = refl

read_columns_lem :
    (r : Reader) (name : Text) (m : Map Text Text) (cols : Map Text (List Text))
    → IsKeyed m
    → get name (read_columns r m cols) ≡ cells_at r (get name cols) (get name m)
unfolding read_columns
read_columns_lem r name [] cols h = unfold get in refl
read_columns_lem r name ((leaf, path) ∷ m) cols (absent, h) =
    read_columns_lem r name m (add_column r.num_rows leaf (r.read_column path) cols) h
    ∙ rw (add_column_lem r.num_rows name leaf (r.read_column path) cols, get-cons leaf name path m)
        (elim (Bool-cases (text_beq leaf name)) [
          | inl e ↦
              let gone : get name m ≡ none = rw ((text_beq_iff leaf name).0 e) at absent in
              rw (e, gone) refl
          | inr e ↦ rw e refl
        ])

module _ (unicode : Text → Text) (parse_int64 : Text → ℤ) where
  -- The columns of a file, under their lower-case leaf names.
  abbrev pub columns_of : Reader → Map Text (List Text)
  columns_of r = read_columns r (path_map unicode r.value_columns []) []

  -- A name stands for the cells of the last column whose leaf has that lower-case name, cut off or
  -- filled up to the number of rows, and for nothing if there is no such column or it cannot be
  -- read.
  pub columns_exact :
      (r : Reader) (name : Text)
      → get name (columns_of r) ≡ cells_at r none (last_path unicode name none r.value_columns)
  unfolding get
  columns_exact r name =
      read_columns_lem r name (path_map unicode r.value_columns []) []
        (path_map-IsKeyed unicode r.value_columns [] tt)
      ∙ ap (cells_at r none) (path_map_lem unicode name r.value_columns [])

  pub length-documents_from :
      (cols : Map Text (List Text)) (i n : ℕ)
      → length (documents_from unicode parse_int64 cols i n) ≡ n
  unfolding documents_from
  length-documents_from cols i zero = refl
  length-documents_from cols i (suc n) = ap suc (length-documents_from cols (i + 1) n)

  -- The cell of row `k` in the first of the named columns that has one; a name stands for the last
  -- column whose leaf has that lower-case name, if it can be read.
  abbrev pub cell_in : Text → Option Text → Text
  cell_in rest none = rest
  cell_in rest (some cell) = cell

  abbrev pub row_of : ℕ → Option (List Text) → Option Text
  row_of k none = none
  row_of k (some cells) = get_elem? cells k

  abbrev pub cell_named : Reader → ℕ → List Text → Text
  cell_named r k [] = []
  cell_named r k (name ∷ names) =
      cell_in (cell_named r k names)
        (row_of k (cells_at r none (last_path unicode name none r.value_columns)))

  -- What each field of the document of row `k` holds.
  pub record IsRow (r : Reader) (k : ℕ) (doc : Document) : Type 0 where
    pub id : doc.id ≡ 0
    pub msg_id : doc.msg_id ≡ cell_named r k (codes "msgid" ∷ codes "msg_id" ∷ [])
    pub partition_id :
        doc.partition_id ≡ cell_named r k (codes "partitionid" ∷ codes "partition_id" ∷ [])
    pub timestamp : doc.timestamp ≡ cell_named r k (codes "timestamp" ∷ [])
    pub hostname :
        doc.hostname ≡ cell_named r k (codes "hostname" ∷ codes "host_name" ∷ codes "host" ∷ [])
    pub priority : doc.priority ≡ to_int32 (parse_int64 (cell_named r k (codes "priority" ∷ [])))
    pub facility : doc.facility ≡ to_int32 (parse_int64 (cell_named r k (codes "facility" ∷ [])))
    pub facility_string :
        doc.facility_string ≡ cell_named r k (codes "facilitystring" ∷ codes "facility_string" ∷ [])
    pub severity : doc.severity ≡ to_int32 (parse_int64 (cell_named r k (codes "severity" ∷ [])))
    pub severity_string :
        doc.severity_string ≡ cell_named r k (codes "severitystring" ∷ codes "severity_string" ∷ [])
    pub app_name : doc.app_name ≡ cell_named r k (codes "appname" ∷ codes "app_name" ∷ [])
    pub proc_id : doc.proc_id ≡ cell_named r k (codes "procid" ∷ codes "proc_id" ∷ [])
    pub message : doc.message ≡ cell_named r k (codes "message" ∷ [])
    pub message_raw :
        doc.message_raw ≡ cell_named r k (codes "messageraw" ∷ codes "message_raw" ∷ [])
    pub structured_data :
        doc.structured_data ≡ cell_named r k (codes "structureddata" ∷ codes "structured_data" ∷ [])
    pub tag : doc.tag ≡ cell_named r k (codes "tag" ∷ [])
    pub sender : doc.sender ≡ cell_named r k (codes "sender" ∷ [])
    pub groupings : doc.groupings ≡ cell_named r k (codes "groupings" ∷ [])
    pub event : doc.event ≡ cell_named r k (codes "event" ∷ [])
    pub event_id : doc.event_id ≡ cell_named r k (codes "eventid" ∷ codes "event_id" ∷ [])
    pub nano_time_stamp :
        doc.nano_time_stamp
        ≡ parse_int64 (cell_named r k (codes "nanotimestamp" ∷ codes "nano_timestamp" ∷ []))
    pub namespace : doc.namespace ≡ cell_named r k (codes "namespace" ∷ [])

  -- A row of the file is a document of the list, in its order.
  abbrev pub IsRead : Reader → List Document → Type 0
  IsRead r ds =
      (length ds ≡ r.num_rows)
      × ((k : ℕ) → k < r.num_rows → (doc : Document) × (get_elem? ds k ≡ some doc) × IsRow r k doc)
