-- ===== src/Parquet.antt =====
-- search-service/internal/parquet/reader.go: the rows of a Parquet file as documents. The file
-- format is read by github.com/xitongsys/parquet-go, whose answers are inputs.
pub mod Rows
pub mod Counted
mod Tests
use telemetry_search_engine.Common.{
  ℕ, zero, suc, ◌+◌, ◌-◌, ◌%◌, ◌^◌, List, [], ◌∷◌, Text, Map, codes, to_lower, Option, none, some,
  get, put, get_elem?, text_eq, ltb, eqb, if◌then◌else◌,
}
use telemetry_search_engine.Common.Int.{ℤ, pos, negsuc}
use telemetry_search_engine.Index.{Document}

-- An open column reader: its rows, the paths of its columns and the cells of each, `none` where the
-- column cannot be read. A cell that is neither a string nor bytes is given as %v prints it.
pub record Reader : Type 0 where
  pub num_rows : ℕ
  pub value_columns : List Text
  pub read_column : Text → Option (List Text)

-- What follows the first byte 1, if there is one.
unfoldable pub after_root : Text → Option Text
after_root [] = none
after_root (c ∷ s) = let rest = after_root s in if eqb c 1 then some s else rest

abbrev pub leaf_of : Text → Option Text → Text
leaf_of path none = path
leaf_of path (some leaf) = leaf

unfoldable pub leaf_name : Text → Text
leaf_name path = leaf_of path (after_root path)

-- pathMap: the lower-case leaf names, each with the last path that has it.
unfoldable pub path_map : (Text → Text) → List Text → Map Text Text → Map Text Text
path_map unicode [] m = m
path_map unicode (path ∷ paths) m =
    path_map unicode paths (put (to_lower unicode (leaf_name path)) path m)

-- The cells of a column, cut off at `n` or filled up with "".
unfoldable pub fill_cells : ℕ → List Text → List Text
fill_cells zero vals = []
fill_cells (suc n) [] = [] ∷ fill_cells n []
fill_cells (suc n) (v ∷ vals) = v ∷ fill_cells n vals

abbrev pub add_column : ℕ → Text → Option (List Text) → Map Text (List Text) → Map Text (List Text)
add_column n name none cols = cols
add_column n name (some vals) cols = put name (fill_cells n vals) cols

-- colData: the columns that can be read.
unfoldable pub read_columns : Reader → Map Text Text → Map Text (List Text) → Map Text (List Text)
read_columns r [] cols = cols
read_columns r ((name, path) ∷ m) cols =
    read_columns r m (add_column r.num_rows name (r.read_column path) cols)

abbrev pub cell_of : ℕ → Option (List Text) → Option Text
cell_of i none = none
cell_of i (some col) = get_elem? col i

abbrev pub cell_or : Text → Option Text → Text
cell_or rest none = rest
cell_or rest (some cell) = cell

-- get: the cell of row `i` in the first of the named columns that has it.
unfoldable pub get_cell : Map Text (List Text) → ℕ → List Text → Text
get_cell cols i [] = []
get_cell cols i (name ∷ names) = cell_or (get_cell cols i names) (cell_of i (get name cols))

abbrev signed32 : ℕ → ℤ
signed32 m = if ltb m (2 ^ 31) then pos m else negsuc (2 ^ 32 - 1 - m)

-- int32(n) of an int64.
unfoldable pub to_int32 : ℤ → ℤ
to_int32 (pos n) = signed32 (n % 2 ^ 32)
to_int32 (negsuc n) = signed32 (2 ^ 32 - 1 - n % 2 ^ 32)

module _ (unicode : Text → Text) (parse_int64 : Text → ℤ) where
  -- The document of a row.
  unfoldable pub document_at : Map Text (List Text) → ℕ → Document
  document_at cols i = record {
    id = 0;
    msg_id = get_cell cols i (codes "msgid" ∷ codes "msg_id" ∷ []);
    partition_id = get_cell cols i (codes "partitionid" ∷ codes "partition_id" ∷ []);
    timestamp = get_cell cols i (codes "timestamp" ∷ []);
    hostname = get_cell cols i (codes "hostname" ∷ codes "host_name" ∷ codes "host" ∷ []);
    priority = to_int32 (parse_int64 (get_cell cols i (codes "priority" ∷ [])));
    facility = to_int32 (parse_int64 (get_cell cols i (codes "facility" ∷ [])));
    facility_string = get_cell cols i (codes "facilitystring" ∷ codes "facility_string" ∷ []);
    severity = to_int32 (parse_int64 (get_cell cols i (codes "severity" ∷ [])));
    severity_string = get_cell cols i (codes "severitystring" ∷ codes "severity_string" ∷ []);
    app_name = get_cell cols i (codes "appname" ∷ codes "app_name" ∷ []);
    proc_id = get_cell cols i (codes "procid" ∷ codes "proc_id" ∷ []);
    message = get_cell cols i (codes "message" ∷ []);
    message_raw = get_cell cols i (codes "messageraw" ∷ codes "message_raw" ∷ []);
    structured_data = get_cell cols i (codes "structureddata" ∷ codes "structured_data" ∷ []);
    tag = get_cell cols i (codes "tag" ∷ []);
    sender = get_cell cols i (codes "sender" ∷ []);
    groupings = get_cell cols i (codes "groupings" ∷ []);
    event = get_cell cols i (codes "event" ∷ []);
    event_id = get_cell cols i (codes "eventid" ∷ codes "event_id" ∷ []);
    nano_time_stamp =
        parse_int64 (get_cell cols i (codes "nanotimestamp" ∷ codes "nano_timestamp" ∷ []));
    namespace = get_cell cols i (codes "namespace" ∷ []);
  }

  -- The documents of `n` rows from row `i` on.
  unfoldable pub documents_from : Map Text (List Text) → ℕ → ℕ → List Document
  documents_from cols i zero = []
  documents_from cols i (suc n) = document_at cols i ∷ documents_from cols (i + 1) n

  abbrev pub read_rows : ℕ → Map Text (List Text) → Option (List Document)
  read_rows n [] = none
  read_rows n (col ∷ cols) = some (documents_from (col ∷ cols) 0 n)

  -- ReadParquet on what opening the file gives; `none` is an error.
  unfoldable pub read_parquet : Option Reader → Option (List Document)
  read_parquet none = none
  read_parquet (some r) =
      let cols = read_columns r (path_map unicode r.value_columns []) [] in
      if eqb r.num_rows 0 then some [] else read_rows r.num_rows cols
