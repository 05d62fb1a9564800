-- ===== src/Parquet/Tests.antt =====
-- Runs of ReadParquet on a file of two rows, and the theorems on it.
use telemetry_search_engine.Common.{
  ℕ, ◌+◌, ◌-◌, ◌*◌, ◌≡◌, inr, refl, List, [], ◌∷◌, ◌++◌, put, to_lower, Text, codes, Option, none,
  some, get, text_eq, map, if◌then◌else◌, text_beq,
}
use mathlib.Core.Option
use telemetry_search_engine.Common.Int.{ℤ, pos, negsuc}
use telemetry_search_engine.Index.{Document}
use telemetry_search_engine.Parquet
use telemetry_search_engine.Parquet.{Reader, leaf_name, fill_cells, to_int32, read_parquet}
use telemetry_search_engine.Queue.{read}
use telemetry_search_engine.Parquet.Counted.{read_parquet_file, read_parquet_file_agrees}

abbrev lower : Text → Text
lower s = s

-- A number in decimal digits.
abbrev number_from : ℕ → Text → ℤ
number_from n [] = pos n
number_from n (c ∷ s) = number_from (10 * n + (c - 48)) s

abbrev number : Text → ℤ
number = number_from 0

abbrev host_path : Text
host_path = codes "Root" ++ 1 ∷ codes "Hostname"

abbrev priority_path : Text
priority_path = codes "Root" ++ 1 ∷ codes "Priority"

abbrev two_rows : Reader
two_rows = record {
  num_rows = 2;
  value_columns = priority_path ∷ host_path ∷ codes "Lost" ∷ [];
  read_column = λ path.
      if text_beq path host_path
      then some (codes "a" ∷ codes "b" ∷ codes "c" ∷ [])
      else if text_beq path priority_path
      then some (codes "34" ∷ [])
      else none;
}

leaf : leaf_name host_path ≡ codes "Hostname"
unfolding leaf_name Parquet.after_root
leaf = refl

wraps : (to_int32 (pos 4294967295) ≡ negsuc 0) × (to_int32 (negsuc 4294967295) ≡ pos 0)
unfolding to_int32
wraps = (refl, refl)

abbrev shown : Option (List Document) → Option (List (Text × ℤ))
shown = Option.map (map (λ (doc : Document). (doc.hostname, doc.priority)))

rows :
    shown (read_parquet lower number (some two_rows))
    ≡ some ((codes "a", pos 34) ∷ (codes "b", pos 0) ∷ [])
unfolding read_parquet Parquet.read_columns Parquet.path_map put text_beq to_lower leaf_name
    Parquet.after_root Parquet.documents_from Parquet.document_at Parquet.get_cell to_int32 get
    fill_cells
rows = refl

one_read : read_parquet lower number (some (record two_rows { num_rows = 0 })) ≡ some []
unfolding read_parquet
one_read = refl

read_parquet_file_agrees_example :
    read_parquet_file lower (codes "f") (inr (record two_rows { num_rows = 0 })) ≡ read 0
read_parquet_file_agrees_example =
    read_parquet_file_agrees lower number (codes "f") (record two_rows { num_rows = 0 }) [] one_read
