-- ===== src/Parquet/Counted.antt =====
-- ingest-service/internal/worker/parquet.go: the rows of a Parquet file counted, against the rows
-- that the search service reads.
use telemetry_search_engine.Common.{
  ℕ, ◌≡◌, refl, ap, sym, ◌∙◌, List, [], ◌∷◌, ◌++◌, Text, Map, codes, some, ◌⊎◌, inl, inr, length,
  eqb, if◌then◌else◌, Bool-cases,
}
use telemetry_search_engine.Common.Int.{ℤ}
use telemetry_search_engine.Index.{Document}
use telemetry_search_engine.Queue.{Reading, read, unreadable}
use telemetry_search_engine.Parquet.{
  Reader, path_map, read_columns, documents_from, read_rows, read_parquet,
}
use telemetry_search_engine.Parquet.Rows.{length-documents_from}

abbrev pub count_rows : Text → ℕ → Map Text Text → Reading
count_rows path n [] = unreadable (codes "no columns found in " ++ path)
count_rows path n (column ∷ columns) = read n

-- readParquetFile on what opening the file gives, an error or its reader.
unfoldable pub read_parquet_file : (Text → Text) → Text → Text ⊎ Reader → Reading
read_parquet_file unicode path (inl err) = unreadable err
read_parquet_file unicode path (inr r) =
    let counted = count_rows path r.num_rows (path_map unicode r.value_columns []) in
    if eqb r.num_rows 0 then read 0 else counted

module _ (unicode : Text → Text) (parse_int64 : Text → ℤ) where
  length-read_rows :
      (n : ℕ) (cols : Map Text (List Text)) (ds : List Document)
      → read_rows unicode parse_int64 n cols ≡ some ds
      → length ds ≡ n
  length-read_rows n [] ds h = absurd (cc)
  length-read_rows n (col ∷ cols) ds h =
      let docs = documents_from unicode parse_int64 (col ∷ cols) 0 n in
      let same : docs ≡ ds = cc in
      ap length (sym same) ∙ length-documents_from unicode parse_int64 (col ∷ cols) 0 n

  rows_counted :
      (path : Text) (r : Reader) (m : Map Text Text) (ds : List Document)
      → read_rows unicode parse_int64 r.num_rows (read_columns r m []) ≡ some ds
      → count_rows path r.num_rows m ≡ read (length ds)
  unfolding read_columns
  rows_counted path r [] ds h = absurd (cc)
  rows_counted path r (column ∷ m) ds h =
      ap read (sym (length-read_rows r.num_rows (read_columns r (column ∷ m) []) ds h))

  -- A file that the search service can read is counted by the ingest service with the number of
  -- documents that the search service reads from it.
  pub read_parquet_file_agrees :
      (path : Text) (r : Reader) (ds : List Document)
      → read_parquet unicode parse_int64 (some r) ≡ some ds
      → read_parquet_file unicode path (inr r) ≡ read (length ds)
  unfolding read_parquet read_parquet_file
  read_parquet_file_agrees path r ds h = elim (Bool-cases (eqb r.num_rows 0)) [
    | inl e ↦
        (let h' : some [] ≡ some ds = rw e at h in let same : [] ≡ ds = cc in rw (e, ← same) refl)
    | inr e ↦ rw e (rows_counted path r (path_map unicode r.value_columns []) ds (rw e at h))
  ]
