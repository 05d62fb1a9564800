-- ===== src/Ingest/Tests.antt =====
-- Runs of the ingest service, and the theorems on them.
use telemetry_search_engine.Common.{
  ℕ, ◌+◌, ◌≡◌, ◌≢◌, ◌⊎◌, inr, refl, List, [], ◌∷◌, ◌++◌, Text, Map, codes, to_lower, text_beq,
  text_eq, Option, none, some, get, put, delete, contains, nat_eq, All, true, false, eqb,
  if◌then◌else◌,
}
use telemetry_search_engine.Common.Int.{ℤ}
use telemetry_search_engine.Fixed.{fixed}
use telemetry_search_engine.Auth.Toy.{toy}
use telemetry_search_engine.Access.{bearer}
use telemetry_search_engine.Access.Guard.{IsWriter}
use telemetry_search_engine.Queue.{pending, new_queue, submit, get_job, job_name}
use telemetry_search_engine.Index.{Document, Index, new_index}
use telemetry_search_engine.Index.Loaded.{Holds}
use telemetry_search_engine.Index.Search.{is_none}
use telemetry_search_engine.Index.Runs.{created}
use telemetry_search_engine.Parquet
use telemetry_search_engine.Service
use telemetry_search_engine.Service.{Host, read_file}
use telemetry_search_engine.Service.Answers.{notified_path}
use telemetry_search_engine.Service.Toy.{
  one_row, lower, host, last_part, no_context, token, writer-passed,
}
use telemetry_search_engine.Ingest.{
  Answer, Os, Removal, removed, not_exist, Upload, Ingest, gitkeep, has_magic, ensure_parquet_ext,
  handle_upload, handle_delete_file, delete_file, serve,
}
use telemetry_search_engine.Ingest.Files.{
  IsAllowed, handle_delete_file_contained, handle_upload_exact,
}
use telemetry_search_engine.Ingest.Notify.{
  Delivery, unanswered, answered, copies, arrivals, post_notify, notify_search_service,
  notify_copies,
}
use telemetry_search_engine.Parquet.{read_parquet}
use telemetry_search_engine.Ingest.Writers.{serve_writers}

-- What follows the last dot, with the dot.
abbrev ext : Text → Text
ext [] = []
ext (c ∷ s) = let e = ext s in if is_none e then (if eqb c b'.' then c ∷ s else []) else e

ext_parquet : (s : Text) → ext (s ++ codes ".parquet") ≡ codes ".parquet"
ext_parquet [] = refl
ext_parquet (c ∷ s) = rw (ext_parquet s) refl

abbrev removal_of : Option Text → Removal
removal_of none = not_exist
removal_of (some content) = removed

-- The disk is a map from paths to contents.
abbrev pub os : Os (Map Text Text)
os = record {
  base = last_part [];
  ext = ext;
  join_path = λ dir name. dir ++ codes "/" ++ name;
  save = λ path content disk. (none, put path content disk);
  remove = λ path disk. (removal_of (get path disk), delete path disk);
  read_dir = λ dir disk. inr [];
}

abbrev pub ordinal : ℕ → Text
ordinal n = n ∷ []

abbrev idle : Ingest (Map Text Text)
idle = record { queue = new_queue 4; disk = [] }

abbrev pub some_file : Upload
some_file = record { filename = codes "a/f"; content = some (codes "PAR1...") }

handle_delete_file_contained_example :
    let after = (handle_delete_file os lower (codes "d") (codes "../f") idle).1 in
    (after ≡ idle)
    ⊎ ((after ≡ record idle { disk = (os.remove (codes "d/f") idle.disk).1 })
        × (codes "f" ≢ gitkeep)
        × (codes "f" ≢ codes ".")
        × (codes "f" ≢ [])
        × All IsAllowed (codes "f")
        × (contains (codes "f") b'/' ≡ false))
handle_delete_file_contained_example =
    handle_delete_file_contained os lower (codes "d") (codes "../f") idle

-- An upload is saved under its base name, with the extension.
upload-saved :
    (handle_upload os lower (codes "d") ordinal (some some_file) (codes "ann") 7 idle).1.disk
    ≡ (codes "d/f.parquet", codes "PAR1...") ∷ []
unfolding handle_upload has_magic text_beq ensure_parquet_ext to_lower put submit
upload-saved = refl

first_delivery : ℕ → Delivery
first_delivery attempt = if eqb attempt 1 then unanswered 9 no_context else answered 9 no_context

file_read :
    (docs : List Document) × (read_file lower host (notified_path host (codes "f")) ≡ some docs)
unfolding Parquet.read_parquet Parquet.read_columns Parquet.path_map put text_beq to_lower
    Parquet.leaf_name Parquet.after_root Parquet.fill_cells Service.data_dir
file_read = (_, refl)

handle_upload_exact_example :
    let (answer, after) =
      handle_upload os lower (codes "d") ordinal (some some_file) (codes "ann") 7 idle in
    ((answer.0 ≢ 202) × (after.queue ≡ idle.queue))
    ⊎ ((answer.0 ≡ 202)
        × ((f : Text) × (content : Text) × (some some_file
              ≡ some (record { filename = f; content = some content }))
            × ((rest : Text) × (content ≡ codes "PAR1" ++ rest))
            × (let name = ensure_parquet_ext os lower (os.base f) in
                let dst = os.join_path (codes "d") name in
                let id = job_name ordinal (idle.queue.counter + 1) in
                (os.save dst content idle.disk ≡ (none, after.disk))
                × (after.queue ≡ (submit ordinal name dst (codes "ann") 7 idle.queue).1)
                × (get_job id after.queue
                    ≡ some (record {
                      id = id;
                      filename = name;
                      status = pending;
                      docs_indexed = 0;
                      docs_total = 0;
                      error = [];
                      started_at = 7;
                      finished_at = none;
                      submitted_by = codes "ann";
                    })))))
handle_upload_exact_example =
    handle_upload_exact os lower (codes "d") ordinal (some some_file) (codes "ann") 7 idle

-- The answer to the first request is lost, so the file is indexed twice.
twice_delivered : arrivals toy host (bearer ++ token) first_delivery 1 3 ≡ 2
unfolding first_delivery
twice_delivered = rw writer-passed refl

notify_copies_example :
    let post = λ (url : Text) (attempt : ℕ) (at : Index ℤ).
      post_notify fixed lower toy host (bearer ++ token) (codes "f") first_delivery attempt at in
    Holds fixed lower
      (copies (arrivals toy host (bearer ++ token) first_delivery 1 3) file_read.0)
      (notify_search_service (λ s. s) (λ url. true) post (codes "http://s") (new_index ℤ)).1
notify_copies_example =
    notify_copies fixed lower toy host (bearer ++ token) (codes "f") first_delivery file_read.0
      file_read.1 (λ s. s) (λ url. true) (codes "http://s") [] (new_index ℤ) refl refl created

serve_writers_example :
    ((serve os lower
        (codes "d")
        ordinal
        toy
        host.getenv
        (delete_file (codes "f"))
        9
        (bearer ++ token)
        no_context
        idle).1
      ≡ idle)
    ⊎ IsWriter toy host.getenv 9 (bearer ++ token)
serve_writers_example =
    serve_writers os lower (codes "d") ordinal toy host.getenv 9 (bearer ++ token) no_context
      (delete_file (codes "f")) idle

-- A host on which every file opens.
abbrev open_host : Host
open_host = record host { open_file = λ path. some one_row }

abbrev uploaded : (ℕ × Answer) × Ingest (Map Text Text)
uploaded = handle_upload os lower (codes "d") ordinal (some some_file) (codes "ann") 7 idle

abbrev all_answered : ℕ → Delivery
all_answered attempt = answered 9 no_context
