-- ===== src/Service/Tests.antt =====
-- Runs of the search service on a host with one file, and the theorems on them.
use telemetry_search_engine.Common.{
  ◌<◌, ◌^◌, ◌≡◌, ◌⊎◌, refl, List, [], ◌∷◌, ◌++◌, Text, codes, Option, none, some, put, to_lower,
  text_eq, contains, length, text_beq, true, arith,
}
use telemetry_search_engine.Common.Int.{ℤ}
use telemetry_search_engine.Fixed.{fixed}
use telemetry_search_engine.Auth.Toy.{toy}
use telemetry_search_engine.Access.{bearer}
use telemetry_search_engine.Access.Guard.{IsWriter}
use telemetry_search_engine.Parquet
use telemetry_search_engine.Parquet.{Reader}
use telemetry_search_engine.Index.{IndexStats, Document, SearchResult, new_index}
use telemetry_search_engine.Index.Inversion.{posting}
use telemetry_search_engine.Index.Loaded.{Holds}
use telemetry_search_engine.Index.Clean.{IsClean}
use telemetry_search_engine.Index.Final.{IsFinal}
use telemetry_search_engine.Index.Search.{Times}
use telemetry_search_engine.Index.Runs.{created}
use telemetry_search_engine.Service
use telemetry_search_engine.Service.{
  message_stats, Host, Request, ingest_notify, Call, respond, search_result, data_dir, read_file,
  parse_pagination, handle_search, handle_reindex, handle_ingest_notify,
}
use telemetry_search_engine.Service.Toy.{lower, host, no_context, token, writer-passed}
use telemetry_search_engine.Service.Start
use telemetry_search_engine.Service.Served
use telemetry_search_engine.Service.Start.{first_docs, unique_dirs, unique_dirs_exact}
use telemetry_search_engine.Service.Served.{docs_in, all_docs, served_docs, serve_docs_writers}
use telemetry_search_engine.Service.Answers.{
  IsNear, served, served-Holds, search_answers, notified_path, handle_reindex_exact,
  handle_ingest_notify_exact,
}

abbrev at : Times
at = record { looked = 1; started = 1; finished = 1; stored = 1 }

abbrev notified : Call
notified = record {
  request = ingest_notify (some (codes "f"));
  header = bearer ++ token;
  now = 9;
  host = host;
  victim = 0;
  at = at;
}

-- A host with one readable file: its row is loaded at the start, and added again by a notification.
twice_loaded : length (all_docs toy lower no_context (notified ∷ []) (first_docs lower host)) ≡ 2
unfolding Service.checks unique_dirs Start.keep_unique contains text_beq Served.docs_of
    Parquet.read_parquet Parquet.read_columns Parquet.path_map put Parquet.documents_from data_dir
    Parquet.leaf_name Parquet.after_root Parquet.fill_cells to_lower
twice_loaded = rw writer-passed refl

plain_params : Text → Option Text
plain_params name = none

plain-IsNear : IsNear host plain_params
unfolding parse_pagination plain_params
plain-IsNear = omega arith

small : length (all_docs toy lower no_context (notified ∷ []) (first_docs lower host)) < 2 ^ 62
small = omega (arith, twice_loaded)

served-Holds_example :
    Holds fixed lower
      (all_docs toy lower no_context (notified ∷ []) (first_docs lower host))
      (served fixed lower toy no_context host (notified ∷ []))
    × IsClean fixed (served fixed lower toy no_context host (notified ∷ []))
served-Holds_example = served-Holds fixed lower toy no_context host (notified ∷ [])

search_answers_example :
    (r : SearchResult ℤ) × ((handle_search fixed lower host plain_params 0 at
        (served fixed lower toy no_context host (notified ∷ []))).0
      ≡ respond 200 (search_result r))
search_answers_example =
    search_answers fixed lower toy no_context host (notified ∷ []) host plain_params 0 at
      plain-IsNear small

handle_reindex_exact_example :
    let (answer, after) = handle_reindex fixed lower host (new_index ℤ) in
    let ds = docs_in lower host (data_dir host) in
    (answer.status ≡ 202)
    × ((st : IndexStats) × (answer.body ≡ message_stats (codes "reindex complete") st)
        × (st.total_documents ≡ length ds)
        × (st.index_ready ≡ true))
    × Holds fixed lower ds after
    × ((u : Text) → IsFinal fixed (posting fixed after u))
    × (after.ready ≡ true)
handle_reindex_exact_example = handle_reindex_exact fixed lower host (new_index ℤ)

handle_ingest_notify_exact_example :
    let (answer, after) = handle_ingest_notify fixed lower host (some (codes "f")) (new_index ℤ) in
    ((answer.status ≡ 422)
      × (after ≡ new_index ℤ)
      × (read_file lower host (notified_path host (codes "f")) ≡ none))
    ⊎ ((docs : List Document) × (read_file lower host (notified_path host (codes "f")) ≡ some docs)
        × (answer.status ≡ 200)
        × Holds fixed lower docs after
        × (after.cache ≡ []))
handle_ingest_notify_exact_example =
    handle_ingest_notify_exact fixed lower host (codes "f") [] (new_index ℤ) created

serve_docs_writers_example :
    Holds fixed lower [] (Service.serve toy fixed lower notified no_context (new_index ℤ)).1
    ⊎ IsWriter toy host.getenv 9 (bearer ++ token)
serve_docs_writers_example =
    serve_docs_writers toy lower no_context fixed notified [] (new_index ℤ) created
