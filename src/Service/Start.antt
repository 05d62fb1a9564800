-- ===== src/Service/Start.antt =====
-- search-service/cmd/server/main.go: the index before the first request.
use telemetry_search_engine.Common.{
  ◌≡◌, ◌∙◌, List, [], ◌∷◌, ◌++◌, Text, codes, Option, none, some, true, not, ◌&&◌, ◌||◌,
  if◌then◌else◌, contains, contains-append, contains-singleton, text_eq, text_beq_iff, IsNodup,
  IsNodup-concat, arith,
}
use mathlib.Core.List.{append-nil, append_assoc}
use telemetry_search_engine.Float.{Float}
use telemetry_search_engine.Index.{Document, Index, new_index}
use telemetry_search_engine.Index.Add.{add_documents}
use telemetry_search_engine.Index.Finalize.{finalize}
use telemetry_search_engine.Index.Search.{add_file, set_ready, is_none}
use telemetry_search_engine.Index.Runs.{Run, created, filed, finalized, readied}
use telemetry_search_engine.Service.{Host, read_file}
use telemetry_search_engine.Service.Served.{docs_or_none, docs_of, globbed_docs, add_documents-Run}

-- The loop of uniqueDirs; `out` also stands for `seen`, which has the same members.
unfoldable pub keep_unique : List Text → List Text → List Text
keep_unique out [] = out
keep_unique out (d ∷ dirs) =
    keep_unique (if not (is_none d) && not (contains out d) then out ++ d ∷ [] else out) dirs

unfoldable pub unique_dirs : List Text → List Text
unique_dirs dirs = keep_unique [] dirs

contains-keep_unique :
    (out dirs : List Text) (d : Text)
    → contains (keep_unique out dirs) d ≡ (contains out d || not (is_none d) && contains dirs d)
unfolding keep_unique contains
contains-keep_unique out [] d = ground arith
contains-keep_unique out (x ∷ dirs) d =
    contains-keep_unique (if not (is_none x) && not (contains out x) then out ++ x ∷ [] else out)
      dirs d
    ∙ ground (arith, contains-append out (x ∷ []) d, contains-singleton x d, text_beq_iff x d)

keep_unique-IsNodup : (out dirs : List Text) → IsNodup out → IsNodup (keep_unique out dirs)
unfolding keep_unique
keep_unique-IsNodup out [] n = n
keep_unique-IsNodup out (x ∷ dirs) n =
    keep_unique-IsNodup (if not (is_none x) && not (contains out x) then out ++ x ∷ [] else out)
      dirs (ground (arith, IsNodup-concat out x))

-- A directory is read exactly once if it is named at all and not empty.
pub unique_dirs_exact :
    (dirs : List Text)
    → IsNodup (unique_dirs dirs)
      × ((d : Text) → contains (unique_dirs dirs) d ≡ (not (is_none d) && contains dirs d))
unfolding unique_dirs contains
unique_dirs_exact dirs = (keep_unique-IsNodup [] dirs tt, contains-keep_unique [] dirs)

module _ (unicode : Text → Text) (h : Host) where
  -- The rows of the readable files of some directories, in order.
  abbrev pub docs_in_all : List Text → List Document
  docs_in_all [] = []
  docs_in_all (dir ∷ dirs) =
      globbed_docs unicode h (h.glob (h.join_path dir (codes "*.parquet"))) ++ docs_in_all dirs

  -- The rows of the directories at the start.
  abbrev pub first_docs : List Document
  first_docs =
      docs_in_all (unique_dirs (h.getenv (codes "DATA_DIR") ∷ h.getenv (codes "UPLOAD_DIR") ∷ []))

module _ (fl : Float) (unicode : Text → Text) (h : Host) where
  open fl use {F}

  abbrev pub load_read : Text → Option (List Document) → Index F → Index F
  load_read path none idx = idx
  load_read path (some docs) idx = add_file fl (h.base path) (add_documents fl unicode docs idx)

  unfoldable pub load_paths : List Text → Index F → Index F
  load_paths [] idx = idx
  load_paths (path ∷ paths) idx = load_paths paths (load_read path (read_file unicode h path) idx)

  abbrev pub load_found : Option (List Text) → Index F → Index F
  load_found none idx = idx
  load_found (some paths) idx = load_paths paths idx

  -- loadDir
  unfoldable pub load_start_dir : Text → Index F → Index F
  load_start_dir dir idx = load_found (h.glob (h.join_path dir (codes "*.parquet"))) idx

  abbrev pub load_dirs : List Text → Index F → Index F
  load_dirs [] idx = idx
  load_dirs (dir ∷ dirs) idx = load_dirs dirs (load_start_dir dir idx)

  -- main, up to the router.
  unfoldable pub start : Index F
  start =
      let dirs = unique_dirs (h.getenv (codes "DATA_DIR") ∷ h.getenv (codes "UPLOAD_DIR") ∷ []) in
      set_ready fl true (finalize fl (load_dirs dirs (new_index F)))

  load_read-Run :
      (ds : List Document) (path : Text) (docs : Option (List Document)) (idx : Index F)
      → Run fl unicode ds idx
      → Run fl unicode (ds ++ docs_or_none docs) (load_read path docs idx)
  load_read-Run ds path none idx r = rw append-nil r
  load_read-Run ds path (some docs) idx r =
      filed (h.base path) (add_documents-Run fl unicode ds docs idx r)

  load_paths-Run :
      (ds : List Document) (paths : List Text) (idx : Index F)
      → Run fl unicode ds idx
      → Run fl unicode (ds ++ docs_of unicode h paths) (load_paths paths idx)
  unfolding load_paths docs_of
  load_paths-Run ds [] idx r = rw append-nil r
  load_paths-Run ds (path ∷ paths) idx r =
      let docs = read_file unicode h path in
      rw (append_assoc ds (docs_or_none docs) (docs_of unicode h paths)) at (
        load_paths-Run (ds ++ docs_or_none docs) paths (load_read path docs idx)
          (load_read-Run ds path docs idx r))

  load_found-Run :
      (ds : List Document) (files : Option (List Text)) (idx : Index F)
      → Run fl unicode ds idx
      → Run fl unicode (ds ++ globbed_docs unicode h files) (load_found files idx)
  load_found-Run ds none idx r = rw append-nil r
  load_found-Run ds (some paths) idx r = load_paths-Run ds paths idx r

  load_dirs-Run :
      (ds : List Document) (dirs : List Text) (idx : Index F)
      → Run fl unicode ds idx
      → Run fl unicode (ds ++ docs_in_all unicode h dirs) (load_dirs dirs idx)
  unfolding load_start_dir
  load_dirs-Run ds [] idx r = rw append-nil r
  load_dirs-Run ds (dir ∷ dirs) idx r =
      let files = h.glob (h.join_path dir (codes "*.parquet")) in
      let more = globbed_docs unicode h files in
      rw (append_assoc ds more (docs_in_all unicode h dirs)) at
        (load_dirs-Run (ds ++ more) dirs (load_start_dir dir idx) (load_found-Run ds files idx r))

  -- The index that main serves comes from the rows of the readable files of both directories.
  pub start-Run : Run fl unicode (first_docs unicode h) start
  unfolding start
  start-Run = readied true (
      finalized (
        load_dirs-Run []
          (unique_dirs (h.getenv (codes "DATA_DIR") ∷ h.getenv (codes "UPLOAD_DIR") ∷ []))
          (new_index F) created))
