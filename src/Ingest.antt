-- ===== src/Ingest.antt =====
-- ingest-service/internal/api/handler.go: the handlers of the ingest service and their routes. The
-- file system and the HTTP client are inputs.
pub mod Files
pub mod Notify
pub mod Writers
pub mod Jobs
pub mod System
pub mod Done
pub mod Rerun
pub mod Settled
pub mod Settles
mod SystemTests
mod Tests
use telemetry_search_engine.Common.{
  ℕ, zero, suc, ◌+◌, List, [], ◌∷◌, ◌++◌, Text, Map, codes, to_lower, text_beq, Option, none, some,
  Bool, true, false, not, ◌&&◌, ◌||◌, leb, eqb, if◌then◌else◌, length, take, ◌⊎◌, inl, inr,
}
use telemetry_search_engine.Auth.Token.{Jwt}
use telemetry_search_engine.Access.{Context, Checked, passed, aborted, require_auth, guard}
use telemetry_search_engine.Queue.{Job, Queue, submit, get_job, list_jobs}

-- An entry of a directory: its name, whether it is one, and its size and time, if they can be had.
pub record Entry : Type 0 where
  pub name : Text
  pub is_dir : Bool
  pub info : Option (ℕ × Text)

pub data Removal : Type 0 where
  removed not_exist : Removal
  not_removed : Text → Removal

-- What the handlers call of os, path/filepath and gin: `D` is the content of the disk, `save` and
-- `remove` give it back with their result, and an error is its text.
pub record Os (D : Type 0) : Type 0 where
  pub base : Text → Text
  pub ext : Text → Text
  pub join_path : Text → Text → Text
  pub save : Text → Text → D → Option Text × D
  pub remove : Text → D → Removal × D
  pub read_dir : Text → D → Text ⊎ List Entry

-- The file of a form: its name, and its content if it can be opened.
pub record Upload : Type 0 where
  pub filename : Text
  pub content : Option Text

pub record FileInfo : Type 0 where
  pub name : Text
  pub size_bytes : ℕ
  pub mod_time : Text

pub data Answer : Type 0 where
  accepted : Text → Text → Answer
  files_list : List FileInfo → ℕ → Answer
  jobs_list : List Job → ℕ → Answer
  one_job : Job → Answer
  deleted : Text → Answer
  state : Text → Answer
  error : Text → Answer

pub record Ingest (D : Type 0) : Type 0 where
  pub queue : Queue
  pub disk : D

-- FormFile gives no upload where the form has no file.
pub data Request : Type 0 where
  health ready list_files all_jobs : Request
  upload : Option Upload → Request
  job : Text → Request
  delete_file : Text → Request

unfoldable pub is_between : ℕ → ℕ → ℕ → Bool
is_between lo hi c = leb lo c && leb c hi

unfoldable pub is_allowed_filename_char : ℕ → Bool
is_allowed_filename_char c =
    is_between b'a' b'z' c
    || is_between b'A' b'Z' c
    || is_between b'0' b'9' c
    || eqb c b'-'
    || eqb c b'_'
    || eqb c b'.'
    || eqb c b' '

-- The loop over the runes of a name, by its bytes: a byte above 127 belongs to a rune above 127, or
-- to U+FFFD, and neither is allowed.
unfoldable pub all_allowed : Text → Bool
all_allowed [] = true
all_allowed (c ∷ s) = is_allowed_filename_char c && all_allowed s

abbrev pub gitkeep : Text
gitkeep = codes ".gitkeep"

-- The magic of the first four bytes, which a shorter content does not have.
unfoldable pub has_magic : Text → Bool
has_magic content = text_beq (take 4 content) (codes "PAR1")

unfoldable pub ensure_parquet_ext : {D : Type 0} → Os D → (Text → Text) → Text → Text
ensure_parquet_ext os unicode name =
    if text_beq (to_lower unicode (os.ext name)) (codes ".parquet")
    then name
    else name ++ codes ".parquet"

module _ {D : Type 0} (os : Os D) (unicode : Text → Text) (upload_dir : Text) where
  module _ (decimal : ℕ → Text) where
    -- upload once the file is saved, on the error of the save.
    abbrev pub submit_saved :
        Text → Text → Text → ℕ → Option Text × D → Ingest D → (ℕ × Answer) × Ingest D
    submit_saved name dst username now (some err, disk) st =
        ((500, error (codes "save failed: " ++ err)), record st { disk = disk })
    submit_saved name dst username now (none, disk) st =
        let (id, queue) = submit decimal name dst username now st.queue in
        ((202, accepted id name), record { queue = queue; disk = disk })

    abbrev pub save_content : Text → Text → ℕ → Option Text → Ingest D → (ℕ × Answer) × Ingest D
    save_content filename username now none st = ((500, error (codes "could not read file")), st)
    save_content filename username now (some content) st =
        let name = ensure_parquet_ext os unicode (os.base filename) in
        let dst = os.join_path upload_dir name in
        if has_magic content
        then submit_saved name dst username now (os.save dst content st.disk) st
        else ((400, error (codes "not a valid Parquet file (missing PAR1 magic)")), st)

    unfoldable pub handle_upload : Option Upload → Text → ℕ → Ingest D → (ℕ × Answer) × Ingest D
    handle_upload none username now st = ((400, error (codes "no file provided")), st)
    handle_upload (some file) username now st =
        save_content file.filename username now file.content st

  abbrev pub with_info : Entry → Option (ℕ × Text) → List FileInfo → List FileInfo
  with_info e none files = files
  with_info e (some (size, time)) files =
      record { name = e.name; size_bytes = size; mod_time = time } ∷ files

  -- The loop of listFiles.
  unfoldable pub file_infos : List Entry → List FileInfo
  file_infos [] = []
  file_infos (e ∷ entries) =
      let rest = file_infos entries in
      if e.is_dir || text_beq e.name gitkeep then rest else with_info e e.info rest

  abbrev pub list_entries : Text ⊎ List Entry → ℕ × Answer
  list_entries (inl err) = (500, error err)
  list_entries (inr entries) = (200, files_list (file_infos entries) (length (file_infos entries)))

  unfoldable pub handle_list_files : Ingest D → ℕ × Answer
  handle_list_files st = list_entries (os.read_dir upload_dir st.disk)

  abbrev pub removal_answer : Text → Removal → ℕ × Answer
  removal_answer name removed = (200, deleted name)
  removal_answer name not_exist = (404, error (codes "file not found"))
  removal_answer name (not_removed err) = (500, error err)

  unfoldable pub handle_delete_file : Text → Ingest D → (ℕ × Answer) × Ingest D
  handle_delete_file param st =
      let name = os.base param in
      let (removal, disk) = os.remove (os.join_path upload_dir name) st.disk in
      if text_beq name gitkeep || text_beq name (codes ".") || text_beq name []
      then ((400, error (codes "invalid filename")), st)
      else if not (all_allowed name)
      then ((400, error (codes "invalid filename characters")), st)
      else (removal_answer name removal, record st { disk = disk })

unfoldable pub handle_list_jobs : Queue → ℕ × Answer
handle_list_jobs q = (200, jobs_list (list_jobs q) (length (list_jobs q)))

abbrev pub job_answer : Option Job → ℕ × Answer
job_answer none = (404, error (codes "job not found"))
job_answer (some j) = (200, one_job j)

unfoldable pub handle_get_job : Text → Queue → ℕ × Answer
handle_get_job id q = job_answer (get_job id q)

module _ {D : Type 0} (os : Os D) (unicode : Text → Text) (upload_dir : Text)
    (decimal : ℕ → Text) where
  abbrev pub handle : Request → Text → ℕ → Ingest D → (ℕ × Answer) × Ingest D
  handle health username now st = ((200, state (codes "ok")), st)
  handle ready username now st = ((200, state (codes "ready")), st)
  handle list_files username now st = (handle_list_files os unicode upload_dir st, st)
  handle all_jobs username now st = (handle_list_jobs st.queue, st)
  handle (upload file) username now st =
      handle_upload os unicode upload_dir decimal file username now st
  handle (job id) username now st = (handle_get_job id st.queue, st)
  handle (delete_file name) username now st = handle_delete_file os unicode upload_dir name st

  module _ (jwt : Jwt) (env : Text → Text) where
    -- The checks in front of a route.
    unfoldable pub checks : Request → ℕ → Text → Context → Checked
    checks health now header ctx = passed ctx
    checks ready now header ctx = passed ctx
    checks list_files now header ctx = require_auth jwt env now header ctx
    checks all_jobs now header ctx = require_auth jwt env now header ctx
    checks (job id) now header ctx = require_auth jwt env now header ctx
    checks (upload file) now header ctx = guard jwt env (codes "writer") now header ctx
    checks (delete_file name) now header ctx = guard jwt env (codes "writer") now header ctx

    abbrev pub serve_checked : Request → ℕ → Checked → Ingest D → (ℕ × Answer) × Ingest D
    serve_checked req now (passed ctx) st = handle req ctx.username now st
    serve_checked req now (aborted status text) st = ((status, error text), st)

    -- One request, from the router to its answer.
    unfoldable pub serve : Request → ℕ → Text → Context → Ingest D → (ℕ × Answer) × Ingest D
    serve req now header ctx st = serve_checked req now (checks req now header ctx) st
