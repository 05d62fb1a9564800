-- ===== src/Ingest/Writers.antt =====
-- Who can change the files and the jobs.
use telemetry_search_engine.Common.{ℕ, ◌≡◌, ◌⊎◌, inl, inr, refl, Text, codes}
use telemetry_search_engine.Auth.Token.{Jwt}
use telemetry_search_engine.Access.{Context, Checked, passed, aborted, require_auth, guard}
use telemetry_search_engine.Access.Guard.{IsWriter, guard-IsWriter}
use telemetry_search_engine.Ingest.{
  Os, Ingest, Request, health, ready, list_files, all_jobs, upload, job, delete_file, handle,
  checks, serve_checked, serve,
}

module _ {D : Type 0} (os : Os D) (unicode : Text → Text) (upload_dir : Text) (decimal : ℕ → Text)
    (jwt : Jwt) (env : Text → Text) (now : ℕ) (header : Text) (ctx : Context) where
  read_only :
      (req : Request) (checked : Checked) (st : Ingest D)
      → ((username : Text) → (handle os unicode upload_dir decimal req username now st).1 ≡ st)
      → (serve_checked os unicode upload_dir decimal jwt env req now checked st).1 ≡ st
  read_only req (passed after) st same = same after.username
  read_only req (aborted status text) st same = refl

  guarded :
      (req : Request) (checked : Checked) (st : Ingest D)
      → guard jwt env (codes "writer") now header ctx ≡ checked
      → ((serve_checked os unicode upload_dir decimal jwt env req now checked st).1 ≡ st)
        ⊎ IsWriter jwt env now header
  guarded req (passed after) st e = inr (guard-IsWriter jwt env now header ctx after e)
  guarded req (aborted status text) st e = inl refl

  -- A request changes the jobs or the disk only if its caller is a writer.
  pub serve_writers :
      (req : Request) (st : Ingest D)
      → ((serve os unicode upload_dir decimal jwt env req now header ctx st).1 ≡ st)
        ⊎ IsWriter jwt env now header
  unfolding serve checks
  serve_writers health st = inl refl
  serve_writers ready st = inl refl
  serve_writers list_files st =
      inl (read_only list_files (require_auth jwt env now header ctx) st (λ username. refl))
  serve_writers all_jobs st =
      inl (read_only all_jobs (require_auth jwt env now header ctx) st (λ username. refl))
  serve_writers (job id) st =
      inl (read_only (job id) (require_auth jwt env now header ctx) st (λ username. refl))
  serve_writers (upload file) st =
      guarded (upload file) (guard jwt env (codes "writer") now header ctx) st refl
  serve_writers (delete_file name) st =
      guarded (delete_file name) (guard jwt env (codes "writer") now header ctx) st refl
