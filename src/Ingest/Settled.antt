-- ===== src/Ingest/Settled.antt =====
-- What holds of the ingest service, its workers and the search service in whatever order they go.
use telemetry_search_engine.Common.{
  ℕ, ◌+◌, ◌≡◌, ◌⊎◌, inl, inr, refl, ap, ◌∙◌, sym, List, [], ◌∷◌, ◌++◌, Text, some, get, text_eq,
  text_beq, Bool, true, false, if◌then◌else◌, arith, sum_of,
}
use telemetry_search_engine.Float.{Float}
use telemetry_search_engine.Auth.Token.{Jwt}
use telemetry_search_engine.Access.{Checked, passed, aborted}
use mathlib.Core.Path.{subst}
use telemetry_search_engine.Queue
use telemetry_search_engine.Queue.{
  Status, pending, processing, done, failed, Job, Task, Queue, Reading, read, unreadable, capacity,
  new_queue, new_job, ended, start_process, end_process, update, set_status, submit, get_job,
  job_name,
}
use telemetry_search_engine.Queue.Steps.{IsConsistent, Separates, reachable-IsConsistent}
use telemetry_search_engine.Service.{Host}
use telemetry_search_engine.Service.Start.{start-Run, first_docs}
use telemetry_search_engine.Service.Served.{serve_all-Run, served_docs}
use telemetry_search_engine.Ingest.{
  Os, Ingest, Request, health, ready, list_files, all_jobs, upload, job, delete_file, serve,
  serve_checked, checks,
}
use telemetry_search_engine.Ingest.Files.{handle_upload_exact, handle_delete_file_contained}
use telemetry_search_engine.Ingest.System.{
  upload_dir_of, service_url_of, worker_count, start_ingest, System, Advance, requested, sent,
  started, finished, returned, asked, after_read, Comes, first, then_to,
}
use telemetry_search_engine.Ingest.Done.{
  done_of, times, ids_of, submitted_done, started_done, ended_done,
}
use telemetry_search_engine.Ingest.Rerun.{HasRun, on_done-HasRun}

module _ (fl : Float) (unicode : Text → Text) (jwt : Jwt) (decimal : ℕ → Text) {D : Type 0}
    (os : Os D) (env : Text → Text) (trim_slashes : Text → Text) (builds : Text → Bool) where
  open fl use {F}

  -- What a request does to the queue: nothing, or one Submit.
  abbrev Submits : Queue → Queue → Type 0
  Submits q q' =
      (q' ≡ q)
      ⊎ ((name : Text) × (path : Text) × (by : Text) × (now : ℕ) × (q'
            ≡ (submit decimal name path by now q).1))

  serve_checked-Submits :
      (req : Request) (now : ℕ) (c : Checked) (st : Ingest D)
      → Submits st.queue
          (serve_checked os unicode (upload_dir_of env) decimal jwt env req now c st).1.queue
  serve_checked-Submits req now (aborted status error) st = inl refl
  serve_checked-Submits health now (passed ctx) st = inl refl
  serve_checked-Submits ready now (passed ctx) st = inl refl
  serve_checked-Submits list_files now (passed ctx) st = inl refl
  serve_checked-Submits all_jobs now (passed ctx) st = inl refl
  serve_checked-Submits (job id) now (passed ctx) st = inl refl
  serve_checked-Submits (delete_file name) now (passed ctx) st =
      inl (elim (handle_delete_file_contained os unicode (upload_dir_of env) name st) [
        | inl same ↦ ap (λ (x : Ingest D). x.queue) same
        | inr changed ↦ ap (λ (x : Ingest D). x.queue) changed.0
      ])
  serve_checked-Submits (upload file) now (passed ctx) st =
      elim (handle_upload_exact os unicode (upload_dir_of env) decimal file ctx.username now st) [
        | inl (_, same) ↦ inl same
        | inr (_, (f, content, _, _, (_, queued, _))) ↦ inr (_, _, ctx.username, now, queued)
      ]

  -- A step of the system is one of the queue, or leaves the queue as it is.
  pub Advance-queue :
      (sys sys' : System D F)
      → Advance fl unicode jwt decimal os env trim_slashes builds sys sys'
      → (sys'.ingest.queue ≡ sys.ingest.queue)
        ⊎ Queue.Step decimal sys.ingest.queue sys'.ingest.queue
  unfolding serve
  Advance-queue sys _ (requested req now header ctx) =
      elim (serve_checked-Submits req now
        (checks os unicode (upload_dir_of env) decimal jwt env req now header ctx) sys.ingest) [
          | inl same ↦ inl same
          | inr (name, path, by, at, e) ↦ inr (
              subst (Queue.Step decimal sys.ingest.queue) (sym e) (Queue.submitted name path by at))
        ]
  Advance-queue sys _ (sent before after t e free) = inr (Queue.sent before after t e free)
  Advance-queue sys _ (started t rest e free) = inr (Queue.started t rest e (omega arith))
  Advance-queue sys _ (finished before after t r now e) =
      inr (Queue.finished before after t r now e)
  Advance-queue sys _ (returned before after id filename h header deliver e) = inl refl
  Advance-queue sys _ (asked call ctx) = inl refl

  -- The OnDone of each job that is done has returned or runs, once, and that of no other job.
  abbrev pub IsNotifiedOnce : System D F → Type 0
  IsNotifiedOnce sys =
      (id : Text)
      → times id sys.notified + times id (ids_of sys.notifying)
        ≡ done_of (get id sys.ingest.queue.jobs)

  ids_of-append : (ps qs : List (Text × Text)) → ids_of (ps ++ qs) ≡ ids_of ps ++ ids_of qs
  ids_of-append [] qs = refl
  ids_of-append (p ∷ ps) qs = ap (◌∷◌ p.0) (ids_of-append ps qs)

  times-middle :
      (id : Text) (ps : List (Text × Text)) (k name : Text) (qs : List (Text × Text))
      → times id (ids_of (ps ++ (k, name) ∷ qs))
        ≡ (if text_beq k id then 1 else 0) + times id (ids_of (ps ++ qs))
  unfolding sum_of
  times-middle id [] k name qs = refl
  times-middle id ((j, _) ∷ ps) k name qs = omega (arith, times-middle id ps k name qs)

  module _ (separates : Separates decimal) where
    after_read-IsNotifiedOnce :
        (before after : List Task) (t : Task) (r : Reading) (now : ℕ) (sys : System D F)
        → IsConsistent decimal sys.ingest.queue
        → sys.ingest.queue.running ≡ before ++ t ∷ after
        → IsNotifiedOnce sys
        → (id : Text)
        → times id sys.notified
            + times id
                (ids_of (after_read fl unicode jwt decimal os env trim_slashes builds r t sys))
          ≡ done_of (
              get id
                (end_process t r now (record sys.ingest.queue { running = before ++ after })).jobs)
    unfolding sum_of
    after_read-IsNotifiedOnce before after t (read n) now sys c e once id = omega (
      arith,
      once id,
      ended_done decimal before after t (read n) now sys.ingest.queue
          (record sys.ingest.queue { running = before ++ after }) id c e refl,
    )
    after_read-IsNotifiedOnce before after t (unreadable err) now sys c e once id = omega (
      arith,
      once id,
      ended_done decimal before after t (unreadable err) now sys.ingest.queue
          (record sys.ingest.queue { running = before ++ after }) id c e refl,
    )

    Advance-IsNotifiedOnce :
        (sys sys' : System D F)
        → IsConsistent decimal sys.ingest.queue
        → Advance fl unicode jwt decimal os env trim_slashes builds sys sys'
        → IsNotifiedOnce sys
        → IsNotifiedOnce sys'
    unfolding serve
    Advance-IsNotifiedOnce sys _ c (requested req now header ctx) once = λ id.
        elim (serve_checked-Submits req now
          (checks os unicode (upload_dir_of env) decimal jwt env req now header ctx) sys.ingest) [
            | inl same ↦ rw same (once id)
            | inr (name, path, by, at, e) ↦
                rw e (once id ∙ sym (submitted_done decimal name path by at sys.ingest.queue id c))
          ]
    Advance-IsNotifiedOnce sys _ c (sent before after t e free) once = once
    Advance-IsNotifiedOnce sys _ c (started t rest e free) once =
        λ id. once id ∙ sym (started_done decimal t rest sys.ingest.queue _ id c e refl)
    Advance-IsNotifiedOnce sys _ c (finished before after t r now e) once =
        after_read-IsNotifiedOnce before after t r now sys c e once
    Advance-IsNotifiedOnce sys _ c (returned before after id filename h header deliver e) once =
        λ k. moved k
      where
        moved :
            (k : Text)
            → times k (id ∷ sys.notified) + times k (ids_of (before ++ after))
              ≡ done_of (get k sys.ingest.queue.jobs)
        moved k =
            unfold sum_of in
            omega (
              arith,
              once k,
              ap (λ ps. times k (ids_of ps)) e,
              times-middle k before id filename after,
            )
    Advance-IsNotifiedOnce sys _ c (asked call ctx) once = once

    Advance-HasRun :
        (sys sys' : System D F)
        → Advance fl unicode jwt decimal os env trim_slashes builds sys sys'
        → HasRun fl unicode sys.index
        → HasRun fl unicode sys'.index
    Advance-HasRun sys _ (requested req now header ctx) r = r
    Advance-HasRun sys _ (sent before after t e free) r = r
    Advance-HasRun sys _ (started t rest e free) r = r
    Advance-HasRun sys _ (finished before after t rd now e) r = r
    Advance-HasRun sys _ (returned before after id filename h header deliver e) r =
        on_done-HasRun fl unicode jwt h header filename deliver trim_slashes builds
          (service_url_of env) sys.index r
    Advance-HasRun sys _ (asked call ctx) (ds, r) = (
      served_docs jwt unicode ctx call ds,
      serve_all-Run jwt unicode ctx fl (call ∷ []) ds sys.index r,
    )

    -- In whatever order requests to both services and steps of the workers come, the queue is one
    -- that its own steps reach with four workers, the OnDone of each job that is done has returned
    -- or runs, exactly once, and that of no other job, and the index of the search service comes
    -- from some documents by its operations; if %d writes no two numbers alike.
    pub Comes-settled :
        (h : Host) (sys : System D F)
        → Comes fl unicode jwt decimal os env trim_slashes builds h sys
        → Queue.Reachable decimal worker_count sys.ingest.queue
          × IsNotifiedOnce sys
          × HasRun fl unicode sys.index
    unfolding start_ingest new_queue get sum_of
    Comes-settled h _ (first true disk ingest e) =
        let fresh : ingest.queue ≡ new_queue worker_count =
          ap (λ (x : Ingest D). x.queue) (started_at e) in
        (
          subst (Queue.Reachable decimal worker_count) (sym fresh) Queue.start,
          λ id. rw fresh (omega arith),
          (first_docs unicode h, start-Run fl unicode h),
        )
      where
        started_at : {a b : Ingest D} → some a ≡ some b → b ≡ a
        started_at e = cc
    Comes-settled h _ (first false disk ingest e) = cc
    Comes-settled h _ (then_to {sys} {sys'} c a) =
        let (reached, once, run) = Comes-settled h sys c in
        let consistent =
          reachable-IsConsistent decimal separates worker_count sys.ingest.queue reached in
        (
          elim (Advance-queue sys sys' a) [
            | inl same ↦ subst (Queue.Reachable decimal worker_count) (sym same) reached
            | inr s ↦ Queue.step reached s
          ],
          Advance-IsNotifiedOnce sys sys' consistent a once,
          Advance-HasRun sys sys' a run,
        )
