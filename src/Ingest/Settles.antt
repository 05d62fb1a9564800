-- ===== src/Ingest/Settles.antt =====
-- Every job ends, and its notification returns.
use telemetry_search_engine.Common.{
  ℕ, zero, suc, ◌+◌, ◌*◌, ◌<◌, ◌≤◌, ◌≡◌, ◌⊎◌, inl, inr, refl, ap, List, [], ◌∷◌, Text, some, get,
  text_eq, length, Bool, arith, sum_of,
}
use telemetry_search_engine.Float.{Float}
use telemetry_search_engine.Auth.Token.{Jwt}
use telemetry_search_engine.Queue
use telemetry_search_engine.Queue.{
  Status, pending, processing, done, failed, Job, Task, Queue, Reading, read, unreadable, capacity,
  new_queue, new_job, ended, start_process, end_process, update, set_status, submit, get_job,
  job_name,
}
use telemetry_search_engine.Queue.Steps.{
  count, IsConsistent, Separates, is_waiting, is_running, get-update, count-middle,
  reachable-IsConsistent,
}
use telemetry_search_engine.Service.{Host}
use telemetry_search_engine.Ingest.{Os}
use telemetry_search_engine.Ingest.Notify.{lost}
use telemetry_search_engine.Ingest.System.{
  worker_count, System, Advance, sent, started, finished, returned, after_read, Comes, then_to,
  IsWork, Works, stay, go,
}
use telemetry_search_engine.Ingest.Done.{is_done, times}
use telemetry_search_engine.Queue.Drained.{Reachable-workers}
use telemetry_search_engine.Queue.Progress.{Step-Next}
use telemetry_search_engine.Ingest.Settled.{Advance-queue, Comes-settled}

module _ (fl : Float) (unicode : Text → Text) (jwt : Jwt) (decimal : ℕ → Text) {D : Type 0}
    (os : Os D) (env : Text → Text) (trim_slashes : Text → Text) (builds : Text → Bool) where
  open fl use {F}

  -- The steps that the workers have before them.
  abbrev load : System D F → ℕ
  load sys =
      4 * length sys.ingest.queue.sending
      + 3 * length sys.ingest.queue.channel
      + 2 * length sys.ingest.queue.running
      + length sys.notifying

  abbrev IsIdle : System D F → Type 0
  IsIdle sys =
      (sys.ingest.queue.sending ≡ [])
      × (sys.ingest.queue.channel ≡ [])
      × (sys.ingest.queue.running ≡ [])
      × (sys.notifying ≡ [])

  module _ (outcome : Text → Reading) (h : Host) where
    -- A system that is not idle has a step of the workers that brings it nearer.
    abbrev Nearer : System D F → Type 0
    Nearer sys =
        IsIdle sys
        ⊎ ((sys' : System D F) × (a : Advance fl unicode jwt decimal os env trim_slashes builds sys
              sys')
            × IsWork fl unicode jwt decimal os env trim_slashes builds outcome a
            × (load sys' < load sys))

    length-after_read :
        (r : Reading) (t : Task) (sys : System D F)
        → length (after_read fl unicode jwt decimal os env trim_slashes builds r t sys)
          ≤ length sys.notifying + 1
    length-after_read (read n) t sys = omega arith
    length-after_read (unreadable error) t sys = omega arith

    nearer :
        (sys : System D F) (sending channel running : List Task) (notifying : List (Text × Text))
        → sys.ingest.queue.worker_n ≡ worker_count
        → sys.ingest.queue.sending ≡ sending
        → sys.ingest.queue.channel ≡ channel
        → sys.ingest.queue.running ≡ running
        → sys.notifying ≡ notifying
        → Nearer sys
    unfolding start_process end_process set_status update
    nearer sys sending channel running ((id, name) ∷ rest) w es ec er en =
        inr (_, returned [] rest id name h [] (λ attempt. lost) en, tt, rw en (omega arith))
    nearer sys sending channel (t ∷ running) [] w es ec er en = inr (
      _,
      finished [] running t (outcome t.file_path) 0 er,
      refl,
      omega (arith, ap length er, length-after_read (outcome t.file_path) t sys),
    )
    nearer sys sending (t ∷ channel) [] [] w es ec er en =
        inr (_, started t channel ec (rw (er, en) (omega arith)), tt, rw (ec, er) (omega arith))
    nearer sys (t ∷ sending) [] [] [] w es ec er en =
        inr (_, sent [] sending t es (rw ec (omega arith)), tt, rw (es, ec) (omega arith))
    nearer sys [] [] [] [] w es ec er en = inl (es, ec, er, en)

    module _ (separates : Separates decimal) where
      -- An idle system to which the workers come, and the job of `id` in it.
      abbrev Idles : Text → System D F → Type 0
      Idles id sys =
          (last : System D F) × (j : Job) × Works fl unicode jwt decimal os env trim_slashes builds
            outcome sys last
          × Comes fl unicode jwt decimal os env trim_slashes builds h last
          × (get id last.ingest.queue.jobs ≡ some j)
          × IsIdle last

      idles :
          (fuel : ℕ) (sys : System D F) (id : Text) (j : Job)
          → load sys < fuel
          → Comes fl unicode jwt decimal os env trim_slashes builds h sys
          → get id sys.ingest.queue.jobs ≡ some j
          → Idles id sys
      idles zero sys id j enough c found = absurd (omega arith)
      idles (suc fuel) sys id j enough c found =
          let (reached, _, _) =
            Comes-settled fl unicode jwt decimal os env trim_slashes builds separates h sys c in
          elim (nearer sys sys.ingest.queue.sending sys.ingest.queue.channel
            sys.ingest.queue.running sys.notifying
            (Reachable-workers decimal worker_count sys.ingest.queue reached) refl refl refl refl) [
              | inl idle ↦ (sys, j, stay, c, found, idle)
              | inr (sys', a, work, less) ↦
                  let (j', found') = keeps sys' a reached in
                  let (last, end, works, comes, here, idle) =
                    idles fuel sys' id j' (omega arith) (then_to c a) found' in
                  (last, end, go a work works, comes, here, idle)
            ]
        where
          keeps :
              (sys' : System D F)
              → Advance fl unicode jwt decimal os env trim_slashes builds sys sys'
              → Queue.Reachable decimal worker_count sys.ingest.queue
              → (j' : Job) × (get id sys'.ingest.queue.jobs ≡ some j')
          keeps sys' a reached =
              elim (Advance-queue fl unicode jwt decimal os env trim_slashes builds sys sys' a) [
                | inl same ↦ (j, rw same found)
                | inr s ↦
                    let (j', found', _) =
                      Step-Next decimal separates worker_count sys.ingest.queue sys'.ingest.queue id
                        j reached s found in
                    (j', found')
              ]

      ended_status :
          (s : Status)
          → 0 ≡ Queue.Steps.waits s
          → 0 ≡ Queue.Steps.runs s
          → (s ≡ failed) ⊎ ((s ≡ done) × (is_done s ≡ 1))
      ended_status pending p r = absurd (omega arith)
      ended_status processing p r = absurd (omega arith)
      ended_status done p r = inr (refl, refl)
      ended_status failed p r = inl refl

      -- Whatever the files of the jobs turn out to be, from every state of the system some steps of
      -- the workers alone lead to one in which a given job has ended, as failed, or as done, and then
      -- its OnDone has returned, once; if %d writes no two numbers alike.
      pub job_settles :
          (sys : System D F) (id : Text) (j : Job)
          → Comes fl unicode jwt decimal os env trim_slashes builds h sys
          → get id sys.ingest.queue.jobs ≡ some j
          → (last : System D F) × (end : Job) × Works fl unicode jwt decimal os env trim_slashes
              builds outcome sys last
            × (get id last.ingest.queue.jobs ≡ some end)
            × ((end.status ≡ failed) ⊎ ((end.status ≡ done) × (times id last.notified ≡ 1)))
      unfolding count sum_of
      job_settles sys id j c found =
          let (last, end, works, comes, here, (sending, channel, running, notifying)) =
            idles (load sys + 1) sys id j (omega arith) c found in
          let (reached, once, _) =
            Comes-settled fl unicode jwt decimal os env trim_slashes builds separates h last
              comes in
          let k = reachable-IsConsistent decimal separates worker_count last.ingest.queue reached in
          let waiting : 0 ≡ Queue.Steps.waits end.status =
            rw (sending, channel, here) at (k.waiting id) in
          let busy : 0 ≡ Queue.Steps.runs end.status = rw (running, here) at (k.running id) in
          let told : times id last.notified + 0 ≡ is_done end.status =
            rw (notifying, here) at (once id) in
          (
            last,
            end,
            works,
            here,
            elim (ended_status end.status waiting busy) [
              | inl f ↦ inl f
              | inr (d, one) ↦ inr (d, omega arith)
            ],
          )
