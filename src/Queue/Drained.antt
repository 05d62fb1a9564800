-- ===== src/Queue/Drained.antt =====
-- A job can always reach its end.
use telemetry_search_engine.Common.{
  ℕ, zero, suc, ◌+◌, ◌*◌, ◌≤◌, ◌<◌, ◌≡◌, ◌⊎◌, inl, inr, refl, ◌∙◌, List, [], ◌∷◌, length, Text,
  some, get, text_eq, arith,
}
use telemetry_search_engine.Queue.{
  Status, pending, processing, done, failed, Job, Task, Queue, read, new_queue, update, set_status,
  start_process, end_process, submit, Step, submitted, sent, started, finished, Reachable, start,
  step,
}
use telemetry_search_engine.Queue.Steps.{count, waits, runs, Separates, reachable-IsConsistent}
use telemetry_search_engine.Queue.Progress.{Step-Next}

-- The steps that the tasks of a queue have before them.
abbrev load : Queue → ℕ
load q = 3 * length q.sending + 2 * length q.channel + length q.running

abbrev IsDrained : Queue → Type 0
IsDrained q = (q.sending ≡ []) × (q.channel ≡ []) × (q.running ≡ [])

module _ (decimal : ℕ → Text) where
  Step-workers : (q r : Queue) → Step decimal q r → r.worker_n ≡ q.worker_n
  unfolding submit start_process end_process set_status update
  Step-workers q _ (submitted filename path by now) = refl
  Step-workers q _ (sent before after t e free) = refl
  Step-workers q _ (started t rest e free) = refl
  Step-workers q _ (finished before after t r now e) = refl

  pub Reachable-workers :
      (workers : ℕ) (q : Queue) → Reachable decimal workers q → q.worker_n ≡ workers
  unfolding new_queue
  Reachable-workers workers _ start = refl
  Reachable-workers workers _ (step {q} {r} reached s) =
      Step-workers q r s ∙ Reachable-workers workers q reached

  -- A queue that is not drained has a step that brings it nearer.
  abbrev Nearer : Queue → Type 0
  Nearer q = IsDrained q ⊎ ((r : Queue) × Step decimal q r × (load r < load q))

  nearer :
      (q : Queue) (sending channel running : List Task)
      → 1 ≤ q.worker_n
      → q.sending ≡ sending
      → q.channel ≡ channel
      → q.running ≡ running
      → Nearer q
  unfolding start_process end_process set_status update
  nearer q sending channel (t ∷ running) w es ec er =
      inr (_, finished [] running t (read 0) 0 er, rw er (omega arith))
  nearer q sending (t ∷ channel) [] w es ec er =
      inr (_, started t channel ec (rw er (omega arith)), rw (ec, er) (omega arith))
  nearer q (t ∷ sending) [] [] w es ec er =
      inr (_, sent [] sending t es (rw ec (omega arith)), rw (es, ec) (omega arith))
  nearer q [] [] [] w es ec er = inl (es, ec, er)

  -- Steps from one queue to another.
  pub data Leads : Queue → Queue → Type 0 where
    stay : {q : Queue} → Leads q q
    move : {q r t : Queue} → Step decimal q r → Leads r t → Leads q t

  module _ (separates : Separates decimal) (workers : ℕ) where
    -- A queue to which `q` leads, drained, and the job of `k` in it.
    abbrev Drains : Text → Queue → Type 0
    Drains k q =
        (r : Queue) × (j : Job) × Leads q r
        × Reachable decimal workers r
        × (get k r.jobs ≡ some j)
        × IsDrained r

    drained :
        (fuel : ℕ) (q : Queue) (k : Text) (j : Job)
        → 1 ≤ workers
        → load q < fuel
        → Reachable decimal workers q
        → get k q.jobs ≡ some j
        → Drains k q
    drained zero q k j w enough reached found = absurd (omega arith)
    drained (suc fuel) q k j w enough reached found =
        elim (nearer q q.sending q.channel q.running
          (omega (arith, w, Reachable-workers workers q reached)) refl refl refl) [
            | inl d ↦ (q, j, stay, reached, found, d)
            | inr (r, s, less) ↦
                let (j', found', _) = Step-Next decimal separates workers q r k j reached s found in
                let (t, last, leads, end, here, d) =
                  drained fuel r k j' w (omega arith) (step reached s) found' in
                (t, last, move s leads, end, here, d)
          ]

    ended_status : (s : Status) → 0 ≡ waits s → 0 ≡ runs s → (s ≡ done) ⊎ (s ≡ failed)
    ended_status pending p r = absurd (omega arith)
    ended_status processing p r = absurd (omega arith)
    ended_status done p r = inl refl
    ended_status failed p r = inr refl

    -- If there is a worker, and %d writes no two numbers alike, then from every reachable queue
    -- some steps lead to one in which a given job has ended, as done or failed.
    pub job_ends :
        (q : Queue) (k : Text) (j : Job)
        → 1 ≤ workers
        → Reachable decimal workers q
        → get k q.jobs ≡ some j
        → (r : Queue) × (last : Job) × Leads q r
          × (get k r.jobs ≡ some last)
          × ((last.status ≡ done) ⊎ (last.status ≡ failed))
    unfolding count
    job_ends q k j w reached found =
        let (r, last, leads, end, here, (sending, channel, running)) =
          drained (load q + 1) q k j w (omega arith) reached found in
        let c = reachable-IsConsistent decimal separates workers r end in
        let waiting : 0 ≡ waits last.status = rw (sending, channel, here) at (c.waiting k) in
        let busy : 0 ≡ runs last.status = rw (running, here) at (c.running k) in
        (r, last, leads, here, ended_status last.status waiting busy)
