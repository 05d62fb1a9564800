-- ===== src/Ingest/Done.antt =====
-- What the steps of the queue do to the jobs that are done.
use telemetry_search_engine.Common.{
  ℕ, ◌+◌, ◌≡◌, inl, inr, refl, List, ◌∷◌, ◌++◌, map, Text, Option, none, some, get, get-put,
  text_eq, text_beq, text_beq_iff, Bool, true, false, if◌then◌else◌, arith, Bool-cases, sum_of,
}
use telemetry_search_engine.Queue
use telemetry_search_engine.Queue.{
  Status, pending, processing, done, failed, Job, Task, Queue, Reading, read, unreadable, capacity,
  new_queue, new_job, ended, start_process, end_process, update, set_status, submit, get_job,
  job_name,
}
use telemetry_search_engine.Queue.Steps.{
  count, IsConsistent, Separates, is_waiting, is_running, get-update, count-middle,
  reachable-IsConsistent,
}

-- Whether a job is done.
abbrev pub is_done : Status → ℕ
is_done done = 1
is_done _ = 0

abbrev pub done_of : Option Job → ℕ
done_of none = 0
done_of (some j) = is_done j.status

abbrev pub times : Text → List Text → ℕ
times id ids = sum_of (λ x. if text_beq x id then 1 else 0) ids

abbrev pub ids_of : List (Text × Text) → List Text
ids_of ps = map (λ (p : Text × Text). p.0) ps

module _ (decimal : ℕ → Text) where
  pub submitted_done :
      (filename path by : Text) (now : ℕ) (q : Queue) (id : Text)
      → IsConsistent decimal q
      → done_of (get id (submit decimal filename path by now q).1.jobs) ≡ done_of (get id q.jobs)
  unfolding submit
  submitted_done filename path by now q id c =
      let k = job_name decimal (q.counter + 1) in
      rw (get-put k id (new_job k filename by now) q.jobs) (elim (Bool-cases (text_beq k id)) [
        | inl e ↦
            let same : k ≡ id = (text_beq_iff k id).0 e in
            let free : get id q.jobs ≡ none = rw same at (c.fresh (q.counter + 1) (omega arith)) in
            rw (e, free) refl
        | inr e ↦ rw e refl
      ])

  pub started_done :
      (t : Task) (rest : List Task) (q q' : Queue) (id : Text)
      → IsConsistent decimal q
      → q.channel ≡ t ∷ rest
      → q'.jobs ≡ q.jobs
      → done_of (get id (start_process t q').jobs) ≡ done_of (get id q.jobs)
  unfolding start_process set_status
  started_done t rest q q' id c e same =
      let self : text_beq t.job_id t.job_id ≡ true = (text_beq_iff t.job_id t.job_id).1 refl in
      let held : count t.job_id q.sending + count t.job_id (t ∷ rest)
          ≡ Queue.Steps.waiting_of (get t.job_id q.jobs) =
        rw e at (c.waiting t.job_id) in
      let (j, found, _, _, is_pending) =
        is_waiting (get t.job_id q.jobs) (count t.job_id q.sending + count t.job_id rest)
          (unfold count in ground (arith, held, self)) in
      rw (get-update t.job_id id (λ j. record j { status = processing }) q', same)
        (elim (Bool-cases (text_beq t.job_id id)) [
          | inl d ↦
              let here : t.job_id ≡ id = (text_beq_iff t.job_id id).0 d in
              rw (d, found, ← here, found, is_pending) refl
          | inr d ↦ rw d refl
        ])

  abbrev pub adds : Reading → Bool → ℕ
  adds (read n) b = if b then 1 else 0
  adds (unreadable e) b = 0

  pub ended_done :
      (before after : List Task) (t : Task) (r : Reading) (now : ℕ) (q q' : Queue) (id : Text)
      → IsConsistent decimal q
      → q.running ≡ before ++ t ∷ after
      → q'.jobs ≡ q.jobs
      → done_of (get id (end_process t r now q').jobs)
        ≡ adds r (text_beq t.job_id id) + done_of (get id q.jobs)
  unfolding end_process
  ended_done before after t r now q q' id c e same =
      let self : text_beq t.job_id t.job_id ≡ true = (text_beq_iff t.job_id t.job_id).1 refl in
      let held : count t.job_id (before ++ t ∷ after)
          ≡ Queue.Steps.running_of (get t.job_id q.jobs) =
        rw e at (c.running t.job_id) in
      let (j, found, _, _, is_processing) =
        is_running (get t.job_id q.jobs) (count t.job_id (before ++ after))
          (ground (arith, held, self, count-middle t.job_id before after t)) in
      rw (get-update t.job_id id (ended r now) q', same)
        (elim (Bool-cases (text_beq t.job_id id)) [
          | inl d ↦
              let here : t.job_id ≡ id = (text_beq_iff t.job_id id).0 d in
              rw (d, found, ← here, found, is_processing) (of_ended r j)
          | inr d ↦ rw d (of_other r)
        ])
    where
      of_ended : (r : Reading) (j : Job) → is_done (ended r now j).status ≡ adds r true + 0
      of_ended (read n) j = omega arith
      of_ended (unreadable err) j = omega arith

      of_other : (r : Reading) → done_of (get id q.jobs) ≡ adds r false + done_of (get id q.jobs)
      of_other (read n) = omega arith
      of_other (unreadable err) = omega arith
