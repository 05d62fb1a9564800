-- ===== src/Queue/Progress.antt =====
-- What a step of the queue does to a job that is there.
use telemetry_search_engine.Common.{
  ℕ, ◌+◌, ◌≡◌, refl, List, ◌∷◌, ◌++◌, Text, Map, none, some, get, put, get-put, text_eq, text_beq,
  text_beq_iff, true, arith, Bool-cases, inl, inr,
}
use telemetry_search_engine.Queue.{
  pending, processing, Job, Task, Queue, Reading, update, set_status, ended, start_process,
  end_process, job_name, submit, Step, submitted, sent, started, finished, Reachable,
}
use telemetry_search_engine.Queue.Steps.{
  count, count-middle, waits, get-update, pending_of, processing_of, IsConsistent, Separates,
  reachable-IsConsistent,
}

-- What one step may do to a job.
pub data Next (j : Job) : Job → Type 0 where
  kept : Next j j
  begun : j.status ≡ pending → Next j (record j { status = processing })
  over : (r : Reading) (now : ℕ) → j.status ≡ processing → Next j (ended r now j)

-- After an update of the job of `id` by `f`, every job is there still: as it was, or by `f` from
-- one of that identifier.
update-Next :
    (id k : Text) (f : Job → Job) (q : Queue) (j : Job)
    → ((i : Job) → get id q.jobs ≡ some i → Next i (f i))
    → get k q.jobs ≡ some j
    → (j' : Job) × (get k (update id f q).jobs ≡ some j') × Next j j'
update-Next id k f q j next h = elim (Bool-cases (text_beq id k)) [
  | inl e ↦
      let same : id ≡ k = (text_beq_iff id k).0 e in
      let own : get id q.jobs ≡ some j = rw same h in
      (f j, rw (get-update id k f q, e, own), next j own)
  | inr e ↦ (j, rw (get-update id k f q, e) h, kept)
]

module _ (decimal : ℕ → Text) (separates : Separates decimal) where
  sent_or_put :
      (id k : Text) (n j : Job) (jobs : Map Text Job)
      → get id jobs ≡ none
      → get k jobs ≡ some j
      → get k (put id n jobs) ≡ some j
  sent_or_put id k n j jobs free h = rw (get-put id k n jobs) (elim (Bool-cases (text_beq id k)) [
    | inl e ↦
        let same : id ≡ k = (text_beq_iff id k).0 e in
        absurd (let p : none ≡ some j = rw (← same, free) at h in cc)
    | inr e ↦ rw e h
  ])

  head-pending :
      (q : Queue) (t : Task) (rest : List Task) (j : Job)
      → q.channel ≡ t ∷ rest
      → IsConsistent decimal q
      → get t.job_id q.jobs ≡ some j
      → j.status ≡ pending
  head-pending q t rest j e c h =
      let self : text_beq t.job_id t.job_id ≡ true = (text_beq_iff t.job_id t.job_id).1 refl in
      let w : count t.job_id q.sending + count t.job_id (t ∷ rest) ≡ waits j.status =
        rw (e, h) at (c.waiting t.job_id) in
      (pending_of j.status (count t.job_id q.sending + count t.job_id rest)
        (unfold count in ground (arith, w, self))).2

  held-processing :
      (q : Queue) (before after : List Task) (t : Task) (j : Job)
      → q.running ≡ before ++ t ∷ after
      → IsConsistent decimal q
      → get t.job_id q.jobs ≡ some j
      → j.status ≡ processing
  held-processing q before after t j e c h =
      let self : text_beq t.job_id t.job_id ≡ true = (text_beq_iff t.job_id t.job_id).1 refl in
      let w = rw (e, h, count-middle t.job_id before after t) at (c.running t.job_id) in
      (processing_of j.status (count t.job_id (before ++ after)) (ground (arith, w, self))).2

  -- Along every step of a reachable queue each job stays, and its status goes only from pending to
  -- processing and from there to done or failed: a job that has ended is never written again.
  pub Step-Next :
      (workers : ℕ) (q r : Queue) (k : Text) (j : Job)
      → Reachable decimal workers q
      → Step decimal q r
      → get k q.jobs ≡ some j
      → (j' : Job) × (get k r.jobs ≡ some j') × Next j j'
  unfolding submit start_process set_status end_process
  Step-Next workers q _ k j reached (submitted filename path by now) h =
      let c = reachable-IsConsistent decimal separates workers q reached in
      (
        j,
        sent_or_put (job_name decimal (q.counter + 1)) k _ j q.jobs
            (c.fresh (q.counter + 1) (omega arith)) h,
        kept,
      )
  Step-Next workers q _ k j reached (sent before after t e _) h = (j, h, kept)
  Step-Next workers q _ k j reached (started t rest e _) h =
      let c = reachable-IsConsistent decimal separates workers q reached in
      update-Next t.job_id k (λ i. record i { status = processing })
        (record q { channel = rest; running = t ∷ q.running }) j
        (λ i own. begun (head-pending q t rest i e c own)) h
  Step-Next workers q _ k j reached (finished before after t r now e) h =
      let c = reachable-IsConsistent decimal separates workers q reached in
      update-Next t.job_id k (ended r now) (record q { running = before ++ after }) j
        (λ i own. over r now (held-processing q before after t i e c own)) h
