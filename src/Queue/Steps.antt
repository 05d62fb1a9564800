-- ===== src/Queue/Steps.antt =====
-- The jobs along the steps of the queue: each is in one place.
use telemetry_search_engine.Common.{
  ℕ, ◌+◌, ◌<◌, ◌≡◌, refl, ◌∙◌, sym, List, [], ◌∷◌, ◌++◌, Text, Option, none, some, get, get-put,
  text_eq, text_beq, text_beq_iff, true, false, if◌then◌else◌, arith, Bool-cases, Option-cases, inl,
  inr,
}
use mathlib.Core.Option
use telemetry_search_engine.Queue.{
  Status, pending, processing, done, failed, Job, Task, Queue, Reading, read, unreadable, new_queue,
  new_job, update, set_status, ended, start_process, end_process, job_name, submit, Step, submitted,
  sent, started, finished, Reachable, start, step,
}

unfoldable pub count : Text → List Task → ℕ
count id [] = 0
count id (t ∷ ts) = let rest = count id ts in if text_beq t.job_id id then rest + 1 else rest

count-append : (id : Text) (xs ys : List Task) → count id (xs ++ ys) ≡ count id xs + count id ys
unfolding count
count-append id [] ys = omega arith
count-append id (t ∷ xs) ys = ground (arith, count-append id xs ys)

pub count-middle :
    (id : Text) (xs ys : List Task) (t : Task)
    → count id (xs ++ t ∷ ys)
      ≡ (if text_beq t.job_id id then count id (xs ++ ys) + 1 else count id (xs ++ ys))
count-middle id xs ys t =
    unfold count in ground (arith, count-append id xs (t ∷ ys), count-append id xs ys)

count-concat :
    (id : Text) (xs : List Task) (t : Task)
    → count id (xs ++ t ∷ []) ≡ (if text_beq t.job_id id then count id xs + 1 else count id xs)
unfolding count
count-concat id [] t = ground arith
count-concat id (x ∷ xs) t = ground (arith, count-concat id xs t)

-- How many tasks wait for a worker, and how many are with one, for a job.
abbrev pub waits : Status → ℕ
waits pending = 1
waits _ = 0

abbrev pub runs : Status → ℕ
runs processing = 1
runs _ = 0

abbrev pub waiting_of : Option Job → ℕ
waiting_of none = 0
waiting_of (some j) = waits j.status

abbrev pub running_of : Option Job → ℕ
running_of none = 0
running_of (some j) = runs j.status

pub get-update :
    (id k : Text) (f : Job → Job) (q : Queue)
    → get k (update id f q).jobs
      ≡ (if text_beq id k then Option.map f (get id q.jobs) else get k q.jobs)
unfolding update
get-update id k f q = elim (Option-cases (get id q.jobs)) [
  | inl e ↦ rw e (elim (Bool-cases (text_beq id k)) [
    | inl h ↦ let same : id ≡ k = (text_beq_iff id k).0 h in rw (h, ← same, e)
    | inr h ↦ rw h
  ])
  | inr (j, e) ↦ rw (e, get-put id k (f j) q.jobs)
]

update-none :
    (id k : Text) (f : Job → Job) (q : Queue)
    → get k q.jobs ≡ none
    → get k (update id f q).jobs ≡ none
update-none id k f q h = rw (get-update id k f q) (elim (Bool-cases (text_beq id k)) [
  | inl e ↦ let same : id ≡ k = (text_beq_iff id k).0 e in rw (e, same, h)
  | inr e ↦ rw e h
])

-- A job with a waiting task is pending, and has that task only.
pub pending_of : (s : Status) (n : ℕ) → n + 1 ≡ waits s → (n ≡ 0) × (runs s ≡ 0) × (s ≡ pending)
pending_of pending n h = (omega arith, refl, refl)
pending_of processing n h = absurd (omega arith)
pending_of done n h = absurd (omega arith)
pending_of failed n h = absurd (omega arith)

pub is_waiting :
    (o : Option Job) (n : ℕ)
    → n + 1 ≡ waiting_of o
    → (j : Job) × (o ≡ some j) × (n ≡ 0) × (runs j.status ≡ 0) × (j.status ≡ pending)
is_waiting none n h = absurd (omega arith)
is_waiting (some j) n h = let (a, b, c) = pending_of j.status n h in (j, refl, a, b, c)

-- A job with a running task is in processing, and has that task only.
pub processing_of :
    (s : Status) (n : ℕ) → n + 1 ≡ runs s → (n ≡ 0) × (waits s ≡ 0) × (s ≡ processing)
processing_of pending n h = absurd (omega arith)
processing_of processing n h = (omega arith, refl, refl)
processing_of done n h = absurd (omega arith)
processing_of failed n h = absurd (omega arith)

pub is_running :
    (o : Option Job) (n : ℕ)
    → n + 1 ≡ running_of o
    → (j : Job) × (o ≡ some j) × (n ≡ 0) × (waits j.status ≡ 0) × (j.status ≡ processing)
is_running none n h = absurd (omega arith)
is_running (some j) n h = let (a, b, c) = processing_of j.status n h in (j, refl, a, b, c)

ended-rests :
    (r : Reading) (now : ℕ) (j : Job)
    → (waits (ended r now j).status ≡ 0) × (runs (ended r now j).status ≡ 0)
ended-rests (read n) now j = (refl, refl)
ended-rests (unreadable e) now j = (refl, refl)

module _ (decimal : ℕ → Text) where
  -- A job that is pending has one task, which waits at or in the channel; a job in processing has
  -- one, with a worker; a job that has ended has none, nor has a key without a job. No identifier
  -- past the counter is taken.
  pub record IsConsistent (q : Queue) : Type 0 where
    pub waiting : (id : Text) → count id q.sending + count id q.channel ≡ waiting_of (get id q.jobs)
    pub running : (id : Text) → count id q.running ≡ running_of (get id q.jobs)
    pub fresh : (n : ℕ) → q.counter < n → get (job_name decimal n) q.jobs ≡ none

  new_queue-IsConsistent : (n : ℕ) → IsConsistent (new_queue n)
  unfolding new_queue get count
  new_queue-IsConsistent n = record {
    waiting = λ id. refl;
    running = λ id. refl;
    fresh = λ k h. refl;
  }

  -- The documented behaviour of %d: two numbers are not written alike.
  abbrev pub Separates : Type 0
  Separates = (m n : ℕ) → job_name decimal m ≡ job_name decimal n → m ≡ n

  module _ (separates : Separates) where
    submit-IsConsistent :
        (filename path by : Text) (now : ℕ) (q : Queue)
        → IsConsistent q
        → IsConsistent (submit decimal filename path by now q).1
    unfolding submit
    submit-IsConsistent filename path by now q c =
        let id = job_name decimal (q.counter + 1) in
        let j = new_job id filename by now in
        let t : Task = record { job_id = id; file_path = path } in
        let free = c.fresh (q.counter + 1) (omega arith) in
        let taken = λ (k : Text) (e : text_beq id k ≡ true).
          (let same : id ≡ k = (text_beq_iff id k).0 e in
            let gone : get k q.jobs ≡ none = rw same at free in gone) in
        record {
          waiting = λ k.
              rw (get-put id k j q.jobs, count-concat k q.sending t)
                (elim (Bool-cases (text_beq id k)) [
                  | inl e ↦
                      let before : count k q.sending + count k q.channel ≡ 0 =
                        rw (taken k e) at (c.waiting k) in
                      rw e (omega arith)
                  | inr e ↦ rw e (c.waiting k)
                ]);
          running = λ k. rw (get-put id k j q.jobs) (elim (Bool-cases (text_beq id k)) [
            | inl e ↦
                let before : count k q.running ≡ 0 = rw (taken k e) at (c.running k) in
                rw e (omega arith)
            | inr e ↦ rw e (c.running k)
          ]);
          fresh = λ n h.
              let apart : text_beq id (job_name decimal n) ≡ false =
                ground (arith, text_beq_iff id (job_name decimal n), separates (q.counter + 1) n) in
              rw (get-put id (job_name decimal n) j q.jobs, apart) (c.fresh n (omega arith));
        }

    -- Moving a task from Submit to the channel.
    send-IsConsistent :
        (q : Queue) (before after : List Task) (t : Task)
        → q.sending ≡ before ++ t ∷ after
        → IsConsistent q
        → IsConsistent (record q { sending = before ++ after; channel = q.channel ++ t ∷ [] })
    send-IsConsistent q before after t e c = record {
      waiting = λ k.
          let h = rw (e, count-middle k before after t) at (c.waiting k) in
          rw (count-concat k q.channel t) (ground (arith, h));
      running = c.running;
      fresh = c.fresh;
    }

    start-IsConsistent :
        (q : Queue) (t : Task) (rest : List Task)
        → q.channel ≡ t ∷ rest
        → IsConsistent q
        → IsConsistent (start_process t (record q { channel = rest; running = t ∷ q.running }))
    unfolding start_process set_status
    start-IsConsistent q t rest e c =
        let q' = record q { channel = rest; running = t ∷ q.running } in
        let id = t.job_id in
        let mark = λ (j : Job). record j { status = processing } in
        let self : text_beq id id ≡ true = (text_beq_iff id id).1 refl in
        let head : (k : Text) → count k q.sending + count k (t ∷ rest) ≡ waiting_of (get k q.jobs) =
          (λ k. rw e at (c.waiting k)) in
        let (j, found, none_left, idle, _) =
          is_waiting (get id q.jobs) (count id q.sending + count id rest)
            (unfold count in ground (arith, head id, self)) in
        record {
          waiting = λ k. rw (get-update id k mark q') (elim (Bool-cases (text_beq id k)) [
            | inl d ↦ let same : id ≡ k = (text_beq_iff id k).0 d in rw (d, found, ← same) none_left
            | inr d ↦ rw d (unfold count in ground (arith, head k, d))
          ]);
          running = λ k. rw (get-update id k mark q') (elim (Bool-cases (text_beq id k)) [
            | inl d ↦
                let same : id ≡ k = (text_beq_iff id k).0 d in
                let before : count id q.running ≡ runs j.status = rw found at (c.running id) in
                rw (d, found, ← same) (unfold count in ground (arith, self, before, idle))
            | inr d ↦ rw d (unfold count in ground (arith, c.running k, d))
          ]);
          fresh = λ n h. update-none id (job_name decimal n) mark q' (c.fresh n h);
        }

    end-IsConsistent :
        (q : Queue) (before after : List Task) (t : Task) (r : Reading) (now : ℕ)
        → q.running ≡ before ++ t ∷ after
        → IsConsistent q
        → IsConsistent (end_process t r now (record q { running = before ++ after }))
    unfolding end_process update
    end-IsConsistent q before after t r now e c =
        let q' = record q { running = before ++ after } in
        let id = t.job_id in
        let mark = ended r now in
        let self : text_beq id id ≡ true = (text_beq_iff id id).1 refl in
        let held = λ (k : Text). rw (e, count-middle k before after t) at (c.running k) in
        let (j, found, none_left, idle, _) =
          is_running (get id q.jobs) (count id (before ++ after)) (ground (arith, held id, self)) in
        let (no_wait, no_run) = ended-rests r now j in
        record {
          waiting = λ k. rw (get-update id k mark q') (elim (Bool-cases (text_beq id k)) [
            | inl d ↦
                let same : id ≡ k = (text_beq_iff id k).0 d in
                let was : count id q.sending + count id q.channel ≡ waits j.status =
                  rw found at (c.waiting id) in
                rw (d, found, ← same) (was ∙ idle ∙ sym no_wait)
            | inr d ↦ rw d (c.waiting k)
          ]);
          running = λ k. rw (get-update id k mark q') (elim (Bool-cases (text_beq id k)) [
            | inl d ↦
                let same : id ≡ k = (text_beq_iff id k).0 d in
                rw (d, found, ← same) (none_left ∙ sym no_run)
            | inr d ↦ rw d (ground (arith, held k, d))
          ]);
          fresh = λ n h. update-none id (job_name decimal n) mark q' (c.fresh n h);
        }

    Step-IsConsistent : {q r : Queue} → Step decimal q r → IsConsistent q → IsConsistent r
    Step-IsConsistent {q} (submitted filename path by now) c =
        submit-IsConsistent filename path by now q c
    Step-IsConsistent {q} (sent before after t e _) c = send-IsConsistent q before after t e c
    Step-IsConsistent {q} (started t rest e _) c = start-IsConsistent q t rest e c
    Step-IsConsistent {q} (finished before after t r now e) c =
        end-IsConsistent q before after t r now e c

    -- Whatever the workers do, in any order: a pending job has one task that waits, a job in
    -- processing has one task with a worker, and a job that has ended has none.
    pub reachable-IsConsistent :
        (workers : ℕ) (q : Queue) → Reachable decimal workers q → IsConsistent q
    reachable-IsConsistent workers _ start = new_queue-IsConsistent workers
    reachable-IsConsistent workers _ (step {q} reached s) =
        Step-IsConsistent s (reachable-IsConsistent workers q reached)
