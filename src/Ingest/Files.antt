-- ===== src/Ingest/Files.antt =====
-- What an upload saves and submits, and what a deletion removes.
use telemetry_search_engine.Common.{
  ℕ, take, drop, take-append-drop, sym, ap, ◌+◌, ◌≡◌, ◌≢◌, ◌⊎◌, inl, inr, refl, ◌∙◌, [], ◌∷◌, ◌++◌,
  Text, codes, to_lower, text_beq, text_beq_iff, text_eq, nat_eq, Map, Option, none, some, get, put,
  get-put, is_ascii, lower_byte, is_upper, true, false, ◌||◌, eqb, contains, All, Bool-cases, arith,
}
use telemetry_search_engine.Queue.{pending, Job, submit, get_job, job_name}
use telemetry_search_engine.Ingest.{
  Os, Upload, Answer, Ingest, is_between, is_allowed_filename_char, all_allowed, gitkeep, has_magic,
  ensure_parquet_ext, submit_saved, save_content, handle_upload, handle_delete_file,
}

abbrev pub IsAllowed : ℕ → Type 0
IsAllowed c = is_allowed_filename_char c ≡ true

allowed_no_slash : (c : ℕ) → IsAllowed c → eqb c b'/' ≡ false
unfolding is_allowed_filename_char is_between
allowed_no_slash c h = ground arith

all_allowed-All : (s : Text) → all_allowed s ≡ true → All IsAllowed s × (contains s b'/' ≡ false)
unfolding all_allowed contains
all_allowed-All [] h = (tt, refl)
all_allowed-All (c ∷ s) h = elim (Bool-cases (is_allowed_filename_char c)) [
  | inl e ↦
      let (rest, plain) = all_allowed-All s (ground arith) in
      ((e, rest), rw (allowed_no_slash c e) plain)
  | inr e ↦ absurd (let k : false ≡ true = rw e at h in cc)
]

module _ {D : Type 0} (os : Os D) (unicode : Text → Text) where
  -- If the extension of a name that ends in ".parquet" is ".parquet", a saved file has that
  -- extension up to case, and a name that has it is kept.
  pub ensure_parquet_ext_lem :
      (name : Text)
      → ((s : Text) → os.ext (s ++ codes ".parquet") ≡ codes ".parquet")
      → let saved = ensure_parquet_ext os unicode name in
        (to_lower unicode (os.ext saved) ≡ codes ".parquet")
        × (ensure_parquet_ext os unicode saved ≡ saved)
  unfolding ensure_parquet_ext
  ensure_parquet_ext_lem name law =
      let lower : to_lower unicode (codes ".parquet") ≡ codes ".parquet" =
        unfold to_lower is_ascii lower_byte is_upper in refl in
      elim (Bool-cases (text_beq (to_lower unicode (os.ext name)) (codes ".parquet"))) [
        | inl e ↦
            let same = (text_beq_iff (to_lower unicode (os.ext name)) (codes ".parquet")).0 e in
            (rw e same, rw (e, e) refl)
        | inr e ↦ (
          rw (e, law name) lower,
          rw (e, law name, lower, (text_beq_iff (codes ".parquet") (codes ".parquet")).1 refl) refl,
        )
      ]

module _ {D : Type 0} (os : Os D) (unicode : Text → Text) (upload_dir : Text) where
  -- Whatever name a request gives, a deletion leaves the queue as it is, and the disk but for the
  -- removal of one path: the upload directory joined with a name that is neither empty nor "." nor
  -- .gitkeep, and that has letters, digits, and "-", "_", "." and " " alone, so no slash.
  pub handle_delete_file_contained :
      (param : Text) (st : Ingest D)
      → let after = (handle_delete_file os unicode upload_dir param st).1 in
        let name = os.base param in
        (after ≡ st)
        ⊎ ((after ≡ record st { disk = (os.remove (os.join_path upload_dir name) st.disk).1 })
            × (name ≢ gitkeep)
            × (name ≢ codes ".")
            × (name ≢ [])
            × All IsAllowed name
            × (contains name b'/' ≡ false))
  unfolding handle_delete_file
  handle_delete_file_contained param st =
      let name = os.base param in
      elim (Bool-cases (text_beq name gitkeep || text_beq name (codes ".") || text_beq name [])) [
        | inl e ↦ inl (rw e refl)
        | inr e ↦ elim (Bool-cases (all_allowed name)) [
          | inl a ↦
              let (allowed, plain) = all_allowed-All name a in
              inr (
                rw (e, a) refl,
                (λ same. ground (arith, text_beq_iff name gitkeep)),
                (λ same. ground (arith, text_beq_iff name (codes "."))),
                (λ same. ground (arith, text_beq_iff name [])),
                allowed,
                plain,
              )
          | inr a ↦ inl (rw (e, a) refl)
        ]
      ]

  module _ (decimal : ℕ → Text) where
    abbrev Accepted : Option Upload → Text → ℕ → Ingest D → (ℕ × Answer) × Ingest D → Type 0
    Accepted file username now st (answer, after) =
        (f : Text) × (content : Text) × (file
          ≡ some (record { filename = f; content = some content }))
        × ((rest : Text) × (content ≡ codes "PAR1" ++ rest))
        × (let name = ensure_parquet_ext os unicode (os.base f) in
            let dst = os.join_path upload_dir name in
            let id = job_name decimal (st.queue.counter + 1) in
            (os.save dst content st.disk ≡ (none, after.disk))
            × (after.queue ≡ (submit decimal name dst username now st.queue).1)
            × (get_job id after.queue
                ≡ some (record {
                  id = id;
                  filename = name;
                  status = pending;
                  docs_indexed = 0;
                  docs_total = 0;
                  error = [];
                  started_at = now;
                  finished_at = none;
                  submitted_by = username;
                })))

    abbrev Answered : Option Upload → Text → ℕ → Ingest D → (ℕ × Answer) × Ingest D → Type 0
    Answered file username now st (answer, after) =
        ((answer.0 ≢ 202) × (after.queue ≡ st.queue))
        ⊎ ((answer.0 ≡ 202) × Accepted file username now st (answer, after))

    starts_with_magic :
        (content : Text)
        → has_magic content ≡ true
        → (rest : Text) × (content ≡ codes "PAR1" ++ rest)
    unfolding has_magic
    starts_with_magic content h =
        let same : take 4 content ≡ codes "PAR1" =
          (text_beq_iff (take 4 content) (codes "PAR1")).0 h in
        (drop 4 content, sym (take-append-drop 4 content) ∙ ap (λ t. t ++ drop 4 content) same)

    get_submitted :
        (id : Text) (new : Job) (jobs : Map Text Job) → get id (put id new jobs) ≡ some new
    get_submitted id new jobs =
        get-put id id new jobs
        ∙ (let same : text_beq id id ≡ true = (text_beq_iff id id).1 refl in rw same refl)

    saved_exact :
        (f content username : Text) (now : ℕ) (st : Ingest D) (r : Option Text × D)
        → has_magic content ≡ true
        → let name = ensure_parquet_ext os unicode (os.base f) in
          os.save (os.join_path upload_dir name) content st.disk ≡ r
          → Answered (some (record { filename = f; content = some content })) username now st (
              submit_saved os unicode upload_dir decimal name
                (os.join_path upload_dir name)
                username
                now
                r
                st)
    unfolding submit get_job
    saved_exact f content username now st (some err, disk) magic e =
        inl ((λ h. absurd (omega arith)), refl)
    saved_exact f content username now st (none, disk) magic e = inr (
      refl,
      (
        f,
        content,
        refl,
        starts_with_magic content magic,
        (e, refl, get_submitted (job_name decimal (st.queue.counter + 1)) _ st.queue.jobs),
      ),
    )

    -- An upload is either refused, and the queue stays as it is, or answered with 202: then its
    -- file starts with PAR1, was saved in the upload directory, and has a pending job that names
    -- it.
    pub handle_upload_exact :
        (file : Option Upload) (username : Text) (now : ℕ) (st : Ingest D)
        → let (answer, after) = handle_upload os unicode upload_dir decimal file username now st in
          ((answer.0 ≢ 202) × (after.queue ≡ st.queue))
          ⊎ ((answer.0 ≡ 202) × Accepted file username now st (answer, after))
    unfolding handle_upload
    handle_upload_exact none username now st = inl ((λ h. absurd (omega arith)), refl)
    handle_upload_exact (some file) username now st = by_content file.content
      where
        by_content :
            (o : Option Text)
            → Answered
                (some (record { filename = file.filename; content = o }))
                username
                now
                st
                (save_content os unicode upload_dir decimal file.filename username now o st)
        by_content none = inl ((λ h. absurd (omega arith)), refl)
        by_content (some content) = elim (Bool-cases (has_magic content)) [
          | inl m ↦ rw m (saved_exact file.filename content username now st _ m refl)
          | inr m ↦ rw m (inl ((λ h. absurd (omega arith)), refl))
        ]
