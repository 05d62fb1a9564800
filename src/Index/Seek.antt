-- ===== src/Index/Seek.antt =====
-- sort.Search, and where the cursor's advance lands.
use telemetry_search_engine.Common.{
  ℕ, zero, suc, ◌+◌, ◌-◌, ◌/◌, ◌≤◌, ◌<◌, ◌≡◌, refl, List, [], ◌∷◌, some, Bool, true, false, length,
  get_elem?, ltb, leb, All, arith, Bool-cases, inl, inr,
}
use telemetry_search_engine.Index.{PostingEntry}
use telemetry_search_engine.Index.Cursor.{search_between, sort_search, doc_id_of, seek_in}

-- `r` is a place up to `n` where the test turns from false to true.
abbrev pub IsTurn : ℕ → (ℕ → Bool) → ℕ → Type 0
IsTurn n f r = (r ≤ n) × (r < n → f r ≡ true) × ((k : ℕ) → suc k ≡ r → f k ≡ false)

search_between-IsTurn :
    (fuel i j n : ℕ) (f : ℕ → Bool)
    → i ≤ j
    → j ≤ n
    → j - i ≤ fuel
    → (j < n → f j ≡ true)
    → ((k : ℕ) → suc k ≡ i → f k ≡ false)
    → IsTurn n f (search_between fuel i j f)
unfolding search_between
search_between-IsTurn zero i j n f p q r up low =
    let same : j ≡ i = omega arith in (omega arith, (λ h. rw same at (up (omega arith))), low)
search_between-IsTurn (suc fuel) i j n f p q r up low = elim (Bool-cases (ltb i j)) [
  | inr e ↦
      let same : j ≡ i = ground arith in
      rw e (omega arith, (λ h. rw same at (up (omega arith))), low)
  | inl e ↦
      let lt : i < j = ground arith in
      rw e (elim (Bool-cases (f ((i + j) / 2))) [
        | inl t ↦ rw t (
            search_between-IsTurn fuel i ((i + j) / 2) n f (omega arith) (omega arith) (omega arith)
              (λ _. t) low)
        | inr t ↦ rw t (
            search_between-IsTurn fuel ((i + j) / 2 + 1) j n f (omega arith) (omega arith)
              (omega arith) up (λ k h. let same : (i + j) / 2 ≡ k = omega arith in rw same at t))
      ])
]

-- sort.Search returns such a place, whatever the test.
pub sort_search-IsTurn : (n : ℕ) (f : ℕ → Bool) → IsTurn n f (sort_search n f)
unfolding sort_search
sort_search-IsTurn n f =
    search_between-IsTurn n 0 n n f (omega arith) (omega arith) (omega arith)
      (λ h. absurd (omega arith)) (λ k h. absurd (omega arith))

abbrev pub IsAscending : List PostingEntry → Type 0
IsAscending [] = Unit
IsAscending (e ∷ es) = All (λ (d : PostingEntry). e.doc_id < d.doc_id) es × IsAscending es

All-at :
    (P : PostingEntry → Type 0) (es : List PostingEntry) (i : ℕ)
    → All P es
    → i < length es
    → (e : PostingEntry) × (get_elem? es i ≡ some e) × P e
All-at P [] i h l = absurd (omega arith)
All-at P (e ∷ es) zero (p, h) l = (e, refl, p)
All-at P (e ∷ es) (suc i) (p, h) l = All-at P es i h (omega arith)

pub ascending-lt :
    (es : List PostingEntry) (i j : ℕ)
    → IsAscending es
    → i < j
    → j < length es
    → doc_id_of (get_elem? es i) < doc_id_of (get_elem? es j)
ascending-lt [] i j h p q = absurd (omega arith)
ascending-lt (e ∷ es) i zero h p q = absurd (omega arith)
ascending-lt (e ∷ es) zero (suc j) (h, _) p q =
    let (d, at, lt) = All-at (λ (d : PostingEntry). e.doc_id < d.doc_id) es j h (omega arith) in
    rw at lt
ascending-lt (e ∷ es) (suc i) (suc j) (_, h) p q = ascending-lt es i j h (omega arith) (omega arith)

-- The search in one block finds the first entry that is not below the target.
pub seek_in_lem :
    (es : List PostingEntry) (target : ℕ)
    → IsAscending es
    → let r = seek_in es target in
      (r ≤ length es)
      × ((i : ℕ) → i < r → doc_id_of (get_elem? es i) < target)
      × ((i : ℕ) → r ≤ i → i < length es → target ≤ doc_id_of (get_elem? es i))
seek_in_lem es target asc =
    let f = λ (i : ℕ). leb target (doc_id_of (get_elem? es i)) in
    let (le, up, low) = sort_search-IsTurn (length es) f in
    let r = sort_search (length es) f in
    (le, (λ i h. below r low le i h), (λ i p q. above r up i p q))
  where
    below :
        (r : ℕ)
        → ((k : ℕ) → suc k ≡ r → leb target (doc_id_of (get_elem? es k)) ≡ false)
        → r ≤ length es
        → (i : ℕ) → i < r
        → doc_id_of (get_elem? es i) < target
    below zero low le i h = absurd (omega arith)
    below (suc k) low le i h = ground (arith, low k refl, ascending-lt es i k asc)

    above :
        (r : ℕ)
        → (r < length es → leb target (doc_id_of (get_elem? es r)) ≡ true)
        → (i : ℕ) → r ≤ i
        → i < length es
        → target ≤ doc_id_of (get_elem? es i)
    above r up i p q = ground (arith, up (omega arith), ascending-lt es r i asc)
