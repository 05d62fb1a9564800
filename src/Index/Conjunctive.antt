-- ===== src/Index/Conjunctive.antt =====
-- Documents that have every token of the query: no turn of wandBM25's loop loses one while the heap
-- has room, since every cursor has it ahead until it is scored.
use telemetry_search_engine.Common.{
  ℕ, ◌≤◌, ◌<◌, ◌≡◌, List, [], ◌∷◌, nat_eq, text_eq, Bool, true, false, ◌||◌, ltb, eqb, All, arith,
  Bool-cases, inl, inr,
}
use telemetry_search_engine.Index.{PostingEntry}
use telemetry_search_engine.Index.Cursor.{Cursor, valid, cursor_doc, advance, next}
use telemetry_search_engine.Index.Seek.{IsAscending}
use telemetry_search_engine.Index.Below.{drop_below}
use telemetry_search_engine.Index.Remaining.{
  ahead, IsGood, at_entry, at_end, stands, ahead-advance, ahead-next,
}

-- Whether a document is among some postings.
unfoldable pub lists_doc : ℕ → List PostingEntry → Bool
lists_doc d [] = false
lists_doc d (e ∷ es) = eqb e.doc_id d || lists_doc d es

lists_doc-drop_below :
    (d target : ℕ) (es : List PostingEntry)
    → target ≤ d
    → lists_doc d es ≡ true
    → lists_doc d (drop_below target es) ≡ true
unfolding lists_doc drop_below
lists_doc-drop_below d target [] h l = l
lists_doc-drop_below d target (e ∷ es) h l = ground (arith, lists_doc-drop_below d target es h)

pub All-drop_below :
    (P : PostingEntry → Type 0) (target : ℕ) (es : List PostingEntry)
    → All P es
    → All P (drop_below target es)
unfolding drop_below
All-drop_below P target [] h = tt
All-drop_below P target (e ∷ es) (p, h) = elim (Bool-cases (ltb e.doc_id target)) [
  | inl b ↦ rw b (All-drop_below P target es h)
  | inr b ↦ rw b (p, h)
]

pub drop_below-IsAscending :
    (target : ℕ) (es : List PostingEntry) → IsAscending es → IsAscending (drop_below target es)
unfolding drop_below
drop_below-IsAscending target [] h = tt
drop_below-IsAscending target (e ∷ es) (p, h) = elim (Bool-cases (ltb e.doc_id target)) [
  | inl b ↦ rw b (drop_below-IsAscending target es h)
  | inr b ↦ rw b (p, h)
]

-- The first of ascending postings is not past a document that they list.
first-le :
    (d : ℕ) (es : List PostingEntry) (low : ℕ)
    → All (λ (x : PostingEntry). low < x.doc_id) es
    → lists_doc d es ≡ true
    → low < d
unfolding lists_doc
first-le d [] low a l = cc
first-le d (e ∷ es) low (p, a) l = ground (arith, first-le d es low a)

module _ {F : Type 0} (d : ℕ) where
  -- A cursor that has the document ahead, on postings that ascend.
  pub record Awaits (c : Cursor F) : Type 0 where
    pub good : IsGood c
    pub ordered : IsAscending (ahead c)
    pub listed : lists_doc d (ahead c) ≡ true

  -- Such a cursor is valid, and stands at the document or before it.
  pub Awaits-valid : (c : Cursor F) → Awaits c → (valid c ≡ true) × (cursor_doc c ≤ d)
  unfolding lists_doc
  Awaits-valid c a = elim (stands c a.good) [
    | at_entry e es h at v ↦
        let l : lists_doc d (e ∷ es) ≡ true = rw h at a.listed in
        let o : IsAscending (e ∷ es) = rw h at a.ordered in
        (
          v,
          elim (Bool-cases (eqb e.doc_id d)) [
            | inl q ↦ ground arith
            | inr q ↦ omega (arith, first-le d es e.doc_id o.0 (rw q at l))
          ],
        )
    | at_end h v ↦ absurd (let f : false ≡ true = rw h at a.listed in cc)
  ]

  -- Moves that do not pass the document.
  pub advance-Awaits :
      (target : ℕ) (c : Cursor F)
      → target ≤ d
      → cursor_doc c ≤ target
      → Awaits c
      → Awaits (advance target c)
  advance-Awaits target c le at a =
      let (g, same) = ahead-advance target c a.good at in
      record {
        good = g;
        ordered = rw same (drop_below-IsAscending target (ahead c) a.ordered);
        listed = rw same (lists_doc-drop_below d target (ahead c) le a.listed);
      }

  pub next-Awaits : (c : Cursor F) → cursor_doc c < d → Awaits c → Awaits (next c)
  unfolding lists_doc
  next-Awaits c lt a = elim (stands c a.good) [
    | at_entry e es h at v ↦
        let (g, same) = ahead-next c e es a.good h in
        let l : lists_doc d (e ∷ es) ≡ true = rw h at a.listed in
        let o : IsAscending (e ∷ es) = rw h at a.ordered in
        record { good = g; ordered = rw same o.1; listed = rw same (ground arith) }
    | at_end h v ↦ absurd (let f : false ≡ true = rw h at a.listed in cc)
  ]
