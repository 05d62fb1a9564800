-- ===== src/Index/Distinct.antt =====
-- No document is ranked twice: once a turn of wandBM25's loop has scored a document, every cursor
-- is past it.
use telemetry_search_engine.Common.{
  ℕ, zero, suc, ◌≤◌, ◌<◌, ◌≡◌, sym, ◌∙◌, List, [], ◌∷◌, ◌++◌, map, nat_eq, some, true, false,
  get_elem?, take, drop, All, All-append, All-take, All-drop, All-map, arith, Bool-cases, inl, inr,
  sort_by-All, IsSortedBy, take-IsSortedBy,
}
use telemetry_search_engine.Index.{PostingEntry}
use telemetry_search_engine.Index.Seek.{IsAscending}
use telemetry_search_engine.Index.Cursor.{Cursor, valid, cursor_doc, advance, next}
use telemetry_search_engine.Index.Remaining.{
  ahead, IsGood, at_entry, at_end, stands, ahead-advance, ahead-next,
}
use telemetry_search_engine.Index.Active.{IsActive, keep_valid-All}
use telemetry_search_engine.Index.Conjunctive.{All-drop_below, drop_below-IsAscending}
use telemetry_search_engine.Index.Wand.{
  keep_valid, cursor_less, sort_active, all_at, is_at, move_at,
}

module _ {F : Type 0} where
  abbrev pub IsOrdered : Cursor F → Type 0
  IsOrdered c = IsAscending (ahead c)

  -- Every entry that the cursor has ahead is past the document.
  abbrev pub IsPast : ℕ → Cursor F → Type 0
  IsPast d c = All (λ (e : PostingEntry). d < e.doc_id) (ahead c)

  -- A move that keeps the order, and what is past a document.
  pub record Keeps (move : Cursor F → Cursor F) (c : Cursor F) : Type 0 where
    pub ordered : IsOrdered c → IsOrdered (move c)
    pub past : (d : ℕ) → IsPast d c → IsPast d (move c)

  pub advance-Keeps :
      (target : ℕ) (c : Cursor F) → IsGood c → cursor_doc c ≤ target → Keeps (advance target) c
  advance-Keeps target c g le =
      let (_, same) = ahead-advance target c g le in
      record {
        ordered = λ o. rw same (drop_below-IsAscending target (ahead c) o);
        past =
            λ d p. rw same (All-drop_below (λ (e : PostingEntry). d < e.doc_id) target (ahead c) p);
      }

  pub next-Keeps : (c : Cursor F) → IsGood c → valid c ≡ true → Keeps next c
  next-Keeps c g v = elim (stands c g) [
    | at_entry e es a d _ ↦
        let (_, same) = ahead-next c e es g a in
        record {
          ordered = λ o. let o' : IsAscending (e ∷ es) = rw a at o in rw same o'.1;
          past = λ d p.
              let p' : All (λ (x : PostingEntry). d < x.doc_id) (e ∷ es) = rw a at p in
              rw same p'.1;
        }
    | at_end a w ↦ absurd (let f : true ≡ false = sym v ∙ w in cc)
  ]

  -- Both moves of a cursor at `doc` bring it past `doc`, and a cursor further on is past it already.
  beyond :
      (doc : ℕ) (c : Cursor F)
      → IsGood c
      → IsOrdered c
      → valid c ≡ true
      → (doc < cursor_doc c → IsPast doc c) × (cursor_doc c ≡ doc → IsPast doc (next c))
  beyond doc c g o v = elim (stands c g) [
    | at_entry e es a d _ ↦
        let (_, same) = ahead-next c e es g a in
        let o' : IsAscending (e ∷ es) = rw a at o in
        (
          λ l. rw a (
            omega arith,
            All-map
                (λ (x : PostingEntry) (h : e.doc_id < x.doc_id).
                  further doc e.doc_id x (omega arith) h)
                es o'.0,
          ),
          λ at. let z : e.doc_id ≡ doc = cc in rw same (rw z at o'.0),
        )
    | at_end a w ↦ absurd (let f : true ≡ false = sym v ∙ w in cc)
  ]
    where
      further : (a b : ℕ) (x : PostingEntry) → a < b → b < x.doc_id → a < x.doc_id
      further a b x h k = omega arith

  -- With every cursor before the pivot at its document, no cursor is before it.
  pub none_before :
      (cs : List (Cursor F)) (k : ℕ) (c : Cursor F)
      → IsSortedBy cursor_less cs
      → get_elem? cs k ≡ some c
      → all_at (cursor_doc c) (take k cs) ≡ true
      → All (λ x. cursor_doc c ≤ cursor_doc x) cs
  unfolding all_at
  none_before [] k c s at e = cc
  none_before (x ∷ cs) zero c (p, s) at e =
      let same : x ≡ c = cc in
      (
        rw same (omega arith),
        All-map (λ (y : Cursor F) (h : cursor_less y x ≡ false). rw same at (not_less x y h)) cs p,
      )
    where
      not_less : (x y : Cursor F) → cursor_less y x ≡ false → cursor_doc x ≤ cursor_doc y
      not_less x y h = ground arith
  none_before (x ∷ cs) (suc k) c (p, s) at e =
      (ground arith, none_before cs k c s at (ground arith))

  -- What the cursors of a turn keep.
  abbrev pub Preserves : List (Cursor F) → List (Cursor F) → Type 0
  Preserves cs cs' = All IsOrdered cs' × ((d : ℕ) → All (IsPast d) cs → All (IsPast d) cs')

  pub sort_active-Preserves :
      (cs : List (Cursor F)) → All IsOrdered cs → Preserves cs (sort_active cs)
  unfolding sort_active
  sort_active-Preserves cs o = (
    sort_by-All cursor_less IsOrdered (keep_valid cs) (keep_valid-All IsOrdered cs o),
    λ d p. sort_by-All cursor_less (IsPast d) (keep_valid cs) (keep_valid-All (IsPast d) cs p),
  )

  pub move_at-Preserves :
      (doc : ℕ) (move : Cursor F → Cursor F) (cs : List (Cursor F))
      → ((c : Cursor F) → IsGood c → is_at doc c ≡ true → Keeps move c)
      → All IsGood cs
      → All IsOrdered cs
      → Preserves cs (move_at doc move cs)
  unfolding move_at
  move_at-Preserves doc move [] k g o = (tt, λ d p. tt)
  move_at-Preserves doc move (c ∷ cs) k (g, gs) (o, os) =
      let (rest, past) = move_at-Preserves doc move cs k gs os in
      elim (Bool-cases (is_at doc c)) [
        | inl e ↦
            let kept = k c g e in
            rw e ((kept.ordered o, rest), λ d (p, ps). (kept.past d p, past d ps))
        | inr e ↦ rw e ((o, rest), λ d (p, ps). (p, past d ps))
      ]

  -- next at a document that no cursor is before leaves every cursor past it.
  pub move_at-IsPast :
      (doc : ℕ) (cs : List (Cursor F))
      → All IsGood cs
      → All IsOrdered cs
      → All (λ c. valid c ≡ true) cs
      → All (λ c. doc ≤ cursor_doc c) cs
      → All (IsPast doc) (move_at doc next cs)
  unfolding move_at
  move_at-IsPast doc [] g o v l = tt
  move_at-IsPast doc (c ∷ cs) (g, gs) (o, os) (v, vs) (l, ls) =
      let (apart, here) = beyond doc c g o v in
      let rest = move_at-IsPast doc cs gs os vs ls in
      elim (Bool-cases (is_at doc c)) [
        | inl e ↦ rw e (here (ground arith), rest)
        | inr e ↦ rw e (apart (ground arith), rest)
      ]

  advance-Preserves :
      (doc : ℕ) (cs : List (Cursor F))
      → All IsGood cs
      → All IsOrdered cs
      → All (λ c. cursor_doc c ≤ doc) cs
      → Preserves cs (map (advance doc) cs)
  advance-Preserves doc [] g o l = (tt, λ d p. tt)
  advance-Preserves doc (c ∷ cs) (g, gs) (o, os) (l, ls) =
      let kept = advance-Keeps doc c g l in
      let (rest, past) = advance-Preserves doc cs gs os ls in
      ((kept.ordered o, rest), λ d (p, ps). (kept.past d p, past d ps))

  abbrev pub caught_up : List (Cursor F) → ℕ → ℕ → List (Cursor F)
  caught_up cs k doc = map (advance doc) (take k cs) ++ drop k cs

  pub caught_up-Preserves :
      (cs : List (Cursor F)) (k : ℕ) (c : Cursor F)
      → IsActive cs
      → get_elem? cs k ≡ some c
      → All IsOrdered cs
      → Preserves cs (caught_up cs k (cursor_doc c))
  caught_up-Preserves cs k c act at o =
      let doc = cursor_doc c in
      let not_past =
        All-map (λ (x : Cursor F) (h : cursor_less c x ≡ false). not_less x h) (take k cs)
          (take-IsSortedBy cursor_less cs k c act.sorted at) in
      let (front, past) =
        advance-Preserves doc (take k cs) (All-take IsGood k cs act.good)
          (All-take IsOrdered k cs o) not_past in
      let moved = map (advance doc) (take k cs) in
      (
        All-append IsOrdered moved (drop k cs) front (All-drop IsOrdered k cs o),
        λ d p.
            All-append (IsPast d) moved (drop k cs) (past d (All-take (IsPast d) k cs p))
              (All-drop (IsPast d) k cs p),
      )
    where
      not_less : (x : Cursor F) → cursor_less c x ≡ false → cursor_doc x ≤ cursor_doc c
      not_less x h = ground arith
