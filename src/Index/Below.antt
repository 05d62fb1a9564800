-- ===== src/Index/Below.antt =====
-- The entries of a list from a target on.
use telemetry_search_engine.Common.{
  ℕ, zero, suc, ◌+◌, ◌≤◌, ◌<◌, ◌≡◌, refl, ap, ◌∙◌, List, [], ◌∷◌, ◌++◌, some, length, get_elem?,
  drop, ltb, if◌then◌else◌, arith,
}
use telemetry_search_engine.Index.{PostingEntry}
use telemetry_search_engine.Index.Cursor.{doc_id_of, last_of}
use telemetry_search_engine.Index.Seek.{IsAscending, ascending-lt}

-- The entries from the first that is not below the target.
unfoldable pub drop_below : ℕ → List PostingEntry → List PostingEntry
drop_below target [] = []
drop_below target (e ∷ es) =
    let rest = drop_below target es in if ltb e.doc_id target then rest else e ∷ es

pub length-drop_below :
    (target : ℕ) (es : List PostingEntry) → length (drop_below target es) ≤ length es
unfolding drop_below
length-drop_below target [] = omega arith
length-drop_below target (e ∷ es) = ground (arith, length-drop_below target es)

-- Entries that are all below the target are dropped.
pub drop_below-append :
    (target : ℕ) (es more : List PostingEntry)
    → ((i : ℕ) → i < length es → doc_id_of (get_elem? es i) < target)
    → drop_below target (es ++ more) ≡ drop_below target more
unfolding drop_below
drop_below-append target [] more h = refl
drop_below-append target (e ∷ es) more h =
    ground (arith, h 0, drop_below-append target es more (λ i p. h (suc i) (omega arith)))

pub drop_below-eq-drop :
    (target r : ℕ) (es more : List PostingEntry)
    → ((i : ℕ) → i < r → doc_id_of (get_elem? es i) < target)
    → r < length es
    → target ≤ doc_id_of (get_elem? es r)
    → drop_below target (es ++ more) ≡ drop r (es ++ more)
unfolding drop_below
drop_below-eq-drop target r [] more h l p = absurd (omega arith)
drop_below-eq-drop target zero (e ∷ es) more h l p = ground arith
drop_below-eq-drop target (suc r) (e ∷ es) more h l p =
    ground (arith, h 0, drop_below-eq-drop target r es more (λ i q. h (suc i) (omega arith)))

-- What stands before a place whose entry is not above the target is dropped in any case.
pub drop_below-drop :
    (target i : ℕ) (es more : List PostingEntry)
    → ((j : ℕ) → j < i → doc_id_of (get_elem? es j) < target)
    → i ≤ length es
    → drop_below target (drop i (es ++ more)) ≡ drop_below target (es ++ more)
unfolding drop_below
drop_below-drop target zero es more h l = refl
drop_below-drop target (suc i) [] more h l = absurd (omega arith)
drop_below-drop target (suc i) (e ∷ es) more h l =
    ground (arith, h 0, drop_below-drop target i es more (λ j q. h (suc j) (omega arith)))

last_of-eq-get_elem? :
    (e : PostingEntry) (es : List PostingEntry) → last_of (e ∷ es) ≡ get_elem? (e ∷ es) (length es)
last_of-eq-get_elem? e [] = refl
last_of-eq-get_elem? e (d ∷ es) = last_of-eq-get_elem? d es

-- A block's last entry bounds all of them.
pub below_last :
    (es : List PostingEntry) (target i : ℕ)
    → IsAscending es
    → doc_id_of (last_of es) < target
    → i < length es
    → doc_id_of (get_elem? es i) < target
below_last [] target i asc l h = absurd (omega arith)
below_last (e ∷ es) target i asc l h =
    ground
      (arith, ap doc_id_of (last_of-eq-get_elem? e es), ascending-lt (e ∷ es) i (length es) asc)

pub drop-append :
    (i : ℕ) (es more : List PostingEntry)
    → i < length es
    → (e : PostingEntry) × (get_elem? es i ≡ some e)
      × (drop i (es ++ more) ≡ e ∷ drop (i + 1) (es ++ more))
drop-append i [] more h = absurd (omega arith)
drop-append zero (e ∷ es) more h = (e, refl, refl)
drop-append (suc i) (e ∷ es) more h =
    let (d, at, same) = drop-append i es more (omega arith) in
    (d, at, same ∙ ap (λ n. d ∷ drop n (e ∷ (es ++ more))) (shift i))
  where
    shift : (i : ℕ) → suc (i + 1) ≡ suc i + 1
    shift i = omega arith

pub drop_all : (es more : List PostingEntry) → drop (length es) (es ++ more) ≡ more
drop_all [] more = refl
drop_all (e ∷ es) more = drop_all es more
