-- ===== src/Tokenizer/Pieces.antt =====
-- The pieces of a compound match, and the stop words, without the code that splits and looks up.
use telemetry_search_engine.Common.{
  ◌≡◌, ◌↔◌, ◌≢◌, refl, ap, ◌∙◌, sym, ◌⊎◌, inl, inr, true, false, ◌&&◌, ◌||◌, List, [], ◌∷◌, ◌++◌,
  Text, codes, contains, text_eq, text_beq, text_beq_iff, All, All-contains, contains-append,
  to_lower, arith, Bool-cases, ℕ,
}
use mathlib.Core.List.{append_assoc, append-nil}
use telemetry_search_engine.Tokenizer.{
  is_separator, split_run, has_separator, stop_words, terms_of, find_all, tokenize,
}
use telemetry_search_engine.Tokenizer.Terms.{terms, is_kept, contains-tokenize}

-- The text is empty or begins with a hyphen or a dot.
abbrev pub IsCut : Text → Type 0
IsCut [] = Unit
IsCut (c ∷ s) = is_separator c ≡ true

-- `t` stands at the front of a text, up to a hyphen, a dot or the end, and holds neither.
abbrev pub Leads : Text → Text → Type 0
Leads s t = (b : Text) × (s ≡ t ++ b) × (has_separator t ≡ false) × IsCut b

-- Or it stands so right behind a hyphen or a dot.
abbrev pub Follows : Text → Text → Type 0
Follows s t =
    (a : Text) × (d : ℕ) × (rest : Text) × (s ≡ a ++ d ∷ rest)
    × (is_separator d ≡ true)
    × Leads rest t

-- A piece of a match: what stands between hyphens, dots and its ends.
abbrev pub IsPiece : Text → Text → Type 0
IsPiece m t = Leads m t ⊎ Follows m t

later : (c : ℕ) (s t : Text) → Follows s t → Follows (c ∷ s) t
later c s t (a, d, rest, e, sep, leads) = (c ∷ a, d, rest, ap (◌∷◌ c) e, sep, leads)

behind : (c : ℕ) (s t : Text) → is_separator c ≡ true → IsPiece s t → Follows (c ∷ s) t
behind c s t sep (inl leads) = ([], c, s, refl, sep, leads)
behind c s t sep (inr follows) = later c s t follows

-- Either the open piece `cur` goes on to be `t`, or `t` comes behind.
abbrev Grows : Text → Text → Text → Type 0
Grows cur s t = ((p : Text) × (t ≡ cur ++ p) × Leads s p) ⊎ Follows s t

contains-cons :
    (x : Text) (xs : List Text) (t : Text)
    → contains (x ∷ xs) t ≡ true
    → (x ≡ t) ⊎ (contains xs t ≡ true)
unfolding contains
contains-cons x xs t h = elim (Bool-cases (text_beq x t)) [
  | inl e ↦ inl ((text_beq_iff x t).0 e)
  | inr e ↦ inr (rw e at h)
]

contains-more :
    (x : Text) (xs : List Text) (t : Text) → contains xs t ≡ true → contains (x ∷ xs) t ≡ true
unfolding contains
contains-more x xs t h = ground arith

contains-here : (x : Text) (xs : List Text) → contains (x ∷ xs) x ≡ true
unfolding contains
contains-here x xs = rw ((text_beq_iff x x).1 refl) refl

-- What splitRegex gives, but for an empty text, is a piece.
split_run_sound :
    (s t : Text)
    → t ≢ []
    → ((cur : Text) → contains (split_run false cur s) t ≡ true → Grows cur s t)
      × (contains (split_run true [] s) t ≡ true → IsPiece s t)
unfolding split_run has_separator contains
split_run_sound [] t some =
    (λ cur h. at_end cur (contains-cons cur [] t h), λ h. over (contains-cons [] [] t h))
  where
    at_end : (cur : Text) → (cur ≡ t) ⊎ (false ≡ true) → Grows cur [] t
    at_end cur (inl e) = inl ([], sym e ∙ sym (append-nil cur), ([], refl, refl, tt))
    at_end cur (inr e) = cc

    over : ([] ≡ t) ⊎ (false ≡ true) → IsPiece [] t
    over (inl e) = absurd (some (sym e))
    over (inr e) = cc
split_run_sound (c ∷ s) t some =
    let (grows, piece) = split_run_sound s t some in
    elim (Bool-cases (is_separator c)) [
      | inl sep ↦ (
        λ cur h. elim (contains-cons cur (split_run true [] s) t (rw sep at h)) [
          | inl e ↦ inl ([], sym e ∙ sym (append-nil cur), (c ∷ s, refl, refl, sep))
          | inr e ↦ inr (behind c s t sep (piece e))
        ],
        λ h. inr (behind c s t sep (piece (rw sep at h))),
      )
      | inr word ↦ (
        λ cur h. elim (grows (cur ++ c ∷ []) (rw word at h)) [
          | inl (p, e, (b, e', free, cut)) ↦ inl (
            c ∷ p,
            e ∙ append_assoc cur (c ∷ []) p,
            (b, ap (◌∷◌ c) e', rw (word, free) refl, cut),
          )
          | inr follows ↦ inr (later c s t follows)
        ],
        λ h. elim (grows (c ∷ []) (rw word at h)) [
          | inl (p, e, (b, e', free, cut)) ↦
              inl
                (b, ap (◌∷◌ c) e' ∙ ap (λ (x : Text). x ++ b) (sym e), rw (e, word, free) refl, cut)
          | inr follows ↦ inr (later c s t follows)
        ],
      )
    ]

has_separator-append : (a b : Text) → has_separator (a ++ b) ≡ (has_separator a || has_separator b)
unfolding has_separator
has_separator-append [] b = refl
has_separator-append (c ∷ a) b = ground (arith, has_separator-append a b)

-- The open piece is closed with the letters that are left of it.
contains-split_run_leads :
    (cur p b : Text)
    → has_separator p ≡ false
    → IsCut b
    → contains (split_run false cur (p ++ b)) (cur ++ p) ≡ true
unfolding split_run has_separator contains
contains-split_run_leads cur [] [] free cut =
    rw (append-nil cur, (text_beq_iff cur cur).1 refl) refl
contains-split_run_leads cur [] (d ∷ b) free cut =
    rw (append-nil cur, cut, (text_beq_iff cur cur).1 refl) refl
contains-split_run_leads cur (c ∷ p) b free cut =
    let word : is_separator c ≡ false = ground arith in
    let rest : has_separator p ≡ false = ground arith in
    rw (word, ← append_assoc cur (c ∷ []) p) (contains-split_run_leads (cur ++ c ∷ []) p b rest cut)

-- Every piece that begins behind a separator is given.
contains-split_run_follows :
    (a : Text) (d : ℕ) (p b : Text)
    → p ≢ []
    → is_separator d ≡ true
    → has_separator p ≡ false
    → IsCut b
    → ((cur : Text) → contains (split_run false cur (a ++ d ∷ (p ++ b))) p ≡ true)
      × (contains (split_run true [] (a ++ d ∷ (p ++ b))) p ≡ true)
unfolding split_run has_separator contains
contains-split_run_follows [] d [] b some sep free cut = absurd (some refl)
contains-split_run_follows [] d (c ∷ p) b some sep free cut =
    let word : is_separator c ≡ false = ground arith in
    let rest : has_separator p ≡ false = ground arith in
    let given = contains-split_run_leads (c ∷ []) p b rest cut in
    (λ cur. rw (sep, word) (contains-more cur _ (c ∷ p) given), rw (sep, word) given)
contains-split_run_follows (c ∷ a) d p b some sep free cut =
    let (opened, skipped) = contains-split_run_follows a d p b some sep free cut in
    elim (Bool-cases (is_separator c)) [
      | inl e ↦ (λ cur. rw e (contains-more cur _ p skipped), rw e skipped)
      | inr e ↦ (λ cur. rw e (opened (cur ++ c ∷ [])), rw e (opened (c ∷ [])))
    ]

uncut : (t b : Text) → IsCut b → has_separator (t ++ b) ≡ false → b ≡ []
unfolding has_separator
uncut t [] cut h = refl
uncut t (d ∷ b) cut h = absurd (ground (arith, has_separator-append t (d ∷ b)))

-- A match without a hyphen and a dot has no piece but itself.
whole_piece : (m t : Text) → has_separator m ≡ false → IsPiece m t → t ≡ m
unfolding has_separator
whole_piece m t whole (inl (b, e, free, cut)) =
    let none_left : b ≡ [] = uncut t b cut (rw e at whole) in
    sym (e ∙ ap (λ x. t ++ x) none_left ∙ append-nil t)
whole_piece m t whole (inr (a, d, rest, e, sep, leads)) = absurd (
    let apart : has_separator (a ++ d ∷ rest) ≡ false = rw e at whole in
    ground (arith, has_separator-append a (d ∷ rest)))

-- The terms of a match, but for an empty text, are the match and its pieces.
terms_of_exact : (m t : Text) → t ≢ [] → (contains (terms_of m) t ≡ true) ↔ ((t ≡ m) ⊎ IsPiece m t)
unfolding terms_of
terms_of_exact m t some = elim (Bool-cases (has_separator m)) [
  | inl sep ↦ (
    λ h. elim (contains-cons m (split_run false [] m) t (rw sep at h)) [
      | inl e ↦ inl (sym e)
      | inr e ↦ elim ((split_run_sound m t some).0 [] e) [
        | inl (p, same, leads) ↦ inr (inl (rw same leads))
        | inr follows ↦ inr (inr follows)
      ]
    ],
    λ h. rw sep (elim h [
      | inl e ↦ rw e (contains-here m _)
      | inr piece ↦ contains-more m _ t (given piece)
    ]),
  )
  | inr whole ↦ (
    λ h. elim (contains-cons m [] t (rw whole at h)) [
      | inl e ↦ inl (sym e)
      | inr e ↦ absurd (unfold contains in cc)
    ],
    λ h. rw whole (elim h [
      | inl e ↦ rw e (contains-here m [])
      | inr piece ↦ rw (whole_piece m t whole piece) (contains-here m [])
    ]),
  )
]
  where
    given : IsPiece m t → contains (split_run false [] m) t ≡ true
    given (inl (b, e, free, cut)) = rw e (contains-split_run_leads [] t b free cut)
    given (inr (a, d, rest, e, sep, (b, e', free, cut))) =
        rw (e, e') ((contains-split_run_follows a d t b some sep free cut).0 [])

-- The stop words, in alphabetical order.
abbrev pub stopped : List Text
stopped =
    codes "a"
    ∷ codes "an"
    ∷ codes "and"
    ∷ codes "at"
    ∷ codes "by"
    ∷ codes "for"
    ∷ codes "from"
    ∷ codes "in"
    ∷ codes "is"
    ∷ codes "of"
    ∷ codes "on"
    ∷ codes "or"
    ∷ codes "the"
    ∷ codes "to"
    ∷ codes "with"
    ∷ []

all_stopped : All (λ w. contains stopped w ≡ true) stop_words
unfolding contains text_beq
all_stopped = (
  refl,
  (
    refl,
    (
      refl,
      (
        refl,
        (refl, (refl, (refl, (refl, (refl, (refl, (refl, (refl, (refl, (refl, (refl, tt))))))))))),
      ),
    ),
  ),
)

all_stop_words : All (λ w. contains stop_words w ≡ true) stopped
unfolding contains text_beq
all_stop_words = (
  refl,
  (
    refl,
    (
      refl,
      (
        refl,
        (refl, (refl, (refl, (refl, (refl, (refl, (refl, (refl, (refl, (refl, (refl, tt))))))))))),
      ),
    ),
  ),
)

contains-stop_words : (t : Text) → contains stop_words t ≡ contains stopped t
contains-stop_words t = ground (
  arith,
  All-contains (λ w. contains stopped w ≡ true) stop_words t all_stopped,
  All-contains (λ w. contains stop_words w ≡ true) stopped t all_stop_words,
)

contains-terms :
    (raw : List Text) (t : Text)
    → (contains (terms raw) t ≡ true)
      ↔ ((m : Text) × (contains raw m ≡ true) × (contains (terms_of m) t ≡ true))
unfolding contains
contains-terms [] t = (λ h. cc, λ (m, h, k). cc)
contains-terms (tok ∷ raw) t = (
  λ h. elim (Bool-cases (contains (terms_of tok) t)) [
    | inl e ↦ (tok, rw ((text_beq_iff tok tok).1 refl) refl, e)
    | inr e ↦
        let (m, listed, given) =
          (contains-terms raw t).0 (ground (arith, contains-append (terms_of tok) (terms raw) t)) in
        (m, contains-more tok raw m listed, given)
  ],
  λ (m, listed, given). elim (contains-cons tok raw m listed) [
    | inl e ↦ rw (contains-append (terms_of tok) (terms raw) t, e, given) refl
    | inr e ↦
        let rest = (contains-terms raw t).1 (m, e, given) in
        ground (arith, contains-append (terms_of tok) (terms raw) t)
  ],
)

kept_exact : (t : Text) → (is_kept t ≡ true) ↔ ((t ≢ []) × (contains stopped t ≡ false))
kept_exact [] = (λ h. cc, λ (some, free). absurd (some refl))
kept_exact (c ∷ s) = (
  λ h. ((λ e. cc), ground (arith, contains-stop_words (c ∷ s))),
  λ (some, free). ground (arith, contains-stop_words (c ∷ s)),
)

-- A text is among the tokens exactly when it is not empty, not one of the fifteen stop words, and a
-- match or a piece of one: a stretch of it between hyphens, dots and its ends that holds neither.
pub tokenize_exact :
    (unicode : Text → Text) (text t : Text)
    → (contains (tokenize unicode text) t ≡ true) ↔ (
        (t ≢ [])
        × (contains stopped t ≡ false)
        × ((m : Text) × (contains (find_all 0 (to_lower unicode text)) m ≡ true)
            × ((t ≡ m) ⊎ IsPiece m t)))
tokenize_exact unicode text t =
    let raw = find_all 0 (to_lower unicode text) in
    (
      λ h.
          let both : (is_kept t && contains (terms raw) t) ≡ true =
            rw (contains-tokenize unicode text t) at h in
          let (some, free) = (kept_exact t).0 (ground arith) in
          let (m, found, given) = (contains-terms raw t).0 (ground arith) in
          (some, free, (m, found, (terms_of_exact m t some).0 given)),
      λ (some, free, (m, found, is)).
          let kept = (kept_exact t).1 (some, free) in
          let given = (contains-terms raw t).1 (m, found, (terms_of_exact m t some).1 is) in
          rw (contains-tokenize unicode text t, kept, given) refl,
    )
