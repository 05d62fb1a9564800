-- ===== src/Tokenizer/Parts.antt =====
-- The pieces of a compound token, and what the tokenizer makes of its own tokens.
use telemetry_search_engine.Common.{
  ℕ, zero, suc, ◌≡◌, ◌⊎◌, refl, Bool, true, false, List, [], ◌∷◌, ◌++◌, map, Text, All, All-append,
  All-take, All-map, length, arith, inl, inr, Bool-cases, take-length, drop-length, is_ascii,
  is_upper, lower_byte, to_lower, contains, text_eq, All-contains, text_beq_iff,
}
use telemetry_search_engine.Tokenizer.{
  is_word, is_separator, word_end, find_all, split_run, has_separator, terms_of, tokenize,
}
use mathlib.Core.List.{append-nil}
use telemetry_search_engine.Tokenizer.Scan.{
  IsTail, IsMatch, find_all-match, take-word_end-IsTail, word_end-le, IsTail-le-word_end,
}
use telemetry_search_engine.Tokenizer.Terms.{is_kept, terms, contains-tokenize}

abbrev IsWord : ℕ → Type 0
IsWord c = is_word c ≡ true

-- A byte that a token may hold.
abbrev IsInner : ℕ → Type 0
IsInner c = (is_word c ≡ true) ⊎ (is_separator c ≡ true)

IsTail-All : (s : Text) → IsTail s → All IsInner s
IsTail-All [] h = tt
IsTail-All (c ∷ s) (p, h) = (ground arith, IsTail-All s h)

pub find_all-IsMatch : (k : ℕ) (s : Text) → All IsMatch (find_all k s)
unfolding find_all
find_all-IsMatch k [] = tt
find_all-IsMatch (suc k) (c ∷ s) = find_all-IsMatch k s
find_all-IsMatch zero (c ∷ s) = elim (Bool-cases (is_word c)) [
  | inl e ↦ rw e ((e, take-word_end-IsTail s), find_all-IsMatch (word_end s) s)
  | inr e ↦ rw e (find_all-IsMatch 0 s)
]

pub find_all-All : (P : ℕ → Type 0) (k : ℕ) (s : Text) → All P s → All (All P) (find_all k s)
unfolding find_all
find_all-All P k [] h = tt
find_all-All P (suc k) (c ∷ s) h = find_all-All P k s h.1
find_all-All P zero (c ∷ s) (p, h) = elim (Bool-cases (is_word c)) [
  | inl e ↦ rw e ((p, All-take P (word_end s) s h), find_all-All P (word_end s) s h)
  | inr e ↦ rw e (find_all-All P 0 s h)
]

-- What holds of every byte of a token holds of every byte of its pieces.
split_run-All :
    (P : ℕ → Type 0) (b : Bool) (cur s : Text)
    → All P cur
    → All (λ c. P c ⊎ (is_separator c ≡ true)) s
    → All (All P) (split_run b cur s)
unfolding split_run
split_run-All P b cur [] h k = (h, tt)
split_run-All P false cur (c ∷ s) h (p, k) = elim (Bool-cases (is_separator c)) [
  | inl e ↦ rw e (h, split_run-All P true [] s tt k)
  | inr e ↦
      rw e
        (split_run-All P false (cur ++ c ∷ []) s (All-append P cur (c ∷ []) h (ground arith, tt)) k)
]
split_run-All P true cur (c ∷ s) h (p, k) = elim (Bool-cases (is_separator c)) [
  | inl e ↦ rw e (split_run-All P true [] s tt k)
  | inr e ↦ rw e (split_run-All P false (c ∷ []) s (ground arith, tt) k)
]

-- A byte that lower-casing leaves alone.
abbrev pub IsLower : ℕ → Type 0
IsLower c = is_upper c ≡ false

-- The texts that a match or a piece of one can be.
abbrev IsTerm : Text → Type 0
IsTerm t = All IsLower t × ((t ≡ []) ⊎ IsMatch t)

words-IsMatch : (t : Text) → All IsWord t → (t ≡ []) ⊎ IsMatch t
words-IsMatch [] h = inl refl
words-IsMatch (c ∷ s) (p, h) = inr (p, tail s h)
  where
    tail : (s : Text) → All IsWord s → IsTail s
    tail [] h = tt
    tail (c ∷ s) (p, h) = (inl p, tail s h)

pieces-IsTerm : (ts : List Text) → All (All IsLower) ts → All (All IsWord) ts → All IsTerm ts
pieces-IsTerm [] l w = tt
pieces-IsTerm (t ∷ ts) (l, ls) (w, ws) = ((l, words-IsMatch t w), pieces-IsTerm ts ls ws)

IsMatch-All : (t : Text) → IsMatch t → All IsInner t
IsMatch-All [] m = absurd m
IsMatch-All (c ∷ s) (p, h) = (inl p, IsTail-All s h)

terms_of-All : (tok : Text) → All IsLower tok → IsMatch tok → All IsTerm (terms_of tok)
unfolding terms_of
terms_of-All tok l m = (
  (l, inr m),
  elim (Bool-cases (has_separator tok)) [
    | inl e ↦ rw e (
        pieces-IsTerm (split_run false [] tok)
          (split_run-All IsLower false [] tok tt (All-map (λ c h. inl h) tok l))
          (split_run-All IsWord false [] tok tt (IsMatch-All tok m)))
    | inr e ↦ rw e tt
  ],
)

terms-All : (raw : List Text) → All (All IsLower) raw → All IsMatch raw → All IsTerm (terms raw)
terms-All [] ls ms = tt
terms-All (tok ∷ raw) (l, ls) (m, ms) =
    All-append IsTerm (terms_of tok) (terms raw) (terms_of-All tok l m) (terms-All raw ls ms)

-- A match, scanned again, is its own only match.
pub find_all_self : (t : Text) → IsMatch t → find_all 0 t ≡ t ∷ []
find_all_self [] m = absurd m
find_all_self (c ∷ s) (p, h) =
    let same : word_end s ≡ length s =
      omega (arith, word_end-le s, rw append-nil at (IsTail-le-word_end s [] h)) in
    rw (find_all-match c s p, same, take-length s, drop-length s) (unfold find_all in refl)

inner-is_ascii : (t : Text) → All IsInner t → is_ascii t ≡ true
unfolding is_ascii is_word is_separator
inner-is_ascii [] h = refl
inner-is_ascii (c ∷ t) (p, h) = ground (arith, inner-is_ascii t h)

map-lower_byte : (t : Text) → All IsLower t → map lower_byte t ≡ t
unfolding lower_byte
map-lower_byte [] h = refl
map-lower_byte (c ∷ t) (p, h) = rw (p, map-lower_byte t h)

pub to_lower_self :
    (unicode : Text → Text) (t : Text) → All IsLower t → IsMatch t → to_lower unicode t ≡ t
unfolding to_lower
to_lower_self unicode t l m = rw (inner-is_ascii t (IsMatch-All t m)) (map-lower_byte t l)

lower_byte-IsLower : (c : ℕ) → IsLower (lower_byte c)
unfolding lower_byte is_upper
lower_byte-IsLower c = ground arith

pub map-lower_byte-All : (s : Text) → All IsLower (map lower_byte s)
map-lower_byte-All [] = tt
map-lower_byte-All (c ∷ s) = (lower_byte-IsLower c, map-lower_byte-All s)

-- The documented behaviour of the Unicode mapping: it leaves no ASCII capital.
abbrev pub Lowers : (Text → Text) → Type 0
Lowers unicode = (s : Text) → All IsLower (unicode s)

contains-terms_of : (t : Text) → contains (terms_of t ++ []) t ≡ true
unfolding terms_of contains
contains-terms_of t = ground (arith, text_beq_iff t t)

module _ (unicode : Text → Text) (lowers : Lowers unicode) where
  to_lower-All : (s : Text) → All IsLower (to_lower unicode s)
  unfolding to_lower
  to_lower-All s = elim (Bool-cases (is_ascii s)) [
    | inl e ↦ rw e (map-lower_byte-All s)
    | inr e ↦ rw e (lowers s)
  ]

  token-IsTerm : (s t : Text) → contains (tokenize unicode s) t ≡ true → IsTerm t
  token-IsTerm s t h =
      let low = to_lower unicode s in
      All-contains IsTerm (terms (find_all 0 low)) t
        (terms-All (find_all 0 low) (find_all-All IsLower 0 low (to_lower-All s))
          (find_all-IsMatch 0 low))
        (ground (arith, contains-tokenize unicode s t))

  kept : (s t : Text) → contains (tokenize unicode s) t ≡ true → is_kept t ≡ true
  kept s t h = ground (arith, contains-tokenize unicode s t)

  token-IsMatch : (s t : Text) → contains (tokenize unicode s) t ≡ true → IsMatch t
  token-IsMatch s t h = elim (token-IsTerm s t h).1 [
    | inl e ↦ absurd (let k : is_kept [] ≡ true = rw e at (kept s t h) in cc)
    | inr m ↦ m
  ]

  -- Whatever token Tokenize gives for a text, it gives for that token alone as well, if the Unicode
  -- mapping leaves no ASCII capital.
  pub contains-tokenize_self :
      (text t : Text)
      → contains (tokenize unicode text) t ≡ true
      → contains (tokenize unicode t) t ≡ true
  contains-tokenize_self text t h =
      let m = token-IsMatch text t h in
      rw
        (
          contains-tokenize unicode t t,
          to_lower_self unicode t (token-IsTerm text t h).0 m,
          find_all_self t m,
          kept text t h,
        )
        (contains-terms_of t)
