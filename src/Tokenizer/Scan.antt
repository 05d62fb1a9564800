-- ===== src/Tokenizer/Scan.antt =====
-- The matches of primaryRegex against the language of the expression.
use telemetry_search_engine.Common.{
  ℕ, zero, suc, ◌≤◌, ◌<◌, ◌≡◌, ◌⊎◌, refl, ap, sym, true, false, List, [], ◌∷◌, ◌++◌, Text, take,
  drop, length, arith, inl, inr, Bool-cases, take-append-drop, length-take, length-drop,
}
use telemetry_search_engine.Tokenizer.{is_word, is_separator, extend, word_end, find_all}

-- Empty, or `[a-zA-Z0-9_\-\.]*[a-zA-Z0-9_]`.
abbrev pub IsTail : Text → Type 0
IsTail [] = Unit
IsTail (c ∷ s) = ((is_word c ≡ true) ⊎ ((is_separator c ≡ true) × (0 < length s))) × IsTail s

-- The language of primaryRegex.
abbrev pub IsMatch : Text → Type 0
IsMatch [] = ⊥
IsMatch (c ∷ s) = (is_word c ≡ true) × IsTail s

-- A sequence of matches that FindAllString may return: each is the first in the text that is left,
-- and no longer match begins at its place.
pub data Finds : Text → List Text → Type 0 where
  done : Finds [] []
  skip : {c : ℕ} {s : Text} {ms : List Text} → is_word c ≡ false → Finds s ms → Finds (c ∷ s) ms
  hit :
      {s m rest : Text} {ms : List Text}
      → s ≡ m ++ rest
      → IsMatch m
      → ((u r : Text) → s ≡ u ++ r → IsMatch u → length u ≤ length m)
      → Finds rest ms
      → Finds s (m ∷ ms)

pub word_end-le : (s : Text) → word_end s ≤ length s
unfolding word_end extend
word_end-le [] = omega arith
word_end-le (c ∷ s) = ground (arith, word_end-le s)

extend-IsTail :
    (c n : ℕ) (s : Text) → n ≤ length s → IsTail (take n s) → IsTail (take (extend c n) (c ∷ s))
unfolding extend
extend-IsTail c n s h t = ground (arith, length-take n s)

pub take-word_end-IsTail : (s : Text) → IsTail (take (word_end s) s)
unfolding word_end
take-word_end-IsTail [] = tt
take-word_end-IsTail (c ∷ s) =
    extend-IsTail c (word_end s) s (word_end-le s) (take-word_end-IsTail s)

pub IsTail-le-word_end : (u r : Text) → IsTail u → length u ≤ word_end (u ++ r)
unfolding word_end extend
IsTail-le-word_end [] r h = omega arith
IsTail-le-word_end (c ∷ u) r h = ground (arith, IsTail-le-word_end u r)

pub find_all-drop : (k : ℕ) (s : Text) → find_all k s ≡ find_all 0 (drop k s)
unfolding find_all
find_all-drop zero s = refl
find_all-drop (suc k) [] = refl
find_all-drop (suc k) (c ∷ s) = find_all-drop k s

-- What `find_all` does where a match begins.
pub find_all-match :
    (c : ℕ) (s : Text)
    → is_word c ≡ true
    → find_all 0 (c ∷ s) ≡ (c ∷ take (word_end s) s) ∷ find_all 0 (drop (word_end s) s)
unfolding find_all
find_all-match c s h = rw h (ap (◌∷◌ (c ∷ take (word_end s) s)) (find_all-drop (word_end s) s))

find_all-skip : (c : ℕ) (s : Text) → is_word c ≡ false → find_all 0 (c ∷ s) ≡ find_all 0 s
unfolding find_all
find_all-skip c s h = rw h

-- No match that begins at `c` is longer.
longest : (c : ℕ) (s u r : Text) → (c ∷ s) ≡ u ++ r → IsMatch u → length u ≤ suc (word_end s)
longest c s (d ∷ u) r e (_, t) =
    let e' : s ≡ u ++ r = cc in rw e' (omega (arith, IsTail-le-word_end u r t))
longest c s [] r e m = absurd m

find_all-Finds_below : (k : ℕ) (s : Text) → length s < k → Finds s (find_all 0 s)
find_all-Finds_below zero s h = absurd (omega arith)
find_all-Finds_below (suc k) [] h = unfold find_all in done
find_all-Finds_below (suc k) (c ∷ s) h = elim (Bool-cases (is_word c)) [
  | inr e ↦ rw (find_all-skip c s e) (skip e (find_all-Finds_below k s (omega arith)))
  | inl e ↦
      let n = word_end s in
      rw (find_all-match c s e) (
        hit (ap (◌∷◌ c) (sym (take-append-drop n s))) (e, take-word_end-IsTail s)
          (λ u r p m. omega (arith, longest c s u r p m, length-take n s, word_end-le s))
          (find_all-Finds_below k (drop n s) (omega (arith, length-drop n s))))
]

-- The scan returns the successive leftmost longest matches of primaryRegex, whatever the text.
pub find_all-Finds : (s : Text) → Finds s (find_all 0 s)
find_all-Finds s = find_all-Finds_below (suc (length s)) s (omega arith)
