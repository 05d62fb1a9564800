-- ===== src/Tokenizer.antt =====
-- search-service/internal/indexer/tokenizer.go: text to terms.
pub mod Scan
pub mod Parts
pub mod Pieces
pub mod Terms
mod Tests
use telemetry_search_engine.Common.{
  ℕ, zero, suc, ◌+◌, Bool, true, false, not, ◌&&◌, ◌||◌, List, [], ◌∷◌, ◌++◌, Text, codes, take,
  leb, eqb, if◌then◌else◌, contains, to_lower, text_eq, text_beq,
}

-- [a-zA-Z0-9_]
unfoldable pub is_word : ℕ → Bool
is_word c =
    leb b'a' c && leb c b'z' || leb b'A' c && leb c b'Z' || leb b'0' c && leb c b'9' || eqb c b'_'

-- [\-\.]
unfoldable pub is_separator : ℕ → Bool
is_separator c = eqb c b'-' || eqb c b'.'

-- How far a match reaches that may take in `c`, where it reaches `n` bytes past `c`.
unfoldable pub extend : ℕ → ℕ → ℕ
extend c n = if is_word c then suc n else if is_separator c && not (eqb n 0) then suc n else 0

-- The length of the longest prefix that is `[a-zA-Z0-9_\-\.]*[a-zA-Z0-9_]`, or 0.
unfoldable pub word_end : Text → ℕ
word_end [] = 0
word_end (c ∷ s) = extend c (word_end s)

-- primaryRegex.FindAllString: `skip` bytes of the text belong to the last match.
unfoldable pub find_all : ℕ → Text → List Text
find_all skip [] = []
find_all (suc skip) (c ∷ s) = find_all skip s
find_all zero (c ∷ s) =
    let n = if is_word c then word_end s else 0 in
    let rest = find_all n s in if is_word c then (c ∷ take n s) ∷ rest else rest

-- splitRegex.Split: the piece `cur` is open, or a run of separators is (`in_run`).
unfoldable pub split_run : Bool → Text → Text → List Text
split_run in_run cur [] = cur ∷ []
split_run false cur (c ∷ s) =
    let closed = cur ∷ split_run true [] s in
    let longer = split_run false (cur ++ c ∷ []) s in if is_separator c then closed else longer
split_run true cur (c ∷ s) =
    let skipped = split_run true [] s in
    let opened = split_run false (c ∷ []) s in if is_separator c then skipped else opened

abbrev pub stop_words : List Text
stop_words =
    codes "the"
    ∷ codes "a"
    ∷ codes "an"
    ∷ codes "and"
    ∷ codes "or"
    ∷ codes "is"
    ∷ codes "in"
    ∷ codes "at"
    ∷ codes "to"
    ∷ codes "of"
    ∷ codes "for"
    ∷ codes "on"
    ∷ codes "with"
    ∷ codes "by"
    ∷ codes "from"
    ∷ []

abbrev is_empty : Text → Bool
is_empty [] = true
is_empty (c ∷ s) = false

-- The closure `add`; the keys of `seen` are the entries of `out`.
unfoldable pub add : List Text → Text → List Text
add out t =
    if is_empty t
    then out
    else if contains stop_words t
    then out
    else if contains out t
    then out
    else out ++ t ∷ []

unfoldable pub add_all : List Text → List Text → List Text
add_all out [] = out
add_all out (t ∷ ts) = add_all (add out t) ts

-- strings.ContainsAny(tok, "-.")
unfoldable pub has_separator : Text → Bool
has_separator [] = false
has_separator (c ∷ s) = is_separator c || has_separator s

-- What the loop's body adds for one match: the match, and its pieces if it is compound.
unfoldable pub terms_of : Text → List Text
terms_of tok = tok ∷ (if has_separator tok then split_run false [] tok else [])

unfoldable pub add_matches : List Text → List Text → List Text
add_matches out [] = out
add_matches out (tok ∷ raw) = add_matches (add_all out (terms_of tok)) raw

unfoldable pub tokenize : (Text → Text) → Text → List Text
unfolding add_matches add_all add terms_of has_separator split_run find_all to_lower word_end extend
    is_word is_separator contains text_beq
tokenize unicode text = add_matches [] (find_all 0 (to_lower unicode text))
