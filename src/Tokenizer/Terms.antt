-- ===== src/Tokenizer/Terms.antt =====
-- What Tokenize returns for the matches it finds: which terms, and that none is repeated.
use telemetry_search_engine.Common.{
  ◌≡◌, ◌∙◌, Bool, not, ◌&&◌, ◌||◌, List, [], ◌∷◌, ◌++◌, Text, contains, text_eq, contains-singleton,
  IsNodup, IsNodup-concat, text_beq, contains-append, arith, to_lower, text_beq_iff,
}
use telemetry_search_engine.Tokenizer.{
  is_empty, stop_words, add, add_all, terms_of, add_matches, find_all, tokenize,
}

-- Neither empty nor a stop word.
abbrev pub is_kept : Text → Bool
is_kept t = not (is_empty t) && not (contains stop_words t)

-- The terms of all the matches, repetitions included.
abbrev pub terms : List Text → List Text
terms [] = []
terms (tok ∷ raw) = terms_of tok ++ terms raw

contains-add :
    (out : List Text) (t u : Text)
    → contains (add out t) u ≡ (contains out u || (is_kept t && text_beq t u))
unfolding add
contains-add out t u =
    ground (arith, contains-append out (t ∷ []) u, contains-singleton t u, text_beq_iff t u)

-- `t` is kept, and among the terms `ts`.
abbrev pub is_term : List Text → Text → Bool
is_term ts t = is_kept t && contains ts t

contains-add_all :
    (out ts : List Text) (u : Text) → contains (add_all out ts) u ≡ (contains out u || is_term ts u)
unfolding add_all contains
contains-add_all out [] u = ground arith
contains-add_all out (t ∷ ts) u =
    contains-add_all (add out t) ts u ∙ ground (arith, contains-add out t u, text_beq_iff t u)

contains-add_matches :
    (out raw : List Text) (u : Text)
    → contains (add_matches out raw) u ≡ (contains out u || is_term (terms raw) u)
unfolding add_matches contains
contains-add_matches out [] u = ground arith
contains-add_matches out (tok ∷ raw) u =
    contains-add_matches (add_all out (terms_of tok)) raw u
    ∙ ground
        (arith, contains-add_all out (terms_of tok) u, contains-append (terms_of tok) (terms raw) u)

-- A text is among the tokens exactly when it is kept and among the terms of the matches.
pub contains-tokenize :
    (unicode : Text → Text) (text t : Text)
    → contains (tokenize unicode text) t ≡ is_term (terms (find_all 0 (to_lower unicode text))) t
unfolding tokenize
contains-tokenize unicode text t = contains-add_matches [] (find_all 0 (to_lower unicode text)) t

add-IsNodup : (out : List Text) (t : Text) → IsNodup out → IsNodup (add out t)
unfolding add
add-IsNodup out t n = ground (arith, IsNodup-concat out t)

add_all-IsNodup : (out ts : List Text) → IsNodup out → IsNodup (add_all out ts)
unfolding add_all
add_all-IsNodup out [] n = n
add_all-IsNodup out (t ∷ ts) n = add_all-IsNodup (add out t) ts (add-IsNodup out t n)

add_matches-IsNodup : (out raw : List Text) → IsNodup out → IsNodup (add_matches out raw)
unfolding add_matches
add_matches-IsNodup out [] n = n
add_matches-IsNodup out (tok ∷ raw) n =
    add_matches-IsNodup (add_all out (terms_of tok)) raw (add_all-IsNodup out (terms_of tok) n)

-- No token is returned twice, whatever the text.
pub tokenize-IsNodup : (unicode : Text → Text) (text : Text) → IsNodup (tokenize unicode text)
unfolding tokenize
tokenize-IsNodup unicode text = add_matches-IsNodup [] (find_all 0 (to_lower unicode text)) tt
