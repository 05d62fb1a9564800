-- ===== src/Tokenizer/Tests.antt =====
-- Runs of the tokenizer.
use telemetry_search_engine.Common.{
  ◌≡◌, refl, [], ◌∷◌, map, Text, codes, true, lower_byte, contains, text_eq,
}
use telemetry_search_engine.Tokenizer.{tokenize, find_all}
use telemetry_search_engine.Tokenizer.Scan.{Finds, find_all-Finds}
use telemetry_search_engine.Tokenizer.Pieces.{IsPiece, stopped, tokenize_exact}
use telemetry_search_engine.Common.{to_lower, ◌↔◌, ◌≢◌, ◌⊎◌, false}
use telemetry_search_engine.Tokenizer.Parts.{Lowers, map-lower_byte-All, contains-tokenize_self}

abbrev lower : Text → Text
lower s = map lower_byte s

abbrev line : Text
line = codes "Failed login FROM db-01.eu to the DB"

tokenize-line :
    tokenize lower line
    ≡ codes "failed" ∷ codes "login" ∷ codes "db-01.eu" ∷ codes "db" ∷ codes "01" ∷ codes "eu" ∷ []
unfolding tokenize
tokenize-line = refl

lower-Lowers : Lowers lower
lower-Lowers = map-lower_byte-All

find_all-Finds_example : Finds line (find_all 0 line)
find_all-Finds_example = find_all-Finds line

tokenize_exact_example : (contains (tokenize lower line) (codes "db") ≡ true) ↔ (
    (codes "db" ≢ [])
    × (contains stopped (codes "db") ≡ false)
    × ((m : Text) × (contains (find_all 0 (to_lower lower line)) m ≡ true)
        × ((codes "db" ≡ m) ⊎ IsPiece m (codes "db"))))
tokenize_exact_example = tokenize_exact lower line (codes "db")

line-eu : contains (tokenize lower line) (codes "eu") ≡ true
unfolding tokenize
line-eu = refl

contains-tokenize_self_example : contains (tokenize lower (codes "eu")) (codes "eu") ≡ true
contains-tokenize_self_example = contains-tokenize_self lower lower-Lowers line (codes "eu") line-eu
