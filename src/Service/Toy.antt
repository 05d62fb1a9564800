-- ===== src/Service/Toy.antt =====
-- A host with one file and a writer's token, on which the services run in tests.
use telemetry_search_engine.Common.{
  ℕ, ◌+◌, ◌-◌, ◌*◌, ◌≡◌, refl, [], ◌∷◌, ◌++◌, Text, codes, none, some, eqb, if◌then◌else◌, text_beq,
  true,
}
use telemetry_search_engine.Common.Int.{ℤ, pos}
use telemetry_search_engine.Auth.Token
use telemetry_search_engine.Auth.Token.{key_func}
use telemetry_search_engine.Auth.Toy.{decode-encode, encode, toy}
use telemetry_search_engine.Access.{
  AccessClaims, Context, passed, role_level, has_role, bearer, parse_token, guard,
}
use telemetry_search_engine.Access.Guard.{entered, guard-bearer}
use telemetry_search_engine.Parquet.{Reader}
use telemetry_search_engine.Service.{Host}

abbrev pub lower : Text → Text
lower s = s

-- A number in decimal digits.
abbrev pub number_from : ℕ → Text → ℤ
number_from n [] = pos n
number_from n (c ∷ s) = number_from (10 * n + (c - 48)) s

-- What follows the last slash.
abbrev pub last_part : Text → Text → Text
last_part part [] = part
last_part part (c ∷ s) =
    let rest = last_part [] s in
    let on = last_part (part ++ c ∷ []) s in if eqb c 47 then rest else on

abbrev pub one_row : Reader
one_row = record {
  num_rows = 1;
  value_columns = codes "message" ∷ [];
  read_column = λ path. some (codes "alpha" ∷ []);
}

abbrev pub host : Host
host = record {
  getenv = λ key. codes "d";
  glob = λ pattern. some (codes "d/f" ∷ codes "d/g" ∷ []);
  join_path = λ dir name. dir ++ codes "/" ++ name;
  base = last_part [];
  open_file = λ path. if text_beq path (codes "d/f") then some one_row else none;
  atoi = number_from 0;
  parse_int64 = number_from 0;
}

abbrev pub no_context : Context
no_context = record { claims = none; user_id = []; username = []; role = []; request_id = [] }

abbrev pub token : Text
token = encode (
    Token.claims_of toy host.getenv (codes "ann") (codes "ann") (codes "writer") (codes "access")
      7_000_000_000_000_000 5 (codes "id"))

abbrev pub ann : AccessClaims
ann = record { user_id = codes "ann"; username = codes "ann"; role = codes "writer" }

access-parsed : parse_token toy host.getenv 9 token ≡ some ann
unfolding parse_token key_func
access-parsed =
    rw
      (decode-encode (
        Token.claims_of toy host.getenv (codes "ann") (codes "ann") (codes "writer")
          (codes "access") 7_000_000_000_000_000 5 (codes "id")))
      refl

writer-high : has_role (codes "writer") (codes "writer") ≡ true
unfolding has_role role_level text_beq
writer-high = refl

pub writer-passed :
    guard toy host.getenv (codes "writer") 9 (bearer ++ token) no_context
    ≡ passed (entered toy host.getenv no_context ann)
writer-passed = rw (
  guard-bearer toy host.getenv (codes "writer") 9 token no_context ann access-parsed,
  writer-high,
)
