-- ===== src/Access/Tests.antt =====
-- Runs of the middleware.
use telemetry_search_engine.Common.{
  is_ascii, ◌+◌, ◌≤◌, ◌≡◌, refl, ◌++◌, [], Text, codes, text_beq, none, some, true, arith,
}
use telemetry_search_engine.Auth.Token
use telemetry_search_engine.Auth.Token.{TokenPair, Draw, generate_pair, key_func}
use telemetry_search_engine.Auth.Toy.{decode-encode, encode, toy}
use telemetry_search_engine.Access.{
  AccessClaims, Context, passed, role_level, has_role, bearer, parse_token, guard,
}
use telemetry_search_engine.Auth.Sessions.{IsAsciiSession}
use telemetry_search_engine.Access.Guard.{entered, guard-bearer, guard_passed, guard_refresh_token}

abbrev env : Text → Text
env key = []

abbrev token_of : Text → Text
token_of type = encode (
    Token.claims_of toy env (codes "ann") (codes "ann") (codes "writer") type 7_000_000_000_000_000
      5 (codes "id"))

abbrev ann : AccessClaims
ann = record { user_id = codes "ann"; username = codes "ann"; role = codes "writer" }

abbrev request : Context
request = record { claims = none; user_id = []; username = []; role = []; request_id = [] }

access-parsed : parse_token toy env 9 (token_of (codes "access")) ≡ some ann
unfolding parse_token key_func
access-parsed =
    rw
      (decode-encode (
        Token.claims_of toy env (codes "ann") (codes "ann") (codes "writer") (codes "access")
          7_000_000_000_000_000 5 (codes "id")))
      refl

writer-high : has_role (codes "writer") (codes "writer") ≡ true
unfolding has_role role_level text_beq
writer-high = refl

let_through :
    guard toy env (codes "writer") 9 (bearer ++ token_of (codes "access")) request
    ≡ passed (entered toy env request ann)
let_through = rw (
  guard-bearer toy env (codes "writer") 9 (token_of (codes "access")) request ann access-parsed,
  writer-high,
)

guard_passed_example :
    (token : Text) × (c : AccessClaims) × (bearer ++ token_of (codes "access") ≡ bearer ++ token)
    × (parse_token toy env 9 token ≡ some c)
    × (role_level (codes "writer") ≤ role_level c.role)
    × (entered toy env request ann ≡ entered toy env request c)
guard_passed_example =
    guard_passed toy env (codes "writer") 9 (bearer ++ token_of (codes "access")) request
      (entered toy env request ann) let_through

abbrev draw : Draw
draw = record { jti = some (codes "id"); issued_at = 5 }

abbrev pair : TokenPair
pair = record {
  access_token = encode (
      Token.claims_of toy env (codes "ann") (codes "ann") (codes "writer") (codes "access")
        (5 + Token.access_token_duration) 5 (codes "id"));
  refresh_token = encode (
      Token.claims_of toy env (codes "ann") (codes "ann") (codes "writer") (codes "refresh")
        (5 + Token.refresh_token_duration) 5 (codes "id"));
  expires_in = 900;
}

pair-made :
    generate_pair toy env (codes "ann") (codes "ann") (codes "writer") 5 draw draw ≡ some pair
unfolding generate_pair Token.generate_token
pair-made = refl

session-IsAscii : IsAsciiSession toy env (codes "ann") (codes "ann") (codes "writer") draw
unfolding is_ascii
session-IsAscii = (refl, refl, refl, λ jti e. let h : codes "id" ≡ jti = cc in rw (← h) refl)

guard_refresh_token_example :
    guard toy env (codes "writer") 9 (bearer ++ pair.refresh_token) request
    ≡ passed (entered toy env request ann)
guard_refresh_token_example =
    guard_refresh_token toy env (codes "writer") (codes "ann") (codes "ann") (codes "writer") 5 9
      draw draw pair request pair-made session-IsAscii (omega arith) writer-high
