-- ===== src/Auth/ServiceTests.antt =====
-- The theorems on the auth service, on a login and two overlapping refreshes with its token.
use telemetry_search_engine.Common.{
  ◌+◌, ◌*◌, ◌≤◌, ◌≡◌, refl, List, [], ◌∷◌, Text, Map, codes, some, get, put, delete, text_beq,
  sum_of,
}
use telemetry_search_engine.Auth
use telemetry_search_engine.Auth.{Store, Bcrypt, User, new_user, new_store}
use telemetry_search_engine.Auth.Token
use telemetry_search_engine.Auth.Token.{TokenPair, refresh_token_duration}
use telemetry_search_engine.Auth.Handlers.{Moment}
use telemetry_search_engine.Auth.Toy
use telemetry_search_engine.Auth.Toy.{toy, plain, encode, decode}
use telemetry_search_engine.Auth.Users.{IsConsistent}
use telemetry_search_engine.Auth.Service.{
  AuthRequest, entering, renewing, Waiting, AuthService, begin, proceed, settle, arrived, passed,
  Reached, started, step,
}
use telemetry_search_engine.Auth.Grants.{hands, grants, stored}
use telemetry_search_engine.Auth.Granted.{grants_handed}

abbrev env : Text → Text
env key = []

abbrev moment : Text → Moment
moment jti = record {
  checked = 5;
  parsed = 5;
  generated = 5;
  stored = 5;
  access = record { jti = some jti; issued_at = 5 };
  refresh = record { jti = some jti; issued_at = 5 };
}

abbrev user : Text → Text → Text → User
user name password role = new_user name password role 5

abbrev users : Map Text User
users =
    (codes "admin", user (codes "admin") (codes "admin123") (codes "admin"))
    ∷ (codes "writer", user (codes "writer") (codes "writer123") (codes "writer"))
    ∷ (codes "reader", user (codes "reader") (codes "reader123") (codes "reader"))
    ∷ []

abbrev seeded : Store
seeded = record { users = users; users_by_id = users; refresh_store = [] }

new_store-seeded : new_store plain env 0 5 ≡ some seeded
unfolding new_store Auth.must_create Auth.add_user Auth.env_or put text_beq
new_store-seeded = refl

abbrev pair_of : Text → TokenPair
pair_of jti = record {
  access_token = encode (
      Token.claims_of toy env (codes "admin") (codes "admin") (codes "admin") (codes "access")
        (5 + 15 * 60 * 1_000_000_000) 5 jti);
  refresh_token = encode (
      Token.claims_of toy env (codes "admin") (codes "admin") (codes "admin") (codes "refresh")
        (5 + refresh_token_duration) 5 jti);
  expires_in = 900;
}

-- The next critical section of the first request on its way.
abbrev pass_first : AuthService → AuthService
pass_first sv = elim sv.tasks [
  | [] ↦ sv
  | ◌∷◌ (req, t) rest ↦
      settle toy env plain req (proceed toy env plain t sv.store).0
        (record sv { store = (proceed toy env plain t sv.store).1; tasks = rest })
]

pass_first-Reached :
    (sv : AuthService) → Reached toy env plain sv → Reached toy env plain (pass_first sv)
pass_first-Reached sv r = first sv.tasks refl
  where
    first :
        (ts : List (AuthRequest × Waiting))
        → sv.tasks ≡ ts
        → Reached toy env plain (elim ts [
          | [] ↦ sv
          | ◌∷◌ (req, t) rest ↦
              settle toy env plain req
                (proceed toy env plain t sv.store).0
                (record sv { store = (proceed toy env plain t sv.store).1; tasks = rest })
        ])
    first [] e = r
    first ((req, t) ∷ rest) e = step r (passed [] rest req t e)

abbrev arrive : AuthRequest → AuthService → AuthService
arrive req sv = settle toy env plain req (begin toy env plain req) sv

abbrev first_login : AuthRequest
first_login =
    entering (moment (codes "a"))
      (some (record { username = codes "admin"; password = codes "admin123" }))

abbrev logged_in : AuthService
logged_in =
    pass_first
      (pass_first (arrive first_login (record { store = seeded; tasks = []; answers = [] })))

abbrev token : Text
token = (pair_of (codes "a")).refresh_token

abbrev renewal : Text → AuthRequest
renewal jti = renewing (moment jti) (some token)

-- Both refreshes wait before the first of them consumes the token.
abbrev refreshed : AuthService
refreshed = pass_first (
    pass_first (
      pass_first
        (pass_first (arrive (renewal (codes "c")) (arrive (renewal (codes "b")) logged_in)))))

refreshed-Reached : Reached toy env plain refreshed
refreshed-Reached = pass_first-Reached _ (
    pass_first-Reached _ (
      pass_first-Reached _ (
        pass_first-Reached _ (
          step
            (step
              (pass_first-Reached _ (
                pass_first-Reached _
                  (step (started 0 5 seeded new_store-seeded) (arrived first_login))))
              (arrived (renewal (codes "b"))))
            (arrived (renewal (codes "c")))))))

-- One of them is granted.
one_grant : sum_of (grants token) refreshed.answers ≡ 1
unfolding begin proceed sum_of Auth.authenticate get text_beq Token.generate_pair
    Token.generate_token Auth.consume_refresh Auth.store_refresh put Token.parse_refresh Token.parse
    Token.key_func decode Toy.read delete Auth.get_by_id
one_grant = refl

grants_handed_example :
    (sum_of (grants token) refreshed.answers + stored token refreshed.store
      ≤ sum_of (hands token) refreshed.answers)
    × IsConsistent refreshed.store
grants_handed_example = grants_handed toy env plain refreshed token refreshed-Reached
