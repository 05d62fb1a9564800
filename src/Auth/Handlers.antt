-- ===== src/Auth/Handlers.antt =====
-- auth-service/internal/api/handler.go: the handlers of the auth service. The argument of a handler
-- that binds a JSON body is what gin's ShouldBindJSON returns, `none` for its error.
use telemetry_search_engine.Common.{
  ℕ, ◌+◌, List, [], ◌∷◌, length, Text, codes, Option, none, some, Bool,
}
use telemetry_search_engine.Auth.{
  User, RefreshRecord, Store, Bcrypt, Consumed, consumed, not_found, expired, Created, created,
  username_exists, hash_failed, authenticate, create_user, get_by_id, store_refresh,
  consume_refresh, list_users,
}
use telemetry_search_engine.Auth.Token.{
  Claims, TokenPair, Jwt, Draw, refresh_token_duration, generate_pair, parse, parse_refresh,
}

-- What a reply shows of a user.
pub record Profile : Type 0 where
  pub id : Text
  pub username : Text
  pub role : Text

-- An entry of the list of users.
pub record Listed : Type 0 where
  pub profile : Profile
  pub active : Bool
  pub created_at : ℕ

-- The texts of errors that a library makes are replaced by fixed ones.
pub data Body : Type 0 where
  failure : Text → Body
  session : TokenPair → Profile → Body
  pair : TokenPair → Body
  message : Text → Body
  valid_claims : Profile → Body
  account : Profile → ℕ → Body
  accounts : List Listed → ℕ → Body

pub record Response : Type 0 where
  pub status : ℕ
  pub body : Body

-- What the clock and the random reader give to one request.
pub record Moment : Type 0 where
  pub checked : ℕ
  pub parsed : ℕ
  pub generated : ℕ
  pub stored : ℕ
  pub access : Draw
  pub refresh : Draw

pub record LoginRequest : Type 0 where
  pub username : Text
  pub password : Text

pub record CreateRequest : Type 0 where
  pub username : Text
  pub password : Text
  pub role : Text

abbrev pub profile_of : User → Profile
profile_of u = record { id = u.id; username = u.username; role = u.role }

abbrev pub claims_profile : Claims → Profile
claims_profile c = record { id = c.user_id; username = c.username; role = c.role }

abbrev pub fail : ℕ → Text → Response
fail status error = record { status = status; body = failure error }

module _ (jwt : Jwt) (env : Text → Text) where
  abbrev pub pair_for : User → Moment → Option TokenPair
  pair_for u m = generate_pair jwt env u.id u.username u.role m.generated m.access m.refresh

  -- The end of login and of refresh, once the pair is made; `reply` is the body of success.
  abbrev pub issue :
      (TokenPair → Body) → User → Moment → Store → Option TokenPair → Response × Store
  issue reply u m s none = (fail 500 (codes "token generation failed"), s)
  issue reply u m s (some p) = (
    record { status = 200; body = reply p },
    store_refresh p.refresh_token u.id (m.stored + refresh_token_duration) s,
  )

  module _ (bcrypt : Bcrypt) where
    abbrev pub login_as : Moment → Store → Option User → Response × Store
    login_as m s none = (fail 401 (codes "invalid credentials"), s)
    login_as m s (some u) = issue (λ p. session p (profile_of u)) u m s (pair_for u m)

    -- POST /api/v1/auth/login
    unfoldable pub login : Moment → Option LoginRequest → Store → Response × Store
    login m none s = (fail 400 (codes "username and password required"), s)
    login m (some req) s = login_as m s (authenticate bcrypt req.username req.password s)

  abbrev pub refresh_for : Moment → Store → Option User → Response × Store
  refresh_for m s none = (fail 401 (codes "user not found"), s)
  refresh_for m s (some u) = issue pair u m s (pair_for u m)

  abbrev pub refresh_parsed : Moment → RefreshRecord → Store → Option Claims → Response × Store
  refresh_parsed m rec s none = (fail 401 (codes "invalid refresh token"), s)
  refresh_parsed m rec s (some c) = refresh_for m s (get_by_id rec.user_id s)

  abbrev pub refresh_consumed : Moment → Text → Consumed × Store → Response × Store
  refresh_consumed m token (consumed rec, s) =
      refresh_parsed m rec s (parse_refresh jwt env m.parsed token)
  refresh_consumed m token (not_found, s) = (fail 401 (codes "refresh token revoked or expired"), s)
  refresh_consumed m token (expired, s) = (fail 401 (codes "refresh token revoked or expired"), s)

  -- POST /api/v1/auth/refresh
  unfoldable pub refresh : Moment → Option Text → Store → Response × Store
  refresh m none s = (fail 400 (codes "refresh_token required"), s)
  refresh m (some token) s = refresh_consumed m token (consume_refresh token m.checked s)

  abbrev validated : Option Claims → Response
  validated none = fail 401 (codes "invalid token")
  validated (some c) = record { status = 200; body = valid_claims (claims_profile c) }

  -- POST /api/v1/auth/validate
  unfoldable pub validate : Moment → Option Text → Response
  validate m none = fail 400 (codes "token required")
  validate m (some token) = validated (parse jwt env m.parsed token)

-- POST /api/v1/auth/logout: a body that does not bind leaves the token empty.
unfoldable pub logout : Moment → Text → Store → Response × Store
logout m [] s = (record { status = 200; body = message (codes "logged out") }, s)
logout m (c ∷ token) s = (
  record { status = 200; body = message (codes "logged out") },
  (consume_refresh (c ∷ token) m.checked s).1,
)

abbrev pub created_reply : Created × Store → Response × Store
created_reply (created u, s) =
    (record { status = 201; body = account (profile_of u) u.created_at }, s)
created_reply (username_exists, s) = (fail 409 (codes "username already exists"), s)
created_reply (hash_failed, s) = (fail 409 (codes "hash failed"), s)

-- POST /api/v1/admin/users: no middleware stands before it, so no argument tells who asks.
unfoldable pub create_user_handler :
    Bcrypt → ℕ → Moment → Option CreateRequest → Store → Response × Store
create_user_handler bcrypt seed m none s = (fail 400 (codes "invalid request"), s)
create_user_handler bcrypt seed m (some req) s =
    created_reply (create_user bcrypt seed m.stored req.username req.password req.role s)

abbrev pub listed_of : List User → List Listed
listed_of [] = []
listed_of (u ∷ us) =
    record { profile = profile_of u; active = u.active; created_at = u.created_at } ∷ listed_of us

-- GET /api/v1/admin/users
unfoldable pub list_users_handler : Store → Response
list_users_handler s =
    let out = listed_of (list_users s) in record { status = 200; body = accounts out (length out) }

unfoldable pub health : Response
health = record { status = 200; body = message (codes "ok") }
