-- ===== src/Access.antt =====
-- search-service/internal/middleware/auth.go and ingest-service/internal/middleware/auth.go, which
-- hold the same checks: who may pass to a handler.
pub mod Guard
mod Tests
use telemetry_search_engine.Common.{
  ℕ, List, [], ◌∷◌, Text, codes, has_prefix, drop, length, Option, none, some, Bool, true, false,
  not, leb, text_beq, if◌then◌else◌,
}
use telemetry_search_engine.Auth.Token.{Claims, Jwt, key_func, if_valid}

-- Claims of these services: the token's type is no field of it, and is not decoded.
pub record AccessClaims : Type 0 where
  pub user_id : Text
  pub username : Text
  pub role : Text

-- What the middleware stores for the handlers behind it.
pub record Context : Type 0 where
  pub claims : Option AccessClaims
  pub user_id : Text
  pub username : Text
  pub role : Text
  pub request_id : Text

-- c.Next(), or AbortWithStatusJSON with a status and an error.
pub data Checked : Type 0 where
  passed : Context → Checked
  aborted : ℕ → Text → Checked

unfoldable pub role_level : Text → ℕ
role_level role =
    if text_beq role (codes "admin")
    then 3
    else if text_beq role (codes "writer")
    then 2
    else if text_beq role (codes "reader")
    then 1
    else 0

unfoldable pub has_role : Text → Text → Bool
has_role user_role required = leb (role_level required) (role_level user_role)

abbrev pub bearer : Text
bearer = codes "Bearer "

abbrev is_empty : Text → Bool
is_empty [] = true
is_empty (c ∷ s) = false

module _ (jwt : Jwt) (env : Text → Text) where
  abbrev pub seen : Option Claims → Option AccessClaims
  seen none = none
  seen (some c) = some (record { user_id = c.user_id; username = c.username; role = c.role })

  unfoldable pub parse_token : ℕ → Text → Option AccessClaims
  parse_token now token = seen (if_valid jwt env (jwt.parse_with_claims (key_func env) now token))

  abbrev pub with_claims : Context → Option AccessClaims → Checked
  with_claims ctx none = aborted 401 (codes "invalid or expired token")
  with_claims ctx (some c) =
      passed
        (record ctx { claims = some c; user_id = c.user_id; username = c.username; role = c.role })

  unfoldable pub require_auth : ℕ → Text → Context → Checked
  require_auth now header ctx =
      if is_empty header
      then aborted 401 (codes "authorization header required")
      else if not (has_prefix header bearer)
      then aborted 401 (codes "bearer token required")
      else with_claims ctx (parse_token now (drop (length bearer) header))

abbrev pub if_role : Text → Context → Option AccessClaims → Checked
if_role min_role ctx none = aborted 401 (codes "no claims in context")
if_role min_role ctx (some c) =
    if not (has_role c.role min_role)
    then aborted 403 (codes "insufficient permissions")
    else passed ctx

unfoldable pub require_role : Text → Context → Checked
require_role min_role ctx = if_role min_role ctx ctx.claims

-- The next function of a chain runs unless one before it has aborted.
abbrev pub then_check : Checked → (Context → Checked) → Checked
then_check (passed ctx) k = k ctx
then_check (aborted status error) k = aborted status error

-- A route behind RequireAuth and RequireRole.
unfoldable pub guard : Jwt → (Text → Text) → Text → ℕ → Text → Context → Checked
guard jwt env min_role now header ctx =
    then_check (require_auth jwt env now header ctx) (require_role min_role)

-- `generated` is the identifier that the clock gives.
unfoldable pub set_request_id : Text → Text → Context → Context
set_request_id generated header ctx = record ctx {
  request_id = if is_empty header then generated else header;
}
