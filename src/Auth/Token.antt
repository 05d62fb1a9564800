-- ===== src/Auth/Token.antt =====
-- auth-service/pkg/jwtutil/jwt.go: the claims of a token, and how a pair is made and read back.
use telemetry_search_engine.Common.{
  ℕ, ◌+◌, ◌*◌, ◌≤◌, ◌<◌, ◌≡◌, is_ascii, ◌&&◌, Text, codes, text_beq, Option, none, some, Bool, true,
  not, if◌then◌else◌,
}
use telemetry_search_engine.Auth.{env_or}

pub record Claims : Type 0 where
  pub user_id : Text
  pub username : Text
  pub role : Text
  pub token_type : Text
  pub jti : Text
  pub expires_at : ℕ
  pub issued_at : ℕ
  pub issuer : Text

pub record TokenPair : Type 0 where
  pub access_token : Text
  pub refresh_token : Text
  pub expires_in : ℕ

-- The method that a token's header names.
pub data Method : Type 0 where
  hmac other : Method

-- Whether every text of the claims is ASCII.
abbrev pub has_ascii_texts : Claims → Bool
has_ascii_texts c =
    is_ascii c.user_id
    && is_ascii c.username
    && is_ascii c.role
    && is_ascii c.token_type
    && is_ascii c.jti
    && is_ascii c.issuer

-- github.com/golang-jwt/jwt: NewNumericDate, signing with HS256, and ParseWithClaims with its key
-- function at a time; the parsed token carries its claims and its field Valid.
pub record Jwt : Type 0 where
  pub new_numeric_date : ℕ → ℕ
  pub sign : Text → Claims → Option Text
  pub parse_with_claims : (Method → Option Text) → ℕ → Text → Option (Claims × Bool)
  -- NewNumericDate truncates a time to the second
  pub truncates : (t : ℕ) → (new_numeric_date t ≤ t) × (t < new_numeric_date t + 1_000_000_000)
  pub truncates_once : (t : ℕ) → new_numeric_date (new_numeric_date t) ≡ new_numeric_date t
  -- a signed token whose times are whole seconds, as JSON writes them, and whose texts JSON does not
  -- change parses, under a key function that gives its key, until it expires
  pub parses :
      (secret token : Text) (c : Claims) (key : Method → Option Text) (now : ℕ)
      → sign secret c ≡ some token
      → key hmac ≡ some secret
      → new_numeric_date c.expires_at ≡ c.expires_at
      → new_numeric_date c.issued_at ≡ c.issued_at
      → has_ascii_texts c ≡ true
      → now < c.expires_at
      → parse_with_claims key now token ≡ some (c, true)

-- Nanoseconds.
abbrev pub access_token_duration : ℕ
access_token_duration = 15 * 60 * 1_000_000_000

abbrev pub refresh_token_duration : ℕ
refresh_token_duration = 7 * 24 * 3600 * 1_000_000_000

unfoldable pub jwt_secret : (Text → Text) → Text
unfolding env_or
jwt_secret env =
    env_or env (codes "JWT_SECRET") (codes "telemetry-search-dev-secret-change-in-production")

-- The closure that ParseWithClaims gets: no key for a method that is not HMAC.
unfoldable pub key_func : (Text → Text) → Method → Option Text
key_func env hmac = some (jwt_secret env)
key_func env other = none

-- The random bytes and the clock readings of one token: `jti` is `none` where the reader fails.
pub record Draw : Type 0 where
  pub jti : Option Text
  pub issued_at : ℕ

module _ (jwt : Jwt) (env : Text → Text) where
  abbrev pub claims_of : Text → Text → Text → Text → ℕ → ℕ → Text → Claims
  claims_of user_id username role token_type expiry issued_at jti = record {
    user_id = user_id;
    username = username;
    role = role;
    token_type = token_type;
    jti = jti;
    expires_at = jwt.new_numeric_date expiry;
    issued_at = jwt.new_numeric_date issued_at;
    issuer = codes "telemetry-search";
  }

  abbrev pub signed : Text → Text → Text → Text → ℕ → ℕ → Option Text → Option Text
  signed user_id username role token_type expiry issued_at none = none
  signed user_id username role token_type expiry issued_at (some jti) =
      jwt.sign (jwt_secret env) (claims_of user_id username role token_type expiry issued_at jti)

  unfoldable pub generate_token : Text → Text → Text → Text → ℕ → Draw → Option Text
  generate_token user_id username role token_type expiry draw =
      signed user_id username role token_type expiry draw.issued_at draw.jti

  abbrev pub paired : Option Text → Option Text → Option TokenPair
  paired (some access) (some refresh) =
      some (record { access_token = access; refresh_token = refresh; expires_in = 900 })
  paired _ _ = none

  -- Both tokens are made by functions without effect, so the early return between them is the same
  -- as a failure of either.
  unfoldable pub generate_pair : Text → Text → Text → ℕ → Draw → Draw → Option TokenPair
  generate_pair user_id username role now access refresh =
      paired
        (generate_token user_id username role (codes "access") (now + access_token_duration) access)
        (generate_token user_id username role (codes "refresh") (now + refresh_token_duration)
          refresh)

  abbrev pub if_valid : Option (Claims × Bool) → Option Claims
  if_valid none = none
  if_valid (some (c, ok)) = if ok then some c else none

  unfoldable pub parse : ℕ → Text → Option Claims
  parse now token = if_valid (jwt.parse_with_claims (key_func env) now token)

  abbrev pub if_refresh : Option Claims → Option Claims
  if_refresh none = none
  if_refresh (some c) = if not (text_beq c.token_type (codes "refresh")) then none else some c

  unfoldable pub parse_refresh : ℕ → Text → Option Claims
  parse_refresh now token = if_refresh (parse now token)
