-- ===== src/Auth/Sessions.antt =====
-- A session from login to refresh, and the tokens that a refresh refuses.
use telemetry_search_engine.Common.{
  ℕ, ◌+◌, ◌≤◌, ◌≡◌, ◌≢◌, refl, is_ascii, true, Text, codes, Option, none, some, put, delete,
  get-put, text_eq, text_beq_iff, false, ltb, arith,
}
use telemetry_search_engine.Auth.{
  User, Store, Bcrypt, Consumed, consumed, not_found, expired, get_by_id, store_refresh,
  consume_refresh, authenticate,
}
use telemetry_search_engine.Auth.Token.{
  Claims, TokenPair, Jwt, Draw, jwt_secret, key_func, claims_of, has_ascii_texts, signed, paired,
  if_refresh, refresh_token_duration, access_token_duration, generate_token, generate_pair, parse,
  parse_refresh,
}
use telemetry_search_engine.Auth.Handlers.{
  pair, Moment, LoginRequest, pair_for, refresh_consumed, refresh, login,
}

module _ (jwt : Jwt) (env : Text → Text) where
  -- A token that was signed for a session is read back with its claims.
  pub signed-parse :
      (id name role type : Text) (expiry issued now : ℕ) (jti : Option Text) (token : Text)
      → signed jwt env id name role type expiry issued jti ≡ some token
      → ((i : Text)
          → jti ≡ some i
          → has_ascii_texts (claims_of jwt env id name role type expiry issued i) ≡ true)
      → now + 1_000_000_000 ≤ expiry
      → (i : Text) × (parse jwt env now token
          ≡ some (claims_of jwt env id name role type expiry issued i))
  unfolding parse key_func
  signed-parse id name role type expiry issued now none token e plain h = cc
  signed-parse id name role type expiry issued now (some jti) token e plain h =
      let c = claims_of jwt env id name role type expiry issued jti in
      (
        jti,
        rw (
            jwt.parses (jwt_secret env) token c (key_func env) now e refl
              (jwt.truncates_once expiry) (jwt.truncates_once issued) (plain jti refl)
              (omega (arith, (jwt.truncates expiry).1))),
      )

  pub paired-refresh :
      (a r : Option Text) (p : TokenPair) → paired jwt env a r ≡ some p → r ≡ some p.refresh_token
  paired-refresh none r p e = cc
  paired-refresh (some a) none p e = cc
  paired-refresh (some a) (some r) p e = ground arith

  -- The texts of a session are ASCII: the user's, and the identifier that is drawn for its token.
  abbrev pub IsAsciiSession : Text → Text → Text → Draw → Type 0
  IsAsciiSession id name role draw =
      (is_ascii id ≡ true)
      × (is_ascii name ≡ true)
      × (is_ascii role ≡ true)
      × ((jti : Text) → draw.jti ≡ some jti → is_ascii jti ≡ true)

  pub ascii_claims :
      (id name role type : Text) (draw : Draw) (jti : Text) (expiry : ℕ)
      → is_ascii type ≡ true
      → IsAsciiSession id name role draw
      → draw.jti ≡ some jti
      → has_ascii_texts (claims_of jwt env id name role type expiry draw.issued_at jti) ≡ true
  unfolding is_ascii
  ascii_claims id name role type draw jti expiry t (a, b, c, d) e = rw (a, b, c, t, d jti e) refl

  pub refresh-ascii : is_ascii (codes "refresh") ≡ true
  unfolding is_ascii
  refresh-ascii = refl

  -- The refresh token of a pair parses as one until a second before seven days have passed.
  pub parse_refresh-generate_pair :
      (id name role : Text) (made now : ℕ) (access refresh : Draw) (p : TokenPair)
      → generate_pair jwt env id name role made access refresh ≡ some p
      → IsAsciiSession id name role refresh
      → now + 1_000_000_000 ≤ made + refresh_token_duration
      → (c : Claims) × (parse_refresh jwt env now p.refresh_token ≡ some c)
  unfolding generate_pair generate_token parse_refresh
  parse_refresh-generate_pair id name role made now access refresh p e plain h =
      let r =
        paired-refresh
          (signed jwt env id name role (codes "access") (made + access_token_duration)
            access.issued_at access.jti)
          (signed jwt env id name role (codes "refresh") (made + refresh_token_duration)
            refresh.issued_at refresh.jti)
          p e in
      let (i, parsed) =
        signed-parse id name role (codes "refresh") (made + refresh_token_duration)
          refresh.issued_at now refresh.jti p.refresh_token r
          (λ i g.
            ascii_claims id name role (codes "refresh") refresh i (made + refresh_token_duration)
              refresh-ascii plain g)
          h in
      (
        claims_of jwt env id name role (codes "refresh") (made + refresh_token_duration)
            refresh.issued_at i,
        rw (parsed, (text_beq_iff (codes "refresh") (codes "refresh")).1 refl) refl,
      )

  consume_refresh-store_refresh :
      (token id : Text) (exp now : ℕ) (s : Store)
      → now ≤ exp
      → (s' : Store) × (consume_refresh token now (store_refresh token id exp s)
          ≡ (consumed (record { token = token; user_id = id; expires_at = exp }), s'))
        × (s'.users_by_id ≡ s.users_by_id)
  unfolding consume_refresh store_refresh
  consume_refresh-store_refresh token id exp now s h =
      let live : ltb exp now ≡ false = ground arith in
      (
        record s {
          refresh_store = delete token (
              put token (record { token = token; user_id = id; expires_at = exp }) s.refresh_store);
        },
        rw (
          get-put token token (record { token = token; user_id = id; expires_at = exp })
              s.refresh_store,
          (text_beq_iff token token).1 refl,
          live,
        ),
        refl,
      )

  module _ (bcrypt : Bcrypt) where
    -- Within seven days of a login, less one second, a refresh with its token, made on the store that
    -- the login left, is answered with 200 and a new pair for the user, if the new pair can be made
    -- and the texts of the user and of the token's identifier are ASCII.
    pub refresh-login :
        (m m' : Moment) (req : LoginRequest) (s : Store) (u : User) (p p' : TokenPair)
        → authenticate bcrypt req.username req.password s ≡ some u
        → get_by_id u.id s ≡ some u
        → pair_for jwt env u m ≡ some p
        → pair_for jwt env u m' ≡ some p'
        → IsAsciiSession u.id u.username u.role m.refresh
        → m'.checked ≤ m.stored + refresh_token_duration
        → m'.parsed + 1_000_000_000 ≤ m.generated + refresh_token_duration
        → (refresh jwt env m' (some p.refresh_token) (login jwt env bcrypt m (some req) s).1).0
          ≡ record { status = 200; body = pair p' }
    unfolding refresh login get_by_id
    refresh-login m m' req s u p p' auth known made made' plain live valid =
        let (s', consumes, same) =
          consume_refresh-store_refresh p.refresh_token u.id (m.stored + refresh_token_duration)
            m'.checked s live in
        let (c, parsed) =
          parse_refresh-generate_pair u.id u.username u.role m.generated m'.parsed m.access
            m.refresh p made plain valid in
        rw (auth, made, consumes, parsed, same, known, made')

  -- A token whose claims are not those of a refresh token, an access token in particular, is
  -- refused with 401, and so is one that does not parse.
  pub refresh-not_refresh :
      (m : Moment) (token : Text) (s : Store)
      → ((c : Claims) → parse jwt env m.parsed token ≡ some c → c.token_type ≢ codes "refresh")
      → ((refresh jwt env m (some token) s).0).status ≡ 401
  unfolding refresh
  refresh-not_refresh m token s h = status (consume_refresh token m.checked s)
    where
      refused : (o : Option Claims) → parse jwt env m.parsed token ≡ o → if_refresh jwt env o ≡ none
      refused none e = refl
      refused (some c) e = ground (arith, h c e, text_beq_iff c.token_type (codes "refresh"))

      status : (c : Consumed × Store) → ((refresh_consumed jwt env m token c).0).status ≡ 401
      status (consumed rec, s) =
          unfold parse_refresh in rw (refused (parse jwt env m.parsed token) refl)
      status (not_found, s) = refl
      status (expired, s) = refl
