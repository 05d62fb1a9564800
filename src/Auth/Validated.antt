-- ===== src/Auth/Validated.antt =====
-- What the validation of a token answers in a session.
use telemetry_search_engine.Common.{
  ◌+◌, ◌≤◌, ◌≡◌, Text, codes, Option, none, some, arith, is_ascii, true, refl,
}
use telemetry_search_engine.Auth.{User, Store, Bcrypt, authenticate}
use telemetry_search_engine.Auth.Token.{
  TokenPair, Jwt, signed, paired, access_token_duration, refresh_token_duration, generate_token,
  generate_pair,
}
use telemetry_search_engine.Auth.Handlers.{
  session, valid_claims, Moment, LoginRequest, profile_of, pair_for, login, validate,
}
use telemetry_search_engine.Auth.Sessions.{IsAsciiSession, ascii_claims, signed-parse}

module _ (jwt : Jwt) (env : Text → Text) where
  paired-access :
      (a r : Option Text) (p : TokenPair) → paired jwt env a r ≡ some p → a ≡ some p.access_token
  paired-access none r p e = cc
  paired-access (some a) none p e = cc
  paired-access (some a) (some r) p e = ground arith

  access-ascii : is_ascii (codes "access") ≡ true
  unfolding is_ascii
  access-ascii = refl

  -- A login of a user whose pair can be made answers with the pair and the user's profile; and until
  -- a second before a quarter of an hour has passed the access token of that pair is validated with
  -- this same profile, if the texts of the user and of the token's identifier are ASCII.
  pub validate-login :
      (bcrypt : Bcrypt) (m m' : Moment) (req : LoginRequest) (s : Store) (u : User) (p : TokenPair)
      → authenticate bcrypt req.username req.password s ≡ some u
      → pair_for jwt env u m ≡ some p
      → IsAsciiSession jwt env u.id u.username u.role m.access
      → m'.parsed + 1_000_000_000 ≤ m.generated + access_token_duration
      → ((login jwt env bcrypt m (some req) s).0
          ≡ record { status = 200; body = session p (profile_of u) })
        × (validate jwt env m' (some p.access_token)
            ≡ record { status = 200; body = valid_claims (profile_of u) })
  unfolding login validate generate_pair generate_token
  validate-login bcrypt m m' req s u p auth made plain live =
      let access =
        paired-access
          (signed jwt env u.id u.username u.role (codes "access")
            (m.generated + access_token_duration) m.access.issued_at m.access.jti)
          (signed jwt env u.id u.username u.role (codes "refresh")
            (m.generated + refresh_token_duration) m.refresh.issued_at m.refresh.jti)
          p made in
      let (i, parsed) =
        signed-parse jwt env u.id u.username u.role (codes "access")
          (m.generated + access_token_duration) m.access.issued_at m'.parsed m.access.jti
          p.access_token access
          (λ i g.
            ascii_claims jwt env u.id u.username u.role (codes "access") m.access i
              (m.generated + access_token_duration) access-ascii plain g)
          live in
      (rw (auth, made) refl, rw parsed refl)
