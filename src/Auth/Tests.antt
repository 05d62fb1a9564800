-- ===== src/Auth/Tests.antt =====
-- Runs of the auth service.
use telemetry_search_engine.Common.{
  is_ascii, ℕ, ◌+◌, ◌*◌, ap, sym, ◌∙◌, put, ◌≡◌, ◌≢◌, refl, [], ◌∷◌, Text, codes, none, some, get,
  text_beq, text_eq, arith, length,
}
use telemetry_search_engine.Auth
use telemetry_search_engine.Auth.Token
use telemetry_search_engine.Auth.{
  User, Store, Bcrypt, username_exists, new_user, new_store, create_user, authenticate, get_by_id,
  store_refresh,
}
use telemetry_search_engine.Auth.Token.{
  Claims, TokenPair, Jwt, Method, hmac, Draw, refresh_token_duration, generate_pair, parse,
  parse_refresh,
}
use telemetry_search_engine.Auth.Validated.{validate-login}
use telemetry_search_engine.Auth.Handlers.{
  session, valid_claims, profile_of, validate, pair, Moment, fail, pair_for, login, refresh,
}
use telemetry_search_engine.Auth.Rotation.{Fresh, refresh-refresh}
use telemetry_search_engine.Auth.Sessions.{IsAsciiSession, refresh-login}
use telemetry_search_engine.Auth.Users.{IsConsistent, authenticate-create_user}
use telemetry_search_engine.Auth.Toy.{plain, decode, decode-encode, encode, toy}

abbrev env : Text → Text
env key = []

abbrev moment : ℕ → Text → Text → Moment
moment now a r = record {
  checked = now;
  parsed = now;
  generated = now;
  stored = now;
  access = record { jti = some a; issued_at = now };
  refresh = record { jti = some r; issued_at = now };
}

abbrev no_users : Store
no_users = record { users = []; users_by_id = []; refresh_store = [] }

abbrev ann : User
ann = new_user (codes "ann") (codes "secret") (codes "reader") 5

-- The store with one user.
abbrev one_user : Store
one_user = (create_user plain 0 5 (codes "ann") (codes "secret") (codes "reader") no_users).1

no_users-IsConsistent : IsConsistent no_users
unfolding get
no_users-IsConsistent = record { same = λ k. refl; keyed = λ k u e. cc }

free_ann : get (codes "ann") no_users.users ≡ none
unfolding get
free_ann = refl

authenticate-create_user_example :
    (authenticate plain (codes "ann") (codes "secret") one_user ≡ some ann)
    × ((other given : Text)
        → other ≢ codes "ann"
        → authenticate plain other given one_user ≡ authenticate plain other given no_users)
    × ((seed' now' : ℕ) (given role' : Text)
        → create_user plain seed' now' (codes "ann") given role' one_user
          ≡ (username_exists, one_user))
authenticate-create_user_example =
    authenticate-create_user plain 0 5 (codes "ann") (codes "secret") (codes "reader")
      (codes "secret") no_users free_ann refl

abbrev pair_of : ℕ → Text → Text → TokenPair
pair_of now a r = record {
  access_token = encode (
      Token.claims_of toy env (codes "ann") (codes "ann") (codes "reader") (codes "access")
        (now + 15 * 60 * 1_000_000_000) now a);
  refresh_token = encode (
      Token.claims_of toy env (codes "ann") (codes "ann") (codes "reader") (codes "refresh")
        (now + refresh_token_duration) now r);
  expires_in = 900;
}

pair_for-pair_of :
    (now : ℕ) (a r : Text) → pair_for toy env ann (moment now a r) ≡ some (pair_of now a r)
unfolding generate_pair Token.generate_token
pair_for-pair_of now a r = refl

abbrev rest_of : Text → Text
rest_of [] = []
rest_of (c ∷ s) = s

abbrev jti_of : Text → Text
jti_of token = (decode token).jti

-- A request whose refresh token has the identifier `r` issues no token with another.
moment-Fresh :
    (now : ℕ) (a r token : Text) → jti_of token ≢ r → Fresh toy env (moment now a r) token
unfolding generate_pair Token.generate_token
moment-Fresh now a r token d u p e same =
    let c =
      Token.claims_of toy env u.id u.username u.role (codes "refresh")
        (now + refresh_token_duration) now r in
    let issued : encode c ≡ p.refresh_token = cc in
    d (ap jti_of (sym (issued ∙ same)) ∙ ap (λ (x : Claims). x.jti) (decode-encode c))

-- Ann logs in at 5 and gets the token "r1".
abbrev logged_in : Store
logged_in =
    (login toy env plain (moment 5 (codes "a1") (codes "first"))
      (some (record { username = codes "ann"; password = codes "secret" })) one_user).1

abbrev r1 : Text
r1 = (pair_of 5 (codes "a1") (codes "first")).refresh_token

abbrev later : Moment
later = moment 9 (codes "a2") (codes "second")

five-six : ◌≢◌ {A = ℕ} 5 6
five-six h = absurd (omega arith)

six-seven : ◌≢◌ {A = ℕ} 6 7
six-seven h = absurd (omega arith)

r1-jti : jti_of r1 ≢ codes "second"
r1-jti e =
    let h : codes "first" ≡ codes "second" =
      sym (
        ap (λ (x : Claims). x.jti)
          (decode-encode (
            Token.claims_of toy env (codes "ann") (codes "ann") (codes "reader") (codes "refresh")
              (5 + refresh_token_duration) 5 (codes "first"))))
      ∙ e in
    five-six (ap length h)

later-Fresh : Fresh toy env later r1
later-Fresh = moment-Fresh 9 (codes "a2") (codes "second") r1 r1-jti

abbrev refreshed : Store
refreshed = (refresh toy env later (some r1) logged_in).1

refresh-refresh_example :
    refresh toy env later (some r1) refreshed
    ≡ (fail 401 (codes "refresh token revoked or expired"), refreshed)
refresh-refresh_example = refresh-refresh toy env later later r1 logged_in later-Fresh

abbrev first_login : Moment
first_login = moment 5 (codes "a1") (codes "first")

known_ann : authenticate plain (codes "ann") (codes "secret") one_user ≡ some ann
known_ann = authenticate-create_user_example.0

stored_ann : get_by_id (codes "ann") one_user ≡ some ann
unfolding get_by_id create_user Auth.add_user get put text_beq
stored_ann = refl

session-IsAscii :
    IsAsciiSession toy env ann.id ann.username ann.role
      (record { jti = some (codes "first"); issued_at = 5 })
unfolding is_ascii
session-IsAscii = (refl, refl, refl, λ jti e. let h : codes "first" ≡ jti = cc in rw (← h) refl)

access-IsAscii :
    IsAsciiSession toy env ann.id ann.username ann.role
      (record { jti = some (codes "a1"); issued_at = 5 })
unfolding is_ascii
access-IsAscii = (refl, refl, refl, λ jti e. let h : codes "a1" ≡ jti = cc in rw (← h) refl)

validate-login_example :
    ((login toy env plain first_login
        (some (record { username = codes "ann"; password = codes "secret" }))
        one_user).0
      ≡ record {
        status = 200;
        body = session (pair_of 5 (codes "a1") (codes "first")) (profile_of ann);
      })
    × (validate toy env later (some (pair_of 5 (codes "a1") (codes "first")).access_token)
        ≡ record { status = 200; body = valid_claims (profile_of ann) })
validate-login_example =
    validate-login toy env plain first_login later
      (record { username = codes "ann"; password = codes "secret" }) one_user ann
      (pair_of 5 (codes "a1") (codes "first")) known_ann
      (pair_for-pair_of 5 (codes "a1") (codes "first")) access-IsAscii (omega arith)

refresh-login_example :
    (refresh toy env later (some r1) logged_in).0
    ≡ record { status = 200; body = pair (pair_of 9 (codes "a2") (codes "second")) }
refresh-login_example =
    refresh-login toy env plain first_login later
      (record { username = codes "ann"; password = codes "secret" }) one_user ann
      (pair_of 5 (codes "a1") (codes "first")) (pair_of 9 (codes "a2") (codes "second")) known_ann
      stored_ann (pair_for-pair_of 5 (codes "a1") (codes "first"))
      (pair_for-pair_of 9 (codes "a2") (codes "second")) session-IsAscii (omega arith) (omega arith)

made_at_5 :
    generate_pair toy env
      (codes "ann")
      (codes "ann")
      (codes "reader")
      5
      (record { jti = some (codes "a1"); issued_at = 5 })
      (record { jti = some (codes "first"); issued_at = 5 })
    ≡ some (pair_of 5 (codes "a1") (codes "first"))
made_at_5 = pair_for-pair_of 5 (codes "a1") (codes "first")

-- An access token is no refresh token.
abbrev access : Text
access = (pair_of 5 (codes "a1") (codes "first")).access_token

access-type : (c : Claims) → parse toy env 9 access ≡ some c → c.token_type ≢ codes "refresh"
unfolding parse Token.key_func
access-type c e t =
    let a =
      Token.claims_of toy env (codes "ann") (codes "ann") (codes "reader") (codes "access")
        (5 + 15 * 60 * 1_000_000_000) 5 (codes "a1") in
    let h : some a ≡ some c = rw (decode-encode a) at e in
    let same : codes "access" ≡ codes "refresh" =
      ap (λ (x : Claims). x.token_type) (let h' : a ≡ c = cc in h') ∙ t in
    six-seven (ap length same)
