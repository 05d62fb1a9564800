-- ===== src/Access/Guard.antt =====
-- Which requests a guarded route lets through.
use telemetry_search_engine.Common.{
  false, eqb, ℕ, ◌+◌, ◌≤◌, ◌≡◌, refl, ap, [], ◌∷◌, ◌++◌, Text, codes, has_prefix, drop, length,
  Option, none, some, true, if◌then◌else◌, arith, Bool-cases, inl, inr,
}
use telemetry_search_engine.Auth.Token.{
  has_ascii_texts, claims_of, jwt_secret, key_func, TokenPair, Jwt, Draw, generate_pair,
  generate_token, refresh_token_duration, signed, access_token_duration,
}
use telemetry_search_engine.Auth.Sessions.{
  paired-refresh, IsAsciiSession, ascii_claims, refresh-ascii,
}
use telemetry_search_engine.Common.{text_beq}
use telemetry_search_engine.Access.{
  Checked, AccessClaims, Context, passed, aborted, role_level, has_role, bearer, parse_token,
  with_claims, require_auth, if_role, require_role, then_check, guard,
}

drop-prefix : (p s : Text) → has_prefix s p ≡ true → s ≡ p ++ drop (length p) s
unfolding has_prefix
drop-prefix [] s h = refl
drop-prefix (c ∷ p) [] h = cc
drop-prefix (c ∷ p) (d ∷ s) h =
    let same : d ≡ c = ground arith in rw same (ap (◌∷◌ c) (drop-prefix p s (ground arith)))

has_prefix-append : (p s : Text) → has_prefix (p ++ s) p ≡ true
unfolding has_prefix
has_prefix-append [] s = refl
has_prefix-append (c ∷ p) s = ground (arith, has_prefix-append p s)

drop-append : (p s : Text) → drop (length p) (p ++ s) ≡ s
drop-append [] s = refl
drop-append (c ∷ p) s = drop-append p s

writer_level : role_level (codes "writer") ≡ 2
unfolding role_level text_beq
writer_level = refl

abbrev pub IsRefusal : Checked → Type 0
IsRefusal (passed ctx) = Unit
IsRefusal (aborted status error) = eqb status 200 ≡ false

module _ (jwt : Jwt) (env : Text → Text) where
  -- The context that a request with the claims `c` gets.
  abbrev pub entered : Context → AccessClaims → Context
  entered ctx c = record ctx {
    claims = some c;
    user_id = c.user_id;
    username = c.username;
    role = c.role;
  }

  -- A request with a bearer token that parses, whose role is high enough, is let through with its
  -- claims; with a role that is too low it gets 403.
  pub guard-bearer :
      (min_role : Text) (now : ℕ) (token : Text) (ctx : Context) (c : AccessClaims)
      → parse_token jwt env now token ≡ some c
      → guard jwt env min_role now (bearer ++ token) ctx ≡ (
          if has_role c.role min_role
          then passed (entered ctx c)
          else aborted 403 (codes "insufficient permissions"))
  unfolding guard require_auth require_role
  guard-bearer min_role now token ctx c e =
      rw (has_prefix-append bearer token, drop-append bearer token, e)
        (elim (Bool-cases (has_role c.role min_role)) [ inl h ↦ rw h | inr h ↦ rw h ])

  role_passed :
      (min_role : Text) (ctx after : Context) (o : Option AccessClaims)
      → if_role min_role ctx o ≡ passed after
      → (c : AccessClaims) × (o ≡ some c)
        × (role_level min_role ≤ role_level c.role)
        × (after ≡ ctx)
  role_passed min_role ctx after none h = absurd (cc)
  role_passed min_role ctx after (some c) h = elim (Bool-cases (has_role c.role min_role)) [
    | inl e ↦ (
      c,
      refl,
      (unfold has_role in ground arith),
      (let p : passed ctx ≡ passed after = rw e at h in cc),
    )
    | inr e ↦
        absurd
          (let p : aborted 403 (codes "insufficient permissions") ≡ passed after = rw e at h in cc)
  ]

  -- What the claims of a token let pass, behind RequireAuth.
  claims_passed :
      (min_role : Text) (ctx after : Context) (o : Option AccessClaims)
      → then_check (with_claims jwt env ctx o) (require_role min_role) ≡ passed after
      → (c : AccessClaims) × (o ≡ some c)
        × (role_level min_role ≤ role_level c.role)
        × (after ≡ entered ctx c)
  unfolding require_role
  claims_passed min_role ctx after none h = absurd (cc)
  claims_passed min_role ctx after (some c) h =
      let (d, same, level, end) = role_passed min_role (entered ctx c) after (some c) h in
      let eq : c ≡ d = cc in (c, refl, (rw (← eq) at level), end)

  role-IsRefusal :
      (min_role : Text) (ctx : Context) (o : Option AccessClaims)
      → IsRefusal (if_role min_role ctx o)
  role-IsRefusal min_role ctx none = refl
  role-IsRefusal min_role ctx (some c) = elim (Bool-cases (has_role c.role min_role)) [
    | inl e ↦ rw e tt
    | inr e ↦ rw e refl
  ]

  claims-IsRefusal :
      (min_role : Text) (ctx : Context) (o : Option AccessClaims)
      → IsRefusal (then_check (with_claims jwt env ctx o) (require_role min_role))
  unfolding require_role
  claims-IsRefusal min_role ctx none = refl
  claims-IsRefusal min_role ctx (some c) = role-IsRefusal min_role (entered ctx c) (some c)

  -- Who is not let through is not answered with 200.
  pub guard-IsRefusal :
      (min_role : Text) (now : ℕ) (header : Text) (ctx : Context)
      → IsRefusal (guard jwt env min_role now header ctx)
  unfolding guard require_auth
  guard-IsRefusal min_role now [] ctx = refl
  guard-IsRefusal min_role now (b ∷ header) ctx =
      elim (Bool-cases (has_prefix (b ∷ header) bearer)) [
        | inl e ↦ rw e (
            claims-IsRefusal min_role ctx
              (parse_token jwt env now (drop (length bearer) (b ∷ header))))
        | inr e ↦ rw e refl
      ]

  -- A request that a guarded route lets through has a bearer token that parses to claims whose role
  -- is high enough, and its handler gets those claims.
  pub guard_passed :
      (min_role : Text) (now : ℕ) (header : Text) (ctx after : Context)
      → guard jwt env min_role now header ctx ≡ passed after
      → (token : Text) × (c : AccessClaims) × (header ≡ bearer ++ token)
        × (parse_token jwt env now token ≡ some c)
        × (role_level min_role ≤ role_level c.role)
        × (after ≡ entered ctx c)
  unfolding guard require_auth
  guard_passed min_role now [] ctx after h = absurd (cc)
  guard_passed min_role now (b ∷ header) ctx after h =
      elim (Bool-cases (has_prefix (b ∷ header) bearer)) [
        | inl e ↦
            let token = drop (length bearer) (b ∷ header) in
            let (c, parsed, level, end) =
              claims_passed min_role ctx after (parse_token jwt env now token) (rw e at h) in
            (token, c, drop-prefix bearer (b ∷ header) e, parsed, level, end)
        | inr e ↦
            absurd
              (let p : aborted 401 (codes "bearer token required") ≡ passed after = rw e at h in cc)
      ]

  -- A caller with a bearer token of a writer, or of a role above.
  abbrev pub IsWriter : ℕ → Text → Type 0
  IsWriter now header =
      (token : Text) × (c : AccessClaims) × (header ≡ bearer ++ token)
      × (parse_token jwt env now token ≡ some c)
      × (2 ≤ role_level c.role)

  -- The routes for writers let no one else through.
  pub guard-IsWriter :
      (now : ℕ) (header : Text) (ctx after : Context)
      → guard jwt env (codes "writer") now header ctx ≡ passed after
      → IsWriter now header
  guard-IsWriter now header ctx after e =
      let (token, c, bears, parsed, level, _) =
        guard_passed (codes "writer") now header ctx after e in
      (token, c, bears, parsed, omega (arith, writer_level, level))

  -- They let a writer in.
  pub guard-lets_in :
      (now : ℕ) (header : Text) (ctx : Context)
      → IsWriter now header
      → (after : Context) × (guard jwt env (codes "writer") now header ctx ≡ passed after)
  guard-lets_in now header ctx (token, c, bears, parsed, level) =
      let high : has_role c.role (codes "writer") ≡ true =
        unfold has_role in ground (arith, writer_level) in
      (entered ctx c, rw (bears, guard-bearer (codes "writer") now token ctx c parsed, high) refl)

  -- A refresh token passes where an access token is meant: the one of a pair is let through every
  -- guarded route that the user's role reaches, until a second before seven days have passed, if
  -- the texts of the user and of the token's identifier are ASCII.
  pub guard_refresh_token :
      (min_role id name role : Text) (made now : ℕ) (access refresh : Draw) (p : TokenPair)
      (ctx : Context)
      → generate_pair jwt env id name role made access refresh ≡ some p
      → IsAsciiSession jwt env id name role refresh
      → now + 1_000_000_000 ≤ made + refresh_token_duration
      → has_role role min_role ≡ true
      → guard jwt env min_role now (bearer ++ p.refresh_token) ctx
        ≡ passed (entered ctx (record { user_id = id; username = name; role = role }))
  unfolding generate_pair generate_token
  guard_refresh_token min_role id name role made now access refresh p ctx e plain live high =
      let made' =
        paired-refresh jwt env
          (signed jwt env id name role (codes "access") (made + access_token_duration)
            access.issued_at access.jti)
          (signed jwt env id name role (codes "refresh") (made + refresh_token_duration)
            refresh.issued_at refresh.jti)
          p e in
      let c : AccessClaims = record { user_id = id; username = name; role = role } in
      let read : parse_token jwt env now p.refresh_token ≡ some c =
        parsed refresh.jti p.refresh_token refresh.issued_at made'
          (λ i g.
            ascii_claims jwt env id name role (codes "refresh") refresh i
              (made + refresh_token_duration) (refresh-ascii jwt env) plain g)
          live in
      rw (guard-bearer min_role now p.refresh_token ctx c read, high)
    where
      parsed :
          (jti : Option Text) (token : Text) (issued : ℕ)
          → signed jwt env id name role (codes "refresh") (made + refresh_token_duration) issued jti
            ≡ some token
          → ((i : Text)
              → jti ≡ some i
              → has_ascii_texts (
                  claims_of jwt env id name role
                    (codes "refresh")
                    (made + refresh_token_duration)
                    issued
                    i)
                ≡ true)
          → now + 1_000_000_000 ≤ made + refresh_token_duration
          → parse_token jwt env now token
            ≡ some (record { user_id = id; username = name; role = role })
      parsed none token issued s plain l = absurd (cc)
      parsed (some jti) token issued s plain l =
          unfold parse_token key_func in
          rw (
            jwt.parses (jwt_secret env) token
              (claims_of jwt env id name role (codes "refresh") (made + refresh_token_duration)
                issued jti)
              (key_func env) now s refl (jwt.truncates_once (made + refresh_token_duration))
              (jwt.truncates_once issued) (plain jti refl)
              (omega (arith, (jwt.truncates (made + refresh_token_duration)).1)))
