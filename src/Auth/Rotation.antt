-- ===== src/Auth/Rotation.antt =====
-- Refresh tokens: each is used at most once, and a login's token refreshes the session.
use telemetry_search_engine.Common.{
  ℕ, ◌+◌, ◌≡◌, ◌≢◌, refl, ap, ◌∷◌, Text, codes, Option, none, some, get, get-put, get-delete,
  text_eq, text_beq, text_beq_iff, false, arith, Option-cases, inl, inr,
}
use telemetry_search_engine.Auth.{
  User, RefreshRecord, Store, Consumed, consumed, not_found, expired, get_by_id, store_refresh,
  consume_refresh,
}
use telemetry_search_engine.Auth.Token.{
  Claims, TokenPair, Jwt, refresh_token_duration, parse_refresh,
}
use telemetry_search_engine.Auth.Handlers.{
  Body, pair, Response, Moment, fail, pair_for, issue, refresh_for, refresh_parsed,
  refresh_consumed, refresh, logout,
}

-- Whatever ConsumeRefresh answers, the token is not in the store afterwards.
consume_refresh-gone :
    (token : Text) (now : ℕ) (s : Store)
    → get token ((consume_refresh token now s).1).refresh_store ≡ none
unfolding consume_refresh
consume_refresh-gone token now s = elim (Option-cases (get token s.refresh_store)) [
  | inl e ↦ rw (e, e)
  | inr (rec, e) ↦ rw (e, get-delete token token s.refresh_store, (text_beq_iff token token).1 refl)
]

consume_refresh-not_found :
    (token : Text) (now : ℕ) (s : Store)
    → get token s.refresh_store ≡ none
    → consume_refresh token now s ≡ (not_found, s)
unfolding consume_refresh
consume_refresh-not_found token now s e = rw e

module _ (jwt : Jwt) (env : Text → Text) where
  -- The tokens that a request may issue differ from `token`.
  abbrev pub Fresh : Moment → Text → Type 0
  Fresh m token =
      (u : User) (p : TokenPair) → pair_for jwt env u m ≡ some p → p.refresh_token ≢ token

  module _ (m : Moment) (token : Text) (new : Fresh m token) where
    abbrev Gone : Response × Store → Type 0
    Gone (_, s) = get token s.refresh_store ≡ none

    issue-Gone :
        (reply : TokenPair → Body) (u : User) (s : Store) (o : Option TokenPair)
        → pair_for jwt env u m ≡ o
        → get token s.refresh_store ≡ none
        → Gone (issue jwt env reply u m s o)
    issue-Gone reply u s none e h = h
    issue-Gone reply u s (some p) e h =
        let differs : text_beq p.refresh_token token ≡ false =
          ground (arith, text_beq_iff p.refresh_token token, new u p e) in
        issued p differs
      where
        issued :
            (p : TokenPair)
            → text_beq p.refresh_token token ≡ false
            → get token
                (store_refresh p.refresh_token u.id
                  (m.stored + refresh_token_duration)
                  s).refresh_store
              ≡ none
        issued p d =
            unfold store_refresh in rw (get-put p.refresh_token token _ s.refresh_store, d) h

    refresh_for-Gone :
        (s : Store) (o : Option User)
        → get token s.refresh_store ≡ none
        → Gone (refresh_for jwt env m s o)
    refresh_for-Gone s none h = h
    refresh_for-Gone s (some u) h = issue-Gone pair u s (pair_for jwt env u m) refl h

    refresh_parsed-Gone :
        (rec : RefreshRecord) (s : Store) (o : Option Claims)
        → get token s.refresh_store ≡ none
        → Gone (refresh_parsed jwt env m rec s o)
    refresh_parsed-Gone rec s none h = h
    refresh_parsed-Gone rec s (some c) h = refresh_for-Gone s (get_by_id rec.user_id s) h

    refresh_consumed-Gone :
        (c : Consumed × Store)
        → get token (c.1).refresh_store ≡ none
        → Gone (refresh_consumed jwt env m token c)
    refresh_consumed-Gone (consumed rec, s) h =
        refresh_parsed-Gone rec s (parse_refresh jwt env m.parsed token) h
    refresh_consumed-Gone (not_found, s) h = h
    refresh_consumed-Gone (expired, s) h = h

    refresh-Gone : (s : Store) → Gone (refresh jwt env m (some token) s)
    unfolding refresh
    refresh-Gone s =
        refresh_consumed-Gone (consume_refresh token m.checked s)
          (consume_refresh-gone token m.checked s)

  -- A refresh token is used at most once: whatever the first request was answered, a second one
  -- with the same token is answered 401 and changes nothing, if the first did not issue that token
  -- anew.
  pub refresh-refresh :
      (m m' : Moment) (token : Text) (s : Store)
      → Fresh m token
      → refresh jwt env m' (some token) (refresh jwt env m (some token) s).1 ≡ (
        fail 401 (codes "refresh token revoked or expired"),
        (refresh jwt env m (some token) s).1,
      )
  unfolding refresh
  refresh-refresh m m' token s new =
      let after = (refresh jwt env m (some token) s).1 in
      ap (refresh_consumed jwt env m' token)
        (consume_refresh-not_found token m'.checked after (refresh-Gone m token new s))

  -- After a logout the token does not refresh a session any more.
  pub refresh-logout :
      (m m' : Moment) (c : ℕ) (rest : Text) (s : Store)
      → let after = (logout m (c ∷ rest) s).1 in
        refresh jwt env m' (some (c ∷ rest)) after
        ≡ (fail 401 (codes "refresh token revoked or expired"), after)
  unfolding refresh logout
  refresh-logout m m' c rest s = ap (refresh_consumed jwt env m' (c ∷ rest)) (
      consume_refresh-not_found (c ∷ rest) m'.checked (consume_refresh (c ∷ rest) m.checked s).1
        (consume_refresh-gone (c ∷ rest) m.checked s))
