-- ===== src/Auth/Grants.antt =====
-- Refresh tokens under overlapping requests.
use telemetry_search_engine.Common.{
  ℕ, ◌+◌, ◌≤◌, ◌≡◌, refl, Text, Option, none, some, get, get-put, get-delete, delete, ltb, text_eq,
  text_beq, text_beq_iff, Bool, eqb, if◌then◌else◌, arith, inl, inr,
}
use telemetry_search_engine.Auth.{
  User, RefreshRecord, Store, Bcrypt, Consumed, consumed, not_found, expired, authenticate,
  add_user, create_user, get_by_id, store_refresh, consume_refresh, consume_found,
}
use telemetry_search_engine.Auth.Token.{
  refresh_token_duration, Claims, TokenPair, Jwt, parse_refresh,
}
use telemetry_search_engine.Auth.Handlers.{
  Body, failure, session, pair, message, valid_claims, account, accounts, Moment, LoginRequest,
  CreateRequest, pair_for, created_reply,
}
use telemetry_search_engine.Auth.Service.{
  AuthRequest, entering, renewing, leaving, registering, listing, Waiting, to_authenticate,
  to_store_login, to_consume, to_look_up, to_store_refresh, to_log_out, to_create, to_list,
  Progress, login_entered, authenticated, parsed, after_consume, renewed, looked_up, proceed,
  Answered,
}

-- The refresh token that a body hands out.
abbrev pub token_in : Body → Option Text
token_in (session p u) = some p.refresh_token
token_in (pair p) = some p.refresh_token
token_in (failure e) = none
token_in (message e) = none
token_in (valid_claims u) = none
token_in (account u t) = none
token_in (accounts us n) = none

abbrev pub one_if : Bool → ℕ
one_if b = if b then 1 else 0

abbrev pub is_token : Text → Option Text → ℕ
is_token k none = 0
is_token k (some token) = one_if (text_beq token k)

-- Whether an answer hands out a token.
abbrev pub hands : Text → Answered → ℕ
hands k a = is_token k (token_in a.response.body)

abbrev pub asks : Text → AuthRequest → ℕ
asks k (renewing m token) = is_token k token
asks k _ = 0

-- Whether an answer grants a refresh that was asked for with a token.
abbrev pub grants : Text → Answered → ℕ
grants k a = if eqb a.response.status 200 then asks k a.request else 0

-- Whether a request on its way has consumed a token.
abbrev pub holds : Text → AuthRequest × Waiting → ℕ
holds k (req, to_look_up m token rec) = is_token k (some token)
holds k (req, to_store_refresh m token u p) = is_token k (some token)
holds k (req, _) = 0

abbrev pub stored_in : Option RefreshRecord → ℕ
stored_in none = 0
stored_in (some rec) = 1

abbrev pub stored : Text → Store → ℕ
stored k s = stored_in (get k s.refresh_store)

-- A task on its way for a request of its kind.
abbrev pub Fits : AuthRequest × Waiting → Type 0
Fits (req, to_authenticate m r) = req ≡ entering m (some r)
Fits (req, to_store_login m u p) = (r : Option LoginRequest) × (req ≡ entering m r)
Fits (req, to_consume m token) = req ≡ renewing m (some token)
Fits (req, to_look_up m token rec) = req ≡ renewing m (some token)
Fits (req, to_store_refresh m token u p) = req ≡ renewing m (some token)
Fits (req, to_log_out m token) = req ≡ leaving m token
Fits (req, to_create seed m r) = req ≡ registering seed m (some r)
Fits (req, to_list) = req ≡ listing

-- What an outcome adds to the grants and to the tokens held, and what it hands out.
abbrev pub spends : Text → AuthRequest → Progress → ℕ
spends k req (inl t) = holds k (req, t)
spends k req (inr r) = grants k (record { request = req; response = r })

abbrev pub earns : Text → AuthRequest → Progress → ℕ
earns k req (inl t) = 0
earns k req (inr r) = hands k (record { request = req; response = r })

abbrev pub FitsOutcome : AuthRequest → Progress → Type 0
FitsOutcome req (inl t) = Fits (req, t)
FitsOutcome req (inr r) = Unit

stored-store_refresh :
    (k token user_id : Text) (exp : ℕ) (s : Store)
    → stored k (store_refresh token user_id exp s) ≤ stored k s + one_if (text_beq token k)
unfolding store_refresh
stored-store_refresh k token user_id exp s = ground (
  arith,
  get-put token k (record { token = token; user_id = user_id; expires_at = exp }) s.refresh_store,
)

stored-delete :
    (k token : Text) (s : Store) (rec : RefreshRecord)
    → get token s.refresh_store ≡ some rec
    → stored k (record s { refresh_store = delete token s.refresh_store }) + is_token k (some token)
      ≤ stored k s
stored-delete k token s rec e =
    ground (arith, get-delete token k s.refresh_store, text_beq_iff token k)

module _ (jwt : Jwt) (env : Text → Text) (bcrypt : Bcrypt) where
  -- A critical section spends no more than was held, stored or is handed out.
  abbrev pub Balances : Text → AuthRequest → Waiting → Store → Progress × Store → Type 0
  Balances k req t s (o, s') =
      spends k req o + stored k s' ≤ holds k (req, t) + stored k s + earns k req o

  login_spends :
      (k : Text) (req : AuthRequest) (m : Moment) (o : Option User)
      → spends k req (authenticated jwt env bcrypt m o) ≡ 0
  login_spends k req m none = refl
  login_spends k req m (some u) = made (pair_for jwt env u m)
    where
      made : (p : Option TokenPair) → spends k req (login_entered jwt env bcrypt m u p) ≡ 0
      made none = refl
      made (some p) = refl

  consume_spends :
      (k : Text) (m : Moment) (token : Text) (c : Consumed)
      → spends k (renewing m (some token)) (after_consume jwt env bcrypt m token c)
        ≤ is_token k (some token)
  consume_spends k m token not_found = omega arith
  consume_spends k m token expired = omega arith
  consume_spends k m token (consumed rec) = read (parse_refresh jwt env m.parsed token)
    where
      read :
          (o : Option Claims)
          → spends k (renewing m (some token)) (parsed jwt env bcrypt m token rec o)
            ≤ is_token k (some token)
      read none = omega arith
      read (some c) = omega arith

  consume_balance :
      (k : Text) (m : Moment) (token : Text) (s : Store) (o : Option RefreshRecord)
      → get token s.refresh_store ≡ o
      → let (c, s') = consume_found token m.checked s o in
        Balances k
          (renewing m (some token))
          (to_consume m token)
          s
          (after_consume jwt env bcrypt m token c, s')
  consume_balance k m token s none e = omega arith
  consume_balance k m token s (some rec) e = omega (
    arith,
    stored-delete k token s rec e,
    consume_spends k m token (if ltb rec.expires_at m.checked then expired else consumed rec),
  )

  look_up_spends :
      (k : Text) (m : Moment) (token : Text) (o : Option User)
      → spends k (renewing m (some token)) (looked_up jwt env bcrypt m token o)
        ≤ is_token k (some token)
  look_up_spends k m token none = omega arith
  look_up_spends k m token (some u) = made (pair_for jwt env u m)
    where
      made :
          (p : Option TokenPair)
          → spends k (renewing m (some token)) (renewed jwt env bcrypt m token u p)
            ≤ is_token k (some token)
      made none = omega arith
      made (some p) = omega arith

  created_refresh_store :
      (seed : ℕ) (m : Moment) (r : CreateRequest) (s : Store)
      → ((created_reply (create_user bcrypt seed m.stored r.username r.password r.role s)).1
        ).refresh_store
        ≡ s.refresh_store
  unfolding create_user add_user
  created_refresh_store seed m r s = ground arith

  log_out_balance :
      (k : Text) (m : Moment) (token : Text) (s : Store)
      → stored k (consume_refresh token m.checked s).1 ≤ stored k s
  unfolding consume_refresh
  log_out_balance k m token s = ground (arith, get-delete token k s.refresh_store)

  -- Each critical section spends no more than it had.
  pub proceed_balance :
      (k : Text) (req : AuthRequest) (t : Waiting) (s : Store)
      → Fits (req, t)
      → Balances k req t s (proceed jwt env bcrypt t s)
  unfolding proceed
  proceed_balance k req (to_authenticate m r) s f =
      omega (arith, login_spends k req m (authenticate bcrypt r.username r.password s))
  proceed_balance k req (to_store_login m u p) s (r, f) = rw f (
      omega
        (arith, stored-store_refresh k p.refresh_token u.id (m.stored + refresh_token_duration) s))
  proceed_balance k req (to_consume m token) s f =
      rw f (unfold consume_refresh in consume_balance k m token s (get token s.refresh_store) refl)
  proceed_balance k req (to_look_up m token rec) s f =
      rw f (omega (arith, look_up_spends k m token (get_by_id rec.user_id s)))
  proceed_balance k req (to_store_refresh m token u p) s f = rw f (
      omega
        (arith, stored-store_refresh k p.refresh_token u.id (m.stored + refresh_token_duration) s))
  proceed_balance k req (to_log_out m token) s f = rw f (omega (arith, log_out_balance k m token s))
  proceed_balance k req (to_create seed m r) s f =
      rw (f, created_refresh_store seed m r s) (ground arith)
  proceed_balance k req to_list s f = rw f (ground arith)
