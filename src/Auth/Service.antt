-- ===== src/Auth/Service.antt =====
-- The auth service as its goroutines run it: the routes of auth-service/internal/api/handler.go, and
-- each request as a task that goes from one critical section of the store to the next, so that
-- requests can overlap.
use telemetry_search_engine.Common.{
  ℕ, ◌+◌, List, [], ◌∷◌, ◌++◌, ◌≡◌, Text, codes, Option, none, some, ◌⊎◌, inl, inr,
}
use telemetry_search_engine.Auth.{
  User, RefreshRecord, Store, Bcrypt, Consumed, consumed, not_found, expired, new_store,
  authenticate, create_user, get_by_id, store_refresh, consume_refresh,
}
use telemetry_search_engine.Auth.Token.{
  Claims, TokenPair, Jwt, refresh_token_duration, parse_refresh,
}
use telemetry_search_engine.Auth.Handlers.{
  session, pair, message, Response, Moment, LoginRequest, CreateRequest, profile_of, fail, pair_for,
  validate, created_reply, list_users_handler, health,
}

-- A request as its route gets it, with what the body binds to; `none` is the error of the binding.
pub data AuthRequest : Type 0 where
  checking : AuthRequest
  entering : Moment → Option LoginRequest → AuthRequest
  renewing : Moment → Option Text → AuthRequest
  leaving : Moment → Text → AuthRequest
  validating : Moment → Option Text → AuthRequest
  registering : ℕ → Moment → Option CreateRequest → AuthRequest
  listing : AuthRequest

-- Where a request waits for the lock of the store, with what it knows there.
pub data Waiting : Type 0 where
  to_authenticate : Moment → LoginRequest → Waiting
  to_store_login : Moment → User → TokenPair → Waiting
  to_consume : Moment → Text → Waiting
  to_look_up : Moment → Text → RefreshRecord → Waiting
  to_store_refresh : Moment → Text → User → TokenPair → Waiting
  to_log_out : Moment → Text → Waiting
  to_create : ℕ → Moment → CreateRequest → Waiting
  to_list : Waiting

-- What a task comes to after a critical section: its next wait, or its answer.
abbrev pub Progress : Type 0
Progress = Waiting ⊎ Response

module _ (jwt : Jwt) (env : Text → Text) (bcrypt : Bcrypt) where
  -- A handler up to the first critical section.
  unfoldable pub begin : AuthRequest → Progress
  begin checking = inr health
  begin (entering m none) = inr (fail 400 (codes "username and password required"))
  begin (entering m (some req)) = inl (to_authenticate m req)
  begin (renewing m none) = inr (fail 400 (codes "refresh_token required"))
  begin (renewing m (some token)) = inl (to_consume m token)
  begin (leaving m []) = inr (record { status = 200; body = message (codes "logged out") })
  begin (leaving m (c ∷ token)) = inl (to_log_out m (c ∷ token))
  begin (validating m token) = inr (validate jwt env m token)
  begin (registering seed m none) = inr (fail 400 (codes "invalid request"))
  begin (registering seed m (some req)) = inl (to_create seed m req)
  begin listing = inl to_list

  abbrev pub login_entered : Moment → User → Option TokenPair → Progress
  login_entered m u none = inr (fail 500 (codes "token generation failed"))
  login_entered m u (some p) = inl (to_store_login m u p)

  abbrev pub authenticated : Moment → Option User → Progress
  authenticated m none = inr (fail 401 (codes "invalid credentials"))
  authenticated m (some u) = login_entered m u (pair_for jwt env u m)

  abbrev pub parsed : Moment → Text → RefreshRecord → Option Claims → Progress
  parsed m token rec none = inr (fail 401 (codes "invalid refresh token"))
  parsed m token rec (some c) = inl (to_look_up m token rec)

  abbrev pub after_consume : Moment → Text → Consumed → Progress
  after_consume m token (consumed rec) = parsed m token rec (parse_refresh jwt env m.parsed token)
  after_consume m token not_found = inr (fail 401 (codes "refresh token revoked or expired"))
  after_consume m token expired = inr (fail 401 (codes "refresh token revoked or expired"))

  abbrev pub renewed : Moment → Text → User → Option TokenPair → Progress
  renewed m token u none = inr (fail 500 (codes "token generation failed"))
  renewed m token u (some p) = inl (to_store_refresh m token u p)

  abbrev pub looked_up : Moment → Text → Option User → Progress
  looked_up m token none = inr (fail 401 (codes "user not found"))
  looked_up m token (some u) = renewed m token u (pair_for jwt env u m)

  -- One critical section, and the handler's code up to the next.
  unfoldable pub proceed : Waiting → Store → Progress × Store
  proceed (to_authenticate m req) s =
      (authenticated m (authenticate bcrypt req.username req.password s), s)
  proceed (to_store_login m u p) s = (
    inr (record { status = 200; body = session p (profile_of u) }),
    store_refresh p.refresh_token u.id (m.stored + refresh_token_duration) s,
  )
  proceed (to_consume m token) s =
      let (c, s') = consume_refresh token m.checked s in (after_consume m token c, s')
  proceed (to_look_up m token rec) s = (looked_up m token (get_by_id rec.user_id s), s)
  proceed (to_store_refresh m token u p) s = (
    inr (record { status = 200; body = pair p }),
    store_refresh p.refresh_token u.id (m.stored + refresh_token_duration) s,
  )
  proceed (to_log_out m token) s = (
    inr (record { status = 200; body = message (codes "logged out") }),
    (consume_refresh token m.checked s).1,
  )
  proceed (to_create seed m req) s =
      let (r, s') =
        created_reply (create_user bcrypt seed m.stored req.username req.password req.role s) in
      (inr r, s')
  proceed to_list s = (inr (list_users_handler s), s)

-- A request that has been answered.
pub record Answered : Type 0 where
  pub request : AuthRequest
  pub response : Response

-- The store, the requests on their way, and those that were answered.
pub record AuthService : Type 0 where
  pub store : Store
  pub tasks : List (AuthRequest × Waiting)
  pub answers : List Answered

module _ (jwt : Jwt) (env : Text → Text) (bcrypt : Bcrypt) where
  abbrev pub settle : AuthRequest → Progress → AuthService → AuthService
  settle req (inl t) sv = record sv { tasks = sv.tasks ++ (req, t) ∷ [] }
  settle req (inr r) sv = record sv {
    answers = record { request = req; response = r } ∷ sv.answers;
  }

  -- A request arrives, or one on its way passes its critical section, in any order.
  pub data Turn : AuthService → AuthService → Type 0 where
    arrived :
        {sv : AuthService} (req : AuthRequest) → Turn sv (settle req (begin jwt env bcrypt req) sv)
    passed :
        {sv : AuthService} (before after : List (AuthRequest × Waiting)) (req : AuthRequest)
        (t : Waiting)
        → sv.tasks ≡ before ++ (req, t) ∷ after
        → Turn sv (
            settle req (proceed jwt env bcrypt t sv.store).0 (record sv {
              store = (proceed jwt env bcrypt t sv.store).1;
              tasks = before ++ after;
            }))

  pub data Reached : AuthService → Type 0 where
    started :
        (seed now : ℕ) (s : Store)
        → new_store bcrypt env seed now ≡ some s
        → Reached (record { store = s; tasks = []; answers = [] })
    step : {sv sv' : AuthService} → Reached sv → Turn sv sv' → Reached sv'
