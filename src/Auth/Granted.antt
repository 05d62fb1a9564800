-- ===== src/Auth/Granted.antt =====
-- What holds of the auth service in whatever order its requests overlap.
use telemetry_search_engine.Common.{
  ℕ, ◌+◌, ◌≤◌, ◌≡◌, refl, ap, ◌∙◌, [], ◌∷◌, ◌++◌, Text, Option, none, some, get, text_eq, All,
  All-append, All-middle, arith, inl, inr, sum_of, sum_of-append,
}
use telemetry_search_engine.Auth.{
  User, RefreshRecord, Store, Bcrypt, Consumed, consumed, not_found, expired, Created, authenticate,
  create_user, get_by_id, store_refresh, consume_refresh, consume_found, must_create, add_user,
  new_store, seed_admin, seed_writer, seed_reader, ◌>>=◌,
}
use telemetry_search_engine.Auth.Token.{Claims, TokenPair, Jwt, parse_refresh}
use telemetry_search_engine.Auth.Handlers.{Moment, LoginRequest, pair_for, created_reply}
use telemetry_search_engine.Auth.Users.{
  IsConsistent, create_user-IsConsistent, new_store-IsConsistent,
}
use telemetry_search_engine.Auth.Service.{
  AuthRequest, checking, entering, renewing, leaving, validating, registering, listing, Waiting,
  to_authenticate, to_store_login, to_consume, to_look_up, to_store_refresh, to_log_out, to_create,
  to_list, Progress, begin, login_entered, authenticated, parsed, after_consume, renewed, looked_up,
  proceed, AuthService, settle, Turn, arrived, passed, Reached, started, step,
}
use telemetry_search_engine.Auth.Grants.{
  hands, grants, holds, stored, Fits, FitsOutcome, spends, earns, proceed_balance,
}

module _ (jwt : Jwt) (env : Text → Text) (bcrypt : Bcrypt) where
  begin-Fits : (req : AuthRequest) → FitsOutcome req (begin jwt env bcrypt req)
  unfolding begin
  begin-Fits checking = tt
  begin-Fits (entering m none) = tt
  begin-Fits (entering m (some r)) = refl
  begin-Fits (renewing m none) = tt
  begin-Fits (renewing m (some token)) = refl
  begin-Fits (leaving m []) = tt
  begin-Fits (leaving m (c ∷ token)) = refl
  begin-Fits (validating m token) = tt
  begin-Fits (registering seed m none) = tt
  begin-Fits (registering seed m (some r)) = refl
  begin-Fits listing = refl

  spends-begin : (k : Text) (req : AuthRequest) → spends k req (begin jwt env bcrypt req) ≡ 0
  unfolding begin
  spends-begin k checking = ground arith
  spends-begin k (entering m none) = refl
  spends-begin k (entering m (some r)) = refl
  spends-begin k (renewing m none) = refl
  spends-begin k (renewing m (some token)) = refl
  spends-begin k (leaving m []) = refl
  spends-begin k (leaving m (c ∷ token)) = refl
  spends-begin k (validating m token) = ground arith
  spends-begin k (registering seed m none) = refl
  spends-begin k (registering seed m (some r)) = refl
  spends-begin k listing = refl

  login-Fits :
      (req : AuthRequest) (m : Moment) (r : Option LoginRequest) (o : Option User)
      → req ≡ entering m r
      → FitsOutcome req (authenticated jwt env bcrypt m o)
  login-Fits req m r none e = tt
  login-Fits req m r (some u) e = made (pair_for jwt env u m)
    where
      made : (p : Option TokenPair) → FitsOutcome req (login_entered jwt env bcrypt m u p)
      made none = tt
      made (some p) = (r, e)

  look_up-Fits :
      (req : AuthRequest) (m : Moment) (token : Text) (o : Option User)
      → req ≡ renewing m (some token)
      → FitsOutcome req (looked_up jwt env bcrypt m token o)
  look_up-Fits req m token none e = tt
  look_up-Fits req m token (some u) e = made (pair_for jwt env u m)
    where
      made : (p : Option TokenPair) → FitsOutcome req (renewed jwt env bcrypt m token u p)
      made none = tt
      made (some p) = e

  consume-Fits :
      (req : AuthRequest) (m : Moment) (token : Text) (c : Consumed)
      → req ≡ renewing m (some token)
      → FitsOutcome req (after_consume jwt env bcrypt m token c)
  consume-Fits req m token not_found e = tt
  consume-Fits req m token expired e = tt
  consume-Fits req m token (consumed rec) e = read (parse_refresh jwt env m.parsed token)
    where
      read : (o : Option Claims) → FitsOutcome req (parsed jwt env bcrypt m token rec o)
      read none = tt
      read (some c) = e

  proceed-Fits :
      (req : AuthRequest) (t : Waiting) (s : Store)
      → Fits (req, t)
      → FitsOutcome req (proceed jwt env bcrypt t s).0
  unfolding proceed
  proceed-Fits req (to_authenticate m r) s f =
      login-Fits req m (some r) (authenticate bcrypt r.username r.password s) f
  proceed-Fits req (to_store_login m u p) s f = tt
  proceed-Fits req (to_consume m token) s f =
      consume-Fits req m token (consume_refresh token m.checked s).0 f
  proceed-Fits req (to_look_up m token rec) s f =
      look_up-Fits req m token (get_by_id rec.user_id s) f
  proceed-Fits req (to_store_refresh m token u p) s f = tt
  proceed-Fits req (to_log_out m token) s f = tt
  proceed-Fits req (to_create seed m r) s f = tt
  proceed-Fits req to_list s f = tt

  consume_found-IsConsistent :
      (token : Text) (now : ℕ) (s : Store) (o : Option RefreshRecord)
      → IsConsistent s
      → IsConsistent (consume_found token now s o).1
  consume_found-IsConsistent token now s none c = c
  consume_found-IsConsistent token now s (some rec) c = record { same = c.same; keyed = c.keyed }

  created_reply-IsConsistent :
      (c : Created × Store) → IsConsistent c.1 → IsConsistent (created_reply c).1
  created_reply-IsConsistent (Created.created u, s) c = c
  created_reply-IsConsistent (Created.username_exists, s) c = c
  created_reply-IsConsistent (Created.hash_failed, s) c = c

  proceed-IsConsistent :
      (t : Waiting) (s : Store) → IsConsistent s → IsConsistent (proceed jwt env bcrypt t s).1
  unfolding proceed consume_refresh store_refresh
  proceed-IsConsistent (to_authenticate m r) s c = c
  proceed-IsConsistent (to_store_login m u p) s c = record { same = c.same; keyed = c.keyed }
  proceed-IsConsistent (to_consume m token) s c =
      consume_found-IsConsistent token m.checked s (get token s.refresh_store) c
  proceed-IsConsistent (to_look_up m token rec) s c = c
  proceed-IsConsistent (to_store_refresh m token u p) s c = record {
    same = c.same;
    keyed = c.keyed;
  }
  proceed-IsConsistent (to_log_out m token) s c =
      consume_found-IsConsistent token m.checked s (get token s.refresh_store) c
  proceed-IsConsistent (to_create seed m r) s c =
      created_reply-IsConsistent (create_user bcrypt seed m.stored r.username r.password r.role s)
        (create_user-IsConsistent bcrypt seed m.stored r.username r.password r.role s c)
  proceed-IsConsistent to_list s c = c

  -- Every task fits its request, and no token has more grants, or requests that hold it, than it
  -- was handed out; while it is stored, one less.
  record IsFair (sv : AuthService) : Type 0 where
    fits : All Fits sv.tasks
    fair :
        (k : Text)
        → sum_of (grants k) sv.answers + sum_of (holds k) sv.tasks + stored k sv.store
          ≤ sum_of (hands k) sv.answers
    consistent : IsConsistent sv.store

  settle-IsFair :
      (req : AuthRequest) (o : Progress) (sv : AuthService)
      → FitsOutcome req o
      → All Fits sv.tasks
      → ((k : Text)
          → sum_of (grants k) sv.answers
              + sum_of (holds k) sv.tasks
              + spends k req o
              + stored k sv.store
            ≤ sum_of (hands k) sv.answers + earns k req o)
      → IsConsistent sv.store
      → IsFair (settle jwt env bcrypt req o sv)
  unfolding sum_of
  settle-IsFair req (inl t) sv f fs fair c = record {
    fits = All-append Fits sv.tasks ((req, t) ∷ []) fs (f, tt);
    fair = λ k. omega (arith, fair k, sum_of-append (holds k) sv.tasks ((req, t) ∷ []));
    consistent = c;
  }
  settle-IsFair req (inr r) sv f fs fair c = record {
    fits = fs;
    fair = λ k. omega (arith, fair k);
    consistent = c;
  }

  start-IsFair :
      (s : Store)
      → IsConsistent s
      → ((k : Text) → get k s.refresh_store ≡ none)
      → IsFair (record { store = s; tasks = []; answers = [] })
  unfolding sum_of
  start-IsFair s c h = record { fits = tt; fair = λ k. rw (h k) (omega arith); consistent = c }

  Turn-IsFair : (sv sv' : AuthService) → IsFair sv → Turn jwt env bcrypt sv sv' → IsFair sv'
  Turn-IsFair sv _ fair (arrived req) =
      settle-IsFair req (begin jwt env bcrypt req) sv (begin-Fits req) fair.fits
        (λ k. omega (arith, spends-begin k req, fair.fair k)) fair.consistent
  Turn-IsFair sv _ fair (passed before after req t e) =
      let (f, others) = All-middle Fits before (req, t) after (rw e at fair.fits) in
      settle-IsFair req (proceed jwt env bcrypt t sv.store).0 _ (proceed-Fits req t sv.store f)
        others (λ k. passed_fair k f) (proceed-IsConsistent t sv.store fair.consistent)
    where
      passed_fair :
          (k : Text)
          → Fits (req, t)
          → sum_of (grants k) sv.answers
              + sum_of (holds k) (before ++ after)
              + spends k req (proceed jwt env bcrypt t sv.store).0
              + stored k (proceed jwt env bcrypt t sv.store).1
            ≤ sum_of (hands k) sv.answers + earns k req (proceed jwt env bcrypt t sv.store).0
      passed_fair k f = omega (
        arith,
        fair.fair k,
        ap (sum_of (holds k)) e,
        sum_of-append (holds k) before ((req, t) ∷ after),
        sum_of-append (holds k) before after,
        cons k,
        proceed_balance jwt env bcrypt k req t sv.store f,
      )
        where
          cons :
              (k : Text)
              → sum_of (holds k) ((req, t) ∷ after) ≡ holds k (req, t) + sum_of (holds k) after
          cons k = unfold sum_of in refl

  must_create-refresh_store :
      (seed now : ℕ) (name password role : Text) (s s' : Store)
      → must_create bcrypt seed now name password role s ≡ some s'
      → s'.refresh_store ≡ s.refresh_store
  unfolding must_create add_user
  must_create-refresh_store seed now name password role s s' e = ground arith

  new_store-refresh_store :
      (seed now : ℕ) (s : Store) → new_store bcrypt env seed now ≡ some s → s.refresh_store ≡ []
  unfolding new_store
  new_store-refresh_store seed now s e =
      bind-keeps (seed_admin bcrypt env seed now _)
        (λ a. seed_writer bcrypt env seed now a >>= seed_reader bcrypt env seed now) s
        (λ a made. must_create-refresh_store seed now _ _ _ _ a made)
        (λ a none_yet.
          bind-keeps (seed_writer bcrypt env seed now a) (seed_reader bcrypt env seed now) s
            (λ w made. must_create-refresh_store seed now _ _ _ _ w made ∙ none_yet)
            (λ w still made. must_create-refresh_store seed now _ _ _ _ s made ∙ still))
        e
    where
      bind-keeps :
          (o : Option Store) (k : Store → Option Store) (s : Store)
          → ((t : Store) → o ≡ some t → t.refresh_store ≡ [])
          → ((t : Store) → t.refresh_store ≡ [] → k t ≡ some s → s.refresh_store ≡ [])
          → (o >>= k) ≡ some s
          → s.refresh_store ≡ []
      bind-keeps none k s first rest e = absurd (let h : none ≡ some s = e in cc)
      bind-keeps (some t) k s first rest e = rest t (first t refl) e

  Reached-IsFair : (sv : AuthService) → Reached jwt env bcrypt sv → IsFair sv
  Reached-IsFair _ (started seed now s e) =
      start-IsFair s (new_store-IsConsistent bcrypt env seed now s e)
        (λ k. rw (new_store-refresh_store seed now s e) (unfold get in refl))
  Reached-IsFair _ (step {sv} {sv'} r st) = Turn-IsFair sv sv' (Reached-IsFair sv r) st

  -- However the requests overlap, a refresh token is granted no more refreshes than it was handed
  -- out, and fewer while it is still in the store; and the two maps of the users agree.
  pub grants_handed :
      (sv : AuthService) (token : Text)
      → Reached jwt env bcrypt sv
      → (sum_of (grants token) sv.answers + stored token sv.store ≤ sum_of (hands token) sv.answers)
        × IsConsistent sv.store
  grants_handed sv token r =
      let fair = Reached-IsFair sv r in (omega (arith, fair.fair token), fair.consistent)
