-- ===== src/Auth/Users.antt =====
-- The users of the store: its two maps agree, and a created user can log in.
use telemetry_search_engine.Common.{
  ℕ, ◌≡◌, ◌≢◌, refl, [], Text, Option, none, some, get, get-put, text_eq, text_beq, text_beq_iff,
  true, false, arith, Option-cases, inl, inr,
}
use mathlib.Core.Path.{subst}
use telemetry_search_engine.Auth.{
  User, Store, Bcrypt, username_exists, new_user, add_user, must_create, seed_admin, seed_writer,
  seed_reader, new_store, ◌>>=◌, authenticate, created_with, create_new, create_user,
}

-- Both maps hold the same users, each active and under its own name.
pub record IsConsistent (s : Store) : Type 0 where
  pub same : (name : Text) → get name s.users_by_id ≡ get name s.users
  pub keyed :
      (name : Text) (u : User)
      → get name s.users ≡ some u
      → (u.id ≡ name) × (u.username ≡ name) × (u.active ≡ true)

add_user-IsConsistent :
    (name hash role : Text) (now : ℕ) (s : Store)
    → IsConsistent s
    → IsConsistent (add_user (new_user name hash role now) s)
unfolding add_user
add_user-IsConsistent name hash role now s c =
    let u = new_user name hash role now in
    record {
      same = λ k. rw (get-put name k u s.users_by_id, get-put name k u s.users, c.same k);
      keyed = λ k v e. ground (arith, get-put name k u s.users, c.keyed k v, text_beq_iff name k);
    }

module _ (bcrypt : Bcrypt) where
  must_create-IsConsistent :
      (seed now : ℕ) (name password role : Text) (s s' : Store)
      → IsConsistent s
      → must_create bcrypt seed now name password role s ≡ some s'
      → IsConsistent s'
  unfolding must_create
  must_create-IsConsistent seed now name password role s s' c e =
      elim (Option-cases (bcrypt.generate seed password)) [
        | inl failed ↦ absurd (let h : none ≡ some s' = rw failed at e in cc)
        | inr (hash, made) ↦
            let h : add_user (new_user name hash role now) s ≡ s' =
              (let h' : some (add_user (new_user name hash role now) s) ≡ some s' = rw made at e in
                cc) in
            subst IsConsistent h (add_user-IsConsistent name hash role now s c)
      ]

  created_with-IsConsistent :
      (name role : Text) (now : ℕ) (s : Store) (o : Option Text)
      → IsConsistent s
      → IsConsistent (created_with name role now s o).1
  created_with-IsConsistent name role now s none c = c
  created_with-IsConsistent name role now s (some hash) c =
      add_user-IsConsistent name hash role now s c

  -- CreateUser keeps the two maps in agreement, on every branch.
  pub create_user-IsConsistent :
      (seed now : ℕ) (name password role : Text) (s : Store)
      → IsConsistent s
      → IsConsistent (create_user bcrypt seed now name password role s).1
  unfolding create_user
  create_user-IsConsistent seed now name password role s c = taken (get name s.users)
    where
      taken : (o : Option User) → IsConsistent (create_new bcrypt seed now name password role s o).1
      taken none = created_with-IsConsistent name role now s (bcrypt.generate seed password) c
      taken (some u) = c

  empty_store-IsConsistent :
      IsConsistent (record { users = []; users_by_id = []; refresh_store = [] })
  unfolding get
  empty_store-IsConsistent = record { same = λ k. refl; keyed = λ k u e. cc }

  bind-IsConsistent :
      (o : Option Store) (k : Store → Option Store) (s : Store)
      → ((t : Store) → o ≡ some t → IsConsistent t)
      → ((t : Store) → IsConsistent t → k t ≡ some s → IsConsistent s)
      → (o >>= k) ≡ some s
      → IsConsistent s
  bind-IsConsistent none k s first rest e = absurd (let h : none ≡ some s = e in cc)
  bind-IsConsistent (some t) k s first rest e = rest t (first t refl) e

  -- The store that New seeds is consistent.
  pub new_store-IsConsistent :
      (env : Text → Text) (seed now : ℕ) (s : Store)
      → new_store bcrypt env seed now ≡ some s
      → IsConsistent s
  unfolding new_store
  new_store-IsConsistent env seed now s e =
      bind-IsConsistent (seed_admin bcrypt env seed now _)
        (λ a. seed_writer bcrypt env seed now a >>= seed_reader bcrypt env seed now) s
        (λ a made. must_create-IsConsistent seed now _ _ _ _ a empty_store-IsConsistent made)
        (λ a c.
          bind-IsConsistent (seed_writer bcrypt env seed now a) (seed_reader bcrypt env seed now) s
            (λ w made. must_create-IsConsistent seed now _ _ _ _ w c made)
            (λ w d made. must_create-IsConsistent seed now _ _ _ _ s d made))
        e

  -- A name that was free and is created can log in with its password, and with no other name's
  -- login anything has changed; creating it again fails and changes nothing.
  pub authenticate-create_user :
      (seed now : ℕ) (name password role hash : Text) (s : Store)
      → get name s.users ≡ none
      → bcrypt.generate seed password ≡ some hash
      → let after = (create_user bcrypt seed now name password role s).1 in
        (authenticate bcrypt name password after ≡ some (new_user name hash role now))
        × ((other given : Text)
            → other ≢ name
            → authenticate bcrypt other given after ≡ authenticate bcrypt other given s)
        × ((seed' now' : ℕ) (given role' : Text)
            → create_user bcrypt seed' now' name given role' after ≡ (username_exists, after))
  unfolding create_user authenticate add_user
  authenticate-create_user seed now name password role hash s free made =
      let u = new_user name hash role now in
      rw (free, made)
        (
          rw (
            get-put name name u s.users,
            (text_beq_iff name name).1 refl,
            bcrypt.accepts seed password hash made,
          ),
          λ other given d.
              let differs : text_beq name other ≡ false = ground (arith, text_beq_iff name other) in
              rw (get-put name other u s.users, differs),
          λ seed' now' given role'.
              rw (get-put name name u s.users, (text_beq_iff name name).1 refl),
        )
