-- ===== src/Auth.antt =====
-- auth-service/internal/store/store.go: the users and the refresh tokens.
pub mod Token
pub mod Handlers
pub mod Rotation
pub mod Users
pub mod Sessions
pub mod Service
pub mod Validated
pub mod Granted
pub mod Grants
pub mod Toy
mod ServiceTests
mod Tests
use telemetry_search_engine.Common.{
  ℕ, List, [], ◌∷◌, map, Text, Map, codes, Option, none, some, get, put, delete, text_eq, ◌≡◌, Bool,
  true, false, not, ltb, if◌then◌else◌,
}

abbrev pub role_admin : Text
role_admin = codes "admin"

abbrev pub role_writer : Text
role_writer = codes "writer"

abbrev pub role_reader : Text
role_reader = codes "reader"

pub record User : Type 0 where
  pub id : Text
  pub username : Text
  pub password_hash : Text
  pub role : Text
  pub created_at : ℕ
  pub active : Bool

pub record RefreshRecord : Type 0 where
  pub token : Text
  pub user_id : Text
  pub expires_at : ℕ

-- No operation writes to a stored user or record, so the pointers of the source are values here;
-- each operation is one critical section of the lock.
pub record Store : Type 0 where
  pub users : Map Text User
  pub users_by_id : Map Text User
  pub refresh_store : Map Text RefreshRecord

-- golang.org/x/crypto/bcrypt: the hash of a password under a seed, or its error, and whether a hash
-- is one of a password.
pub record Bcrypt : Type 0 where
  pub generate : ℕ → Text → Option Text
  pub compare_hash : Text → Text → Bool
  -- a hash is accepted with the password that it was made from
  pub accepts :
      (seed : ℕ) (password hash : Text)
      → generate seed password ≡ some hash
      → compare_hash hash password ≡ true

pub data Consumed : Type 0 where
  consumed : RefreshRecord → Consumed
  not_found expired : Consumed

pub data Created : Type 0 where
  created : User → Created
  username_exists hash_failed : Created

unfoldable pub env_or : (Text → Text) → Text → Text → Text
env_or env key fallback = elim (env key) [ [] ↦ fallback | c ∷ s ↦ c ∷ s ]

abbrev pub new_user : Text → Text → Text → ℕ → User
new_user username hash role now = record {
  id = username;
  username = username;
  password_hash = hash;
  role = role;
  created_at = now;
  active = true;
}

unfoldable pub add_user : User → Store → Store
add_user u s = record s {
  users = put u.username u s.users;
  users_by_id = put u.username u s.users_by_id;
}

abbrev pub created_with : Text → Text → ℕ → Store → Option Text → Created × Store
created_with username role now s none = (hash_failed, s)
created_with username role now s (some hash) =
    (created (new_user username hash role now), add_user (new_user username hash role now) s)

infixl 5 ◌>>=◌
abbrev pub ◌>>=◌ : Option Store → (Store → Option Store) → Option Store
none >>= k = none
some s >>= k = k s

module _ (bcrypt : Bcrypt) where
  abbrev pub must_add : Text → Text → ℕ → Store → Option Text → Option Store
  must_add username role now s none = none
  must_add username role now s (some hash) = some (add_user (new_user username hash role now) s)

  -- `none` is the panic.
  unfoldable pub must_create : ℕ → ℕ → Text → Text → Text → Store → Option Store
  must_create seed now username password role s =
      must_add username role now s (bcrypt.generate seed password)

  -- A user whose password is in the environment, or is the one given.
  abbrev pub seed_user : (Text → Text) → ℕ → ℕ → Text → Text → Text → Text → Store → Option Store
  seed_user env seed now name key fallback role s =
      must_create seed now name (env_or env key fallback) role s

  abbrev pub seed_admin : (Text → Text) → ℕ → ℕ → Store → Option Store
  seed_admin env seed now =
      seed_user env seed now (codes "admin") (codes "ADMIN_PASSWORD") (codes "admin123") role_admin

  abbrev pub seed_writer : (Text → Text) → ℕ → ℕ → Store → Option Store
  seed_writer env seed now =
      seed_user env seed now (codes "writer") (codes "WRITER_PASSWORD") (codes "writer123")
        role_writer

  abbrev pub seed_reader : (Text → Text) → ℕ → ℕ → Store → Option Store
  seed_reader env seed now =
      seed_user env seed now (codes "reader") (codes "READER_PASSWORD") (codes "reader123")
        role_reader

  unfoldable pub new_store : (Text → Text) → ℕ → ℕ → Option Store
  new_store env seed now = do
    a ← seed_admin env seed now (record { users = []; users_by_id = []; refresh_store = [] })
    w ← seed_writer env seed now a
    seed_reader env seed now w

  abbrev pub checked : Text → Option User → Option User
  checked password none = none
  checked password (some u) =
      if not u.active
      then none
      else if bcrypt.compare_hash u.password_hash password
      then some u
      else none

  -- `none` is the error "invalid credentials".
  unfoldable pub authenticate : Text → Text → Store → Option User
  authenticate username password s = checked password (get username s.users)

  abbrev pub create_new : ℕ → ℕ → Text → Text → Text → Store → Option User → Created × Store
  create_new seed now username password role s (some u) = (username_exists, s)
  create_new seed now username password role s none =
      created_with username role now s (bcrypt.generate seed password)

  unfoldable pub create_user : ℕ → ℕ → Text → Text → Text → Store → Created × Store
  create_user seed now username password role s =
      create_new seed now username password role s (get username s.users)

unfoldable pub get_by_id : Text → Store → Option User
get_by_id id s = get id s.users_by_id

unfoldable pub store_refresh : Text → Text → ℕ → Store → Store
store_refresh token user_id exp s = record s {
  refresh_store =
      put token (record { token = token; user_id = user_id; expires_at = exp }) s.refresh_store;
}

abbrev pub consume_found : Text → ℕ → Store → Option RefreshRecord → Consumed × Store
consume_found token now s none = (not_found, s)
consume_found token now s (some rec) =
    let removed = record s { refresh_store = delete token s.refresh_store } in
    (if ltb rec.expires_at now then expired else consumed rec, removed)

unfoldable pub consume_refresh : Text → ℕ → Store → Consumed × Store
consume_refresh token now s = consume_found token now s (get token s.refresh_store)

-- The users, in the order of the map.
unfoldable pub list_users : Store → List User
list_users s = map (λ (kv : Text × User). kv.1) s.users
