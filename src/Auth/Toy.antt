-- ===== src/Auth/Toy.antt =====
-- An encoding of the claims in place of a signed token, and passwords in place of their hashes:
-- values of the interfaces Jwt and Bcrypt on which the models run in tests.
use telemetry_search_engine.Common.{
  ℕ, ◌+◌, ◌≤◌, ◌≡◌, refl, [], ◌∷◌, ◌++◌, Text, Option, none, some, Bool, true, ltb, ◌-◌, ◌%◌, ◌<◌,
  if◌then◌else◌, arith, length, take, drop, text_beq, text_beq_iff,
}
use telemetry_search_engine.Auth.{Bcrypt}
use telemetry_search_engine.Auth.Token.{Claims, Jwt, Method, hmac}

abbrev pub write : Text → Text → Text
write t rest = length t ∷ (t ++ rest)

unfoldable pub read : Text → Text × Text
read [] = ([], [])
read (n ∷ s) = (take n s, drop n s)

abbrev pub first : Text → ℕ
first [] = 0
first (n ∷ s) = n

take-append : (a b : Text) → take (length a) (a ++ b) ≡ a
take-append [] b = refl
take-append (c ∷ a) b = rw (take-append a b)

drop-append : (a b : Text) → drop (length a) (a ++ b) ≡ b
drop-append [] b = refl
drop-append (c ∷ a) b = drop-append a b

read-write : (a rest : Text) → read (write a rest) ≡ (a, rest)
unfolding read
read-write a rest = rw (take-append a rest, drop-append a rest)

abbrev pub encode : Claims → Text
encode c = write c.user_id (
    write c.username (
      write c.role
        (write c.token_type (write c.jti (write c.issuer (c.expires_at ∷ c.issued_at ∷ []))))))

abbrev pub times : Text → ℕ × ℕ
times (a ∷ b ∷ s) = (a, b)
times _ = (0, 0)

unfoldable pub decode : Text → Claims
decode s0 =
    let s1 = (read s0).1 in
    let s2 = (read s1).1 in
    let s3 = (read s2).1 in
    let s4 = (read s3).1 in
    let s5 = (read s4).1 in
    let s6 = (read s5).1 in
    record {
      user_id = (read s0).0;
      username = (read s1).0;
      role = (read s2).0;
      token_type = (read s3).0;
      jti = (read s4).0;
      issuer = (read s5).0;
      expires_at = (times s6).0;
      issued_at = (times s6).1;
    }

pub decode-encode : (c : Claims) → decode (encode c) ≡ c
unfolding decode
decode-encode c = rw (
  read-write c.user_id _,
  read-write c.username _,
  read-write c.role _,
  read-write c.token_type _,
  read-write c.jti _,
  read-write c.issuer _,
)

abbrev pub parse_toy : Option Text → ℕ → Claims → Option (Claims × Bool)
parse_toy none now c = none
parse_toy (some secret) now c = if ltb now c.expires_at then some (c, true) else none

pub parses_toy :
    (secret token : Text) (c : Claims) (key : Method → Option Text) (now : ℕ)
    → some (encode c) ≡ some token
    → key hmac ≡ some secret
    → now < c.expires_at
    → parse_toy (key hmac) now (decode token) ≡ some (c, true)
parses_toy secret token c key now e k h =
    let same : token ≡ encode c = cc in
    let live : ltb now c.expires_at ≡ true = ground arith in rw (k, same, decode-encode c, live)

abbrev pub whole_seconds : ℕ → ℕ
whole_seconds t = t - t % 1_000_000_000

pub whole_seconds-le : (t : ℕ) → (whole_seconds t ≤ t) × (t < whole_seconds t + 1_000_000_000)
whole_seconds-le t = (omega arith, omega arith)

pub whole_seconds-whole_seconds : (t : ℕ) → whole_seconds (whole_seconds t) ≡ whole_seconds t
whole_seconds-whole_seconds t = omega arith

abbrev pub toy : Jwt
toy = record {
  sign = λ secret c. some (encode c);
  parse_with_claims = λ key now token. parse_toy (key hmac) now (decode token);
  new_numeric_date = whole_seconds;
  truncates = whole_seconds-le;
  truncates_once = whole_seconds-whole_seconds;
  parses = λ secret token c key now e k whole_exp whole_iat plain live.
      parses_toy secret token c key now e k live;
}

pub accepts_plain :
    (password hash : Text) → some password ≡ some hash → text_beq hash password ≡ true
accepts_plain password hash e = (text_beq_iff hash password).1 (cc)

-- The hash of a password is the password.
abbrev pub plain : Bcrypt
plain = record {
  generate = λ seed password. some password;
  compare_hash = text_beq;
  accepts = λ seed password hash e. accepts_plain password hash e;
}
