-- ===== src/Auth.antt =====
-- Who makes a request: app/core/security.py, and the row of `users` that stands for them,
-- app/api/deps.py. Verification of a token, with keys and signatures, is PyJWT's and an argument.
pub mod Identity
pub mod Provision
use Prim.Native.String.{◌++◌ as append}
use voice_spend.Prelude.{
  ℕ, String, Bool, true, false, not, ◌&&◌, ◌||◌, Option, none, some, List, [], ◌∷◌, ◌++◌, Result,
  ok, err, ◌>>=◌, str_eq, if◌then◌else◌, is_some,
}
use voice_spend.Models.{Uuid, User, Db}
use voice_spend.Http.{Failure, http, no_result_found, uncaught, Env}
use voice_spend.Settings.{Settings, supabase_issuer}

pub record AuthUser : Type 0 where
  pub id : String
  pub email : Option String
  pub role : Option String

-- The value of a claim: a text, or something else.
pub data Claim : Type 0 where
  text_claim : String → Claim
  other_claim : Claim

abbrev pub Payload : Type 0
Payload = List (String × Claim)

-- What PyJWT may raise: a PyJWTError with its text, or another exception, as the one for a JWKS that is
-- not JSON.
pub data JwtError : Type 0 where
  py_jwt_error : String → JwtError
  other_exception : String → JwtError

-- jwt.decode with HS256 and a secret; the signing key that the JWKS of a URL has for a token; and
-- jwt.decode with RS256 or ES256 and such a key. Each checks the audience and the issuer.
pub record Jwt : Type 1 where
  pub Key : Type 0
  pub decode_secret : String → String → String → String → Result JwtError Payload
  pub get_signing_key_from_jwt : String → String → Result JwtError Key
  pub decode_key : String → Key → String → String → Result JwtError Payload

-- payload.get(name)
unfoldable pub claim : String → Payload → Option Claim
claim name [] = none
claim name ((n, c) ∷ payload) =
    let rest = claim name payload in if str_eq n name then some c else rest

abbrev pub text_of : Option Claim → Option String
text_of none = none
text_of (some (text_claim s)) = some s
text_of (some other_claim) = none

-- `except jwt.PyJWTError`: any other exception passes.
abbrev invalid_token : {A : Type 0} → Result JwtError A → Result Failure A
invalid_token (ok a) = ok a
invalid_token (err (other_exception exc)) = err (uncaught exc)
invalid_token (err (py_jwt_error exc)) =
    err (http 401 (append "Invalid authentication token: " exc))

module _ (jwt : Jwt) where
  open jwt use {decode_secret, get_signing_key_from_jwt, decode_key}

  -- _decode_token
  unfoldable pub decode_token : Settings → String → Result Failure Payload
  decode_token settings token = invalid_token (
      if str_eq settings.supabase_jwt_jwks_url ""
      then decode_secret token settings.supabase_jwt_secret settings.supabase_jwt_audience
          (supabase_issuer settings)
      else get_signing_key_from_jwt settings.supabase_jwt_jwks_url token >>= λ key.
          decode_key token key settings.supabase_jwt_audience (supabase_issuer settings))

  -- _payload_to_user
  unfoldable pub payload_to_user : Payload → Result Failure AuthUser
  payload_to_user payload = elim (text_of (claim "sub" payload)) [
    | none ↦ err (http 401 "Token missing 'sub' claim")
    | some sub ↦
        if str_eq sub ""
        then err (http 401 "Token missing 'sub' claim")
        else ok (record {
          id = sub;
          email = text_of (claim "email" payload);
          role = text_of (claim "role" payload);
        })
  ]

  -- get_current_user, with the bearer credentials of the request
  unfoldable pub get_current_user : Settings → Option String → Result Failure AuthUser
  get_current_user settings none = err (http 401 "Missing bearer token")
  get_current_user settings (some token) =
      if str_eq token ""
      then err (http 401 "Missing bearer token")
      else decode_token settings token >>= payload_to_user

  -- An HTTPException read as no user; other exceptions pass.
  unfoldable pub or_no_user : Result Failure AuthUser → Result Failure (Option AuthUser)
  or_no_user (ok user) = ok (some user)
  or_no_user (err (http status detail)) = ok none
  or_no_user (err e) = err e

  unfoldable pub get_optional_user : Settings → Option String → Result Failure (Option AuthUser)
  get_optional_user settings none = ok none
  get_optional_user settings (some token) =
      if str_eq token ""
      then ok none
      else or_no_user (decode_token settings token >>= payload_to_user)

abbrev pub is_text : Option String → String → Bool
is_text none s = false
is_text (some t) s = str_eq t s

-- select(User).where(User.auth_provider_id == id)
unfoldable pub find_identity : String → List User → Option User
find_identity id [] = none
find_identity id (u ∷ us) =
    let rest = find_identity id us in if is_text u.auth_provider_id id then some u else rest

-- Whether a row has an email; NULL is the email of none.
unfoldable pub has_email : Option String → List User → Bool
has_email none us = false
has_email (some email) [] = false
has_email (some email) (u ∷ us) =
    let rest = has_email (some email) us in is_text u.email email || rest

-- The row for an identity that has none.
unfoldable pub new_user : Env → AuthUser → User
new_user env auth = record {
  id = env.uuid4;
  auth_provider_id = some auth.id;
  email = auth.email;
  is_anonymous = not (is_some auth.email);
  base_currency = "USD";
  created_at = env.now;
  updated_at = env.now;
}

-- The commit of the new row, against the two unique columns: an IntegrityError is answered by a
-- rollback and a second look, which must find a row.
unfoldable pub provision : Env → AuthUser → Db → Result Failure User × Db
provision env auth db = elim (find_identity auth.id db.users) [
  | some user ↦ (ok user, db)
  | none ↦
      if has_email auth.email db.users
      then (err no_result_found, db)
      else (ok (new_user env auth), record db { users = db.users ++ new_user env auth ∷ [] })
]

-- get_current_db_user, whose first look sees one database and whose commit another: what other
-- requests have committed meanwhile stands between them.
unfoldable pub get_current_db_user : Env → AuthUser → Db → Db → Result Failure User × Db
get_current_db_user env auth seen db = elim (find_identity auth.id seen.users) [
  | some user ↦ (ok user, db)
  | none ↦ provision env auth db
]
