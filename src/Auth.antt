-- ===== src/Auth.antt =====
-- services/auth.py: the password policy, password hashes, and signed access tokens. Times are
-- microseconds since the epoch.
pub mod Uuid
pub mod Tokens
use multi_tenant_saas_api.Base.{
  ℕ, suc, ◌+◌, ◌++◌, Bool, true, false, not, ◌&&◌, ◌||◌, Option, none, some, [], Text, codes,
  text_eq, strip, length, ltb, uuid_str, if◌then◌else◌,
}
use Prim.Native.Nat.{◌*◌, ◌/◌}
use multi_tenant_saas_api.Json.{Json, Fields, field, end}
use multi_tenant_saas_api.Json.Dumps.{decimal}
use multi_tenant_saas_api.Exec.{
  Env, State, Action, Decoded, Result, ok, err, pure, raise, raise_if, or_raise, ◌>>=◌, ◌>>◌, now,
  password_policy, access_token_expired, invalid_access_token,
}
use Uuid.{uuid_of}

-- `PasswordPolicy`
pub record PasswordPolicy : Type 0 where
  pub min_length : ℕ
  pub max_length : ℕ

-- The settings that the services are built from.
pub record AuthSettings : Type 0 where
  pub password_min_length : ℕ
  pub jwt_secret : Text
  pub jwt_issuer : Text
  pub access_token_ttl_seconds : ℕ

abbrev pub policy_from_settings : AuthSettings → PasswordPolicy
policy_from_settings settings = record {
  min_length = settings.password_min_length;
  max_length = 256;
}

abbrev is_empty : Text → Bool
is_empty s = text_eq s []

abbrev length_message : Text → ℕ → Text
length_message bound n =
    codes "password must be at " ++ bound ++ decimal (suc n) n ++ codes " characters"

-- `PasswordPolicy.validate`
unfoldable pub validate_password : PasswordPolicy → Text → Action (Unit {0})
unfolding strip text_eq decimal
validate_password policy password = do
  raise_if (ltb (length password) policy.min_length)
      (password_policy (length_message (codes "least ") policy.min_length))
  raise_if (ltb policy.max_length (length password))
      (password_policy (length_message (codes "most ") policy.max_length))
  raise_if (is_empty (strip password))
      (password_policy (codes "password must contain at least one non-whitespace character"))

abbrev salted : Env → Text → Action Text
salted env password s = (ok (env.hash_password s.ticks password), record s { ticks = s.ticks + 1 })

unfoldable pub hash_password : Env → PasswordPolicy → Text → Action Text
unfolding validate_password
hash_password env policy password = do validate_password policy password; salted env password

abbrev known_hash : Option Bool → Bool
known_hash none = false
known_hash (some b) = b

-- An empty or unrecognised hash matches no password.
unfoldable pub verify_password : Env → Text → Text → Bool
unfolding text_eq
verify_password env password password_hash =
    if is_empty password_hash
    then false
    else known_hash (env.verify_password password password_hash)

pub record AccessToken : Type 0 where
  pub token : Text
  pub token_type : Text
  pub expires_at : ℕ
  pub expires_in_seconds : ℕ

abbrev second : ℕ
second = 1000000

abbrev pub token_payload : AuthSettings → ℕ → ℕ → Fields
token_payload settings user_id issued_at = field (codes "sub") (Json.str (uuid_str user_id)) (
    field (codes "iss") (Json.str settings.jwt_issuer) (
      field (codes "iat") (Json.num (issued_at / second)) (
        field (codes "exp")
          (Json.num ((issued_at + settings.access_token_ttl_seconds * second) / second))
          (field (codes "token_type") (Json.str (codes "access")) end))))

unfoldable pub create_access_token : Env → AuthSettings → ℕ → Action AccessToken
create_access_token env settings user_id = do
  issued_at ← now env
  pure (record {
    token = env.jwt_encode (token_payload settings user_id issued_at) settings.jwt_secret;
    token_type = codes "bearer";
    expires_at = issued_at + settings.access_token_ttl_seconds * second;
    expires_in_seconds = settings.access_token_ttl_seconds;
  })

-- `payload.get(key)`
unfoldable pub get : Text → Fields → Option Json
get key end = none
get key (field k v fs) = if text_eq k key then some v else get key fs

abbrev is_access : Option Json → Bool
is_access (some (Json.str t)) = text_eq t (codes "access")
is_access _ = false

abbrev subject : Option Json → Option Text
subject (some (Json.str t)) = some t
subject _ = none

abbrev decoded : Decoded → Action Fields
decoded (Decoded.payload fs) = pure fs
decoded Decoded.expired_signature = raise access_token_expired
decoded Decoded.invalid_token = raise invalid_access_token

-- `jwt.decode`, which reads the clock.
abbrev decode : Env → AuthSettings → Text → Action Fields
decode env settings token s =
    decoded (env.jwt_decode token settings.jwt_secret settings.jwt_issuer s.ticks) s

-- The user that a token identifies. Only users have access tokens.
unfoldable pub validate_access_token : Env → AuthSettings → Text → Action ℕ
unfolding get uuid_of
validate_access_token env settings token = do
  payload ← decode env settings token
  raise_if (not (is_access (get (codes "token_type") payload))) invalid_access_token
  sub ← or_raise (subject (get (codes "sub") payload)) invalid_access_token
  or_raise (uuid_of sub) invalid_access_token
