-- ===== src/Auth/Tokens.antt =====
-- An access token identifies the user that it was made for, until it expires.
use Prim.Native.Nat.{◌*◌, ◌/◌, ◌^◌}
use multi_tenant_saas_api.Base.{
  ℕ, ◌+◌, ◌<◌, ◌≤◌, ◌≡◌, refl, ap, true, false, Text, codes, text_eq, uuid_str, arith, ltb,
  if◌then◌else◌, Bool-cases, inl, inr,
}
use multi_tenant_saas_api.Json.{Json, Fields, field, end}
use multi_tenant_saas_api.Exec.{
  Env, State, Decoded, ok, err, ◌>>=◌, now, access_token_expired, invalid_access_token, or_raise,
}
use multi_tenant_saas_api.Auth.{
  AuthSettings, AccessToken, token_payload, create_access_token, validate_access_token,
}
use multi_tenant_saas_api.Auth.Uuid.RoundTrip.{uuid_of-uuid_str}

-- The time at a tick, in seconds.
abbrev pub clock_seconds : Env → ℕ → ℕ
clock_seconds env t = env.now t / 1000000

-- The claims of an access token.
abbrev pub access_claims : AuthSettings → Text → ℕ → ℕ → Fields
access_claims settings sub issued expires = field (codes "sub") (Json.str sub) (
    field (codes "iss") (Json.str settings.jwt_issuer) (
      field (codes "iat") (Json.num issued) (
        field (codes "exp") (Json.num expires)
          (field (codes "token_type") (Json.str (codes "access")) end))))

-- What the JWT library documents of a token that it signed: under the same secret and issuer it
-- decodes to its claims from the second of its issue until that of its expiry, and is refused as
-- expired from then on.
pub record JwtLaws (env : Env) (settings : AuthSettings) : Type 0 where
  pub decodes :
      (sub : Text) (issued expires t : ℕ)
      → issued ≤ clock_seconds env t
      → clock_seconds env t < expires
      → env.jwt_decode
          (env.jwt_encode (access_claims settings sub issued expires) settings.jwt_secret)
          settings.jwt_secret
          settings.jwt_issuer
          t
        ≡ Decoded.payload (access_claims settings sub issued expires)
  pub expires :
      (sub : Text) (issued expires t : ℕ)
      → issued ≤ clock_seconds env t
      → expires ≤ clock_seconds env t
      → env.jwt_decode
          (env.jwt_encode (access_claims settings sub issued expires) settings.jwt_secret)
          settings.jwt_secret
          settings.jwt_issuer
          t
        ≡ Decoded.expired_signature

created :
    (env : Env) (settings : AuthSettings) (user_id : ℕ) (s : State) (a : AccessToken)
    → (create_access_token env settings user_id s).0 ≡ ok a
    → (a.token
        ≡ env.jwt_encode (token_payload settings user_id (env.now s.ticks)) settings.jwt_secret)
      × (a.expires_at ≡ env.now s.ticks + settings.access_token_ttl_seconds * 1000000)
unfolding create_access_token now ◌>>=◌
created env settings user_id s a h = ground arith

ltb_lt : (a b : ℕ) → ltb a b ≡ true → a < b
ltb_lt a b h = ground arith

ltb_ge : (a b : ℕ) → ltb a b ≡ false → b ≤ a
ltb_ge a b h = ground arith

-- What becomes of a token, by what the JWT library makes of it.
module _ (env : Env) (settings : AuthSettings) (token : Text) (u : State) where
  validated_payload :
      (user_id issued : ℕ)
      → user_id < 2 ^ 128
      → env.jwt_decode token settings.jwt_secret settings.jwt_issuer u.ticks
        ≡ Decoded.payload (token_payload settings user_id issued)
      → validate_access_token env settings token u ≡ (ok user_id, u)
  unfolding validate_access_token ◌>>=◌ text_eq
  validated_payload user_id issued bound e =
      rw e (ap (λ o. or_raise o invalid_access_token u) (uuid_of-uuid_str user_id bound))

  validated_expired :
      env.jwt_decode token settings.jwt_secret settings.jwt_issuer u.ticks
        ≡ Decoded.expired_signature
      → validate_access_token env settings token u ≡ (err access_token_expired, u)
  unfolding validate_access_token ◌>>=◌
  validated_expired e = rw e refl

module _ (env : Env) (settings : AuthSettings) (laws : JwtLaws env settings) (user_id : ℕ)
    (bound : user_id < 2 ^ 128) (s u : State) (a : AccessToken)
    (given : (create_access_token env settings user_id s).0 ≡ ok a)
    (after : clock_seconds env s.ticks ≤ clock_seconds env u.ticks) where
  -- With a JWT library that keeps its documented laws, a token that was created for a user is
  -- validated, at any time from its issue, as that user's before the second of its expiry, and is
  -- refused as expired from that second on; nothing changes.
  pub validate_access_token-create : validate_access_token env settings a.token u ≡ (
    (if ltb (clock_seconds env u.ticks) (a.expires_at / 1000000)
        then ok user_id
        else err access_token_expired),
    u,
  )
  validate_access_token-create =
      let made = created env settings user_id s a given in
      let c = clock_seconds env u.ticks in
      let last = (env.now s.ticks + settings.access_token_ttl_seconds * 1000000) / 1000000 in
      rw (made.0, made.1)
        (elim (Bool-cases (ltb c last)) [
          | inl before ↦ rw before (
              validated_payload env settings _ u user_id (env.now s.ticks) bound (
                laws.decodes (uuid_str user_id) (clock_seconds env s.ticks) last u.ticks after
                  (ltb_lt c last before)))
          | inr late ↦ rw late (
              validated_expired env settings _ u (
                laws.expires (uuid_str user_id) (clock_seconds env s.ticks) last u.ticks after
                  (ltb_ge c last late)))
        ])
