-- ===== src/Examples/Identity.antt =====
-- The theorems on access tokens and on request identifiers, at concrete inputs.
use Prim.Native.Nat.{◌*◌}
use multi_tenant_saas_api.Base.{
  ℕ, ◌≡◌, refl, Option, none, some, true, List, [], ◌∷◌, ◌++◌, Text, codes, ltb, arith,
  if◌then◌else◌,
}
use multi_tenant_saas_api.Json.{Json, Fields, field}
use multi_tenant_saas_api.Exec.{Env, State, Decoded, ok, err, access_token_expired}
use multi_tenant_saas_api.Auth.{AccessToken, create_access_token, validate_access_token}
use multi_tenant_saas_api.Auth.Tokens.{JwtLaws, access_claims, validate_access_token-create}
use multi_tenant_saas_api.RequestContext.{
  Context, HttpRequest, Endpoint, resolve_request_id, valid_request_id, serve_request, route_label,
}
use multi_tenant_saas_api.RequestContext.Identifiers.{Carries, serve_request_lem}
use multi_tenant_saas_api.Examples.{env, settings, start}

-- A token is its times and its subject; the clock ticks once a second.
abbrev signed : Fields → Text
signed
      (field a
        (Json.str sub)
        (field b (Json.str iss) (field c (Json.num issued) (field d (Json.num expires) rest)))) =
    issued ∷ expires ∷ sub
signed fs = []

abbrev opened : Text → Text → ℕ → Decoded
opened (issued ∷ expires ∷ sub) issuer t =
    if ltb t expires
    then Decoded.payload
        (access_claims (record settings { jwt_issuer = issuer }) sub issued expires)
    else Decoded.expired_signature
opened token issuer t = Decoded.invalid_token

abbrev ticking : Env
ticking = record env {
  now = λ t. t * 1000000;
  jwt_encode = λ claims secret. signed claims;
  jwt_decode = λ token secret issuer t. opened token issuer t;
}

ticking_laws : JwtLaws ticking settings
ticking_laws = record {
  decodes = λ sub issued expires t a b. ground arith;
  expires = λ sub issued expires t a b. ground arith;
}

abbrev issued : AccessToken
issued = record {
  token = 0 ∷ 3600 ∷ codes "00000000-0000-0000-0000-000000000001";
  token_type = codes "bearer";
  expires_at = 3600000000;
  expires_in_seconds = 3600;
}

issues : (create_access_token ticking settings 1 start).0 ≡ ok issued
unfolding create_access_token multi_tenant_saas_api.Exec.◌>>=◌ multi_tenant_saas_api.Exec.now
    multi_tenant_saas_api.Base.uuid_str multi_tenant_saas_api.Base.hex
issues = refl

-- An hour later the token has expired.
abbrev an_hour_later : State
an_hour_later = record start { ticks = 3600 }

validate_access_token-create_example :
    validate_access_token ticking settings issued.token an_hour_later
    ≡ (err access_token_expired, an_hour_later)
validate_access_token-create_example =
    validate_access_token-create ticking settings ticking_laws 1 (omega arith) start an_hour_later
      issued issues (omega arith)

abbrev context : Context
context = record { request_id = none; log = []; api_requests = [] }

-- The header has a line break, and does not serve.
abbrev request : HttpRequest
request = record {
  method = codes "get";
  path = codes "/organisations/10";
  x_request_id = some (codes "abc" ++ 10 ∷ codes "x");
  route = some (codes "/organisations/{organisation_id}");
}

abbrev answers_200 : Endpoint
answers_200 ctx = (some (record { status_code = 200; headers = [] }), ctx)

serve_request_lem_example :
    (valid_request_id (resolve_request_id 7 request.x_request_id) ≡ true)
    × Carries
        (resolve_request_id 7 request.x_request_id)
        (serve_request 7 request answers_200 context).0
    × ((serve_request 7 request answers_200 context).1.request_id ≡ none)
    × ((serve_request 7 request answers_200 context).1.api_requests
        ≡ record {
          method = codes "GET";
          path = codes "/organisations/{organisation_id}";
          status_code = 200;
        }
          ∷ [])
unfolding route_label
serve_request_lem_example = serve_request_lem 7 request answers_200 context
