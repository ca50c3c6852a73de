-- ===== src/Examples.antt =====
-- Two organisations, their members, a project and a key: the data of the examples and the tests.
mod Requests
mod Outcomes
mod Replay
mod Http
mod Served
mod Repeats
mod Identity
mod Bodies
mod Tests
use multi_tenant_saas_api.Base.{
  ℕ, refl, Bool, true, false, Option, none, some, [], ◌∷◌, Text, codes, text_eq, arith,
  if◌then◌else◌, ◌+◌,
}
use multi_tenant_saas_api.Domain.{OrganisationRole, ProjectStatus}
use multi_tenant_saas_api.Json.{Json, Fields, field, end}
use multi_tenant_saas_api.Database.{User, Organisation, OrganisationMembership, Project, ApiKey, Db}
use multi_tenant_saas_api.Exec.{Env, Decoded, State}
use multi_tenant_saas_api.Repositories.Memberships.{owners}
use multi_tenant_saas_api.Auth.{AuthSettings}
use multi_tenant_saas_api.Rbac.{CurrentPrincipal, current_principal_from_model}
use multi_tenant_saas_api.ApiKeyService.{ProjectPrincipal, api_key_principal_from_model}
use multi_tenant_saas_api.Invariants.{IsValid}

abbrev verified : Text → Text → Option Bool
verified password [] = none
verified password (salt ∷ s) = some (text_eq s password)

abbrev alice_payload : Fields
alice_payload =
    field (codes "sub") (Json.str (codes "00000000-0000-0000-0000-000000000001"))
      (field (codes "token_type") (Json.str (codes "access")) end)

abbrev decoding : Text → Decoded
decoding token =
    if text_eq token (codes "alice") then Decoded.payload alice_payload else Decoded.invalid_token

abbrev env : Env
env = record {
  uuid4 = λ t. 1000 + t;
  now = λ t. t;
  fails = λ t. false;
  sha256 = λ s. b'#' ∷ s;
  token_urlsafe = λ t. codes "token";
  jwt_encode = λ fs s. codes "alice";
  jwt_decode = λ token s i t. decoding token;
  hash_password = λ t s. b'!' ∷ s;
  verify_password = verified;
  collates = λ s t. true;
  ilike = λ s t. true;
  validate_email = λ s. some s;
  isoformat = λ t. codes "1970-01-01T00:00:00Z";
}

abbrev settings : AuthSettings
settings = record {
  password_min_length = 12;
  jwt_secret = codes "secret";
  jwt_issuer = codes "api";
  access_token_ttl_seconds = 3600;
}

abbrev user : ℕ → Text → User
user i email = record {
  id = i;
  email = email;
  display_name = email;
  password_hash = codes "!correct horse";
  is_active = true;
  created_at = 0;
  updated_at = 0;
}

abbrev alice : User
alice = user 1 (codes "alice@acme.test")

abbrev bob : User
bob = user 2 (codes "bob@acme.test")

abbrev carol : User
carol = user 3 (codes "carol@other.test")

abbrev organisation : ℕ → Text → Organisation
organisation i s = record { id = i; name = s; slug = s; created_at = 0; updated_at = 0 }

abbrev membership : ℕ → ℕ → ℕ → OrganisationRole → OrganisationMembership
membership i o u r = record {
  id = i;
  organisation_id = o;
  user_id = u;
  role = r;
  created_at = 0;
  updated_at = 0;
}

abbrev of_bob : OrganisationMembership
of_bob = membership 22 10 2 OrganisationRole.admin

abbrev a_key : ApiKey
a_key = record {
  id = 30;
  organisation_id = 10;
  name = codes "ci";
  key_prefix = codes "saas_demo_";
  key_hash = codes "#saas_demo_ci";
  created_by_user_id = some 1;
  revoked_at = none;
  last_used_at = none;
  created_at = 0;
  updated_at = 0;
}

abbrev a_project : Project
a_project = record {
  id = 40;
  organisation_id = 10;
  name = codes "launch";
  status = ProjectStatus.active;
  description = none;
  created_by_user_id = some 1;
  updated_by_user_id = some 1;
  deleted_at = none;
  created_at = 0;
  updated_at = 0;
}

abbrev db : Db
db = record {
  users = alice ∷ bob ∷ carol ∷ [];
  organisations = organisation 10 (codes "acme") ∷ organisation 11 (codes "other") ∷ [];
  memberships =
      membership 21 10 1 OrganisationRole.owner
      ∷ of_bob
      ∷ membership 23 11 3 OrganisationRole.owner
      ∷ [];
  projects = a_project ∷ [];
  api_keys = a_key ∷ [];
  audit_events = [];
  idempotency_records = [];
}

abbrev start : State
start = record { committed = db; session = db; metrics = []; ticks = 0 }

abbrev as_alice : CurrentPrincipal
as_alice = current_principal_from_model alice

abbrev as_bob : CurrentPrincipal
as_bob = current_principal_from_model bob

abbrev by_key : ProjectPrincipal
by_key = ProjectPrincipal.key (api_key_principal_from_model a_key)

db-IsValid : IsValid db
unfolding owners text_eq
db-IsValid = record {
  membership_ids = (refl, (refl, (refl, tt)));
  membership_pairs = (refl, (refl, (refl, tt)));
  organisation_ids = (refl, (refl, tt));
  organisation_slugs = (refl, (refl, tt));
  project_ids = (refl, tt);
  key_ids = (refl, tt);
  key_hashes = (refl, tt);
  safe_events = tt;
  owned = (omega arith, (omega arith, tt));
}
