-- ===== src/Idempotency.antt =====
-- services/idempotency.py: the replay of responses to repeated unsafe requests.
pub mod Replay
pub mod Canonical
pub mod Atomicity
use multi_tenant_saas_api.Base.{
  ℕ, ◌-◌, Bool, true, false, not, ◌&&◌, ◌||◌, Option, none, some, List, [], ◌∷◌, Text, codes,
  text_eq, strip, lower, ends_with, any, map, leb, is_none, if◌then◌else◌,
}
use multi_tenant_saas_api.Json.{
  Json, null, bool, num, str, arr, obj, Items, nil, item, Fields, end, field,
}
use multi_tenant_saas_api.Json.Dumps.{dumps}
use multi_tenant_saas_api.Database.{IdempotencyRecord}
use multi_tenant_saas_api.Exec.{
  Env, Action, Metric, pure, raise, raise_if, ◌>>=◌, ◌>>◌, commit, transaction, same_error,
  record_metric, idempotency_conflict, idempotency_secret_snapshot_rejected,
}
use multi_tenant_saas_api.Repositories.IdempotencyRecords
use multi_tenant_saas_api.Rbac.{PrincipalType}
use multi_tenant_saas_api.ApiKeyService.{ProjectPrincipal}

pub record IdempotencyContext : Type 0 where
  pub principal_type : PrincipalType
  pub principal_id : ℕ
  pub organisation_id : Option ℕ
  pub key : Text
  pub method : Text
  pub path : Text
  pub request_hash : Text

pub record IdempotencyReplay : Type 0 where
  pub response_status_code : ℕ
  pub response_body : Fields

pub record IdempotencyDecision : Type 0 where
  pub context : Option IdempotencyContext
  pub replay : Option IdempotencyReplay

abbrev pub principal_type_value : PrincipalType → Text
principal_type_value PrincipalType.user = codes "user"
principal_type_value PrincipalType.api_key = codes "api_key"

abbrev principal_type_of : ProjectPrincipal → PrincipalType
principal_type_of (ProjectPrincipal.user p) = p.principal_type
principal_type_of (ProjectPrincipal.key k) = k.principal_type

abbrev principal_id_of : ProjectPrincipal → ℕ
principal_id_of (ProjectPrincipal.user p) = p.user_id
principal_id_of (ProjectPrincipal.key k) = k.api_key_id

-- `method.upper()`, on the letters of ASCII: HTTP methods have no others.
abbrev upper : Text → Text
upper s = map (λ c. if leb 97 c && leb c 122 then c - 32 else c) s

-- The body as `model_dump(mode="json", by_alias=True)` gives it.
unfoldable pub request_hash : Env → Fields → Text
unfolding dumps
request_hash env request_body = env.sha256 (dumps (obj request_body))

abbrev pub context_of :
    Env → Text → ProjectPrincipal → Text → Text → Fields → Option ℕ → IdempotencyContext
context_of env key principal method path request_body organisation_id = record {
  principal_type = principal_type_of principal;
  principal_id = principal_id_of principal;
  organisation_id = organisation_id;
  key = key;
  method = upper method;
  path = path;
  request_hash = request_hash env request_body;
}

abbrev pub decide : IdempotencyContext → Option IdempotencyRecord → Action IdempotencyDecision
decide context none = pure (record { context = some context; replay = none })
decide context (some r) =
    if not (text_eq r.request_hash context.request_hash)
    then (do record_metric Metric.idempotency_conflict; raise idempotency_conflict)
    else do
      record_metric Metric.idempotency_replay
      pure (record {
        context = some context;
        replay = some (record {
          response_status_code = r.response_status_code;
          response_body = r.response_body;
        });
      })

abbrev get_record : IdempotencyContext → Action (Option IdempotencyRecord)
get_record c =
    IdempotencyRecords.get (principal_type_value c.principal_type) c.principal_id c.key c.method
      c.path c.organisation_id

abbrev look_up : IdempotencyContext → Action IdempotencyDecision
look_up context = do existing_record ← get_record context; decide context existing_record

-- A request without a key is not looked up.
unfoldable pub start_request :
    Env
    → Option Text
    → ProjectPrincipal
    → Text
    → Text
    → Fields
    → Option ℕ
    → Action IdempotencyDecision
unfolding request_hash
start_request env none principal method path request_body organisation_id =
    pure (record { context = none; replay = none })
start_request env (some key) principal method path request_body organisation_id =
    look_up (context_of env key principal method path request_body organisation_id)

abbrev secret_snapshot_field_names : List Text
secret_snapshot_field_names =
    codes "access_token"
    ∷ codes "authorization"
    ∷ codes "bearer_token"
    ∷ codes "key_hash"
    ∷ codes "password"
    ∷ codes "password_hash"
    ∷ codes "raw_api_key"
    ∷ codes "raw_key"
    ∷ codes "token"
    ∷ []

unfoldable pub is_secret_snapshot_field : Text → Bool
unfolding strip lower text_eq ends_with
is_secret_snapshot_field field_name =
    let normalised = lower (strip field_name) in
    any (text_eq normalised) secret_snapshot_field_names || ends_with normalised (codes "_token")

abbrev or_else : Option Text → Option Text → Option Text
or_else none later = later
or_else (some t) later = some t

unfoldable mutual
  unfolding is_secret_snapshot_field

  pub find_secret_snapshot_field : Json → Option Text
  find_secret_snapshot_field null = none
  find_secret_snapshot_field (bool b) = none
  find_secret_snapshot_field (num n) = none
  find_secret_snapshot_field (str s) = none
  find_secret_snapshot_field (arr xs) = find_secret_item xs
  find_secret_snapshot_field (obj fs) = find_secret_field fs

  pub find_secret_item : Items → Option Text
  find_secret_item nil = none
  find_secret_item (item x xs) = or_else (find_secret_snapshot_field x) (find_secret_item xs)

  pub find_secret_field : Fields → Option Text
  find_secret_field end = none
  find_secret_field (field k v fs) =
      if is_secret_snapshot_field k
      then some k
      else or_else (find_secret_snapshot_field v) (find_secret_field fs)

unfoldable pub insert_record : Env → IdempotencyContext → ℕ → Fields → Action (Unit {0})
insert_record env c response_status_code response_body = do
  IdempotencyRecords.create env (principal_type_value c.principal_type) c.principal_id c.key
      c.method c.path c.request_hash response_status_code response_body c.organisation_id none
  commit env
  pure tt

unfoldable pub store_response : Env → Option IdempotencyContext → ℕ → Fields → Action (Unit {0})
unfolding find_secret_snapshot_field
store_response env none response_status_code response_body = pure tt
store_response env (some context) response_status_code response_body = do
  raise_if (not (is_none (find_secret_snapshot_field (obj response_body))))
      idempotency_secret_snapshot_rejected
  transaction same_error (insert_record env context response_status_code response_body)

unfoldable pub without_field : Text → Fields → Fields
without_field key end = end
without_field key (field k v fs) =
    if text_eq k key then without_field key fs else field k v (without_field key fs)

-- `d[key] = value`
unfoldable pub set_field : Text → Json → Fields → Fields
set_field key value end = field key value end
set_field key value (field k v fs) =
    if text_eq k key then field k value fs else field k v (set_field key value fs)

abbrev replay_note : Fields
replay_note = field (codes "secret_available") (bool false) (
    field (codes "reason")
      (Json.str (
        codes
          "raw API key material is returned only by the initial create response and is not replayed"))
      end)

unfoldable pub api_key_idempotency_replay_body : Fields → Fields
unfolding without_field set_field
api_key_idempotency_replay_body response_body =
    set_field (codes "idempotency_replay") (obj replay_note)
      (without_field (codes "raw_key") response_body)
