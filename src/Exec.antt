-- ===== src/Exec.antt =====
-- What a service method is: a computation over the request's session that may raise. What was
-- written before an exception stays written until a rollback, so the state comes back in each case.
-- The clock, the random identifiers, the driver's failures and the libraries that the program calls
-- are the fields of `Env`; each use of the clock, the generator or the driver is at a tick of its own.
pub mod Returns
pub mod Rules
pub mod Raises
use multi_tenant_saas_api.Base.{
  ℕ, zero, suc, ◌+◌, Bool, true, false, Option, none, some, List, [], ◌∷◌, ◌++◌, Text, is_none,
  if◌then◌else◌,
}
use multi_tenant_saas_api.Domain.{AuditAction}
use multi_tenant_saas_api.Json.{Fields}
use multi_tenant_saas_api.Database.{Db}

-- What `jwt.decode` gives or raises.
pub data Decoded : Type 0 where
  payload : Fields → Decoded
  expired_signature invalid_token : Decoded

pub record Env : Type 0 where
  -- `uuid4()` and `datetime.now(UTC)` at a tick
  pub uuid4 : ℕ → ℕ
  pub now : ℕ → ℕ
  -- whether the driver reports an operational failure
  pub fails : ℕ → Bool
  -- `hashlib.sha256(...).hexdigest()` and `secrets.token_urlsafe(32)`
  pub sha256 : Text → Text
  pub token_urlsafe : ℕ → Text
  -- `jwt.encode(payload, secret, algorithm="HS256")`, and `jwt.decode` with the secret and the issuer
  -- at a tick
  pub jwt_encode : Fields → Text → Text
  pub jwt_decode : Text → Text → Text → ℕ → Decoded
  -- `PasswordHash.hash`, salted at a tick, and `verify`: `none` for `UnknownHashError`
  pub hash_password : ℕ → Text → Text
  pub verify_password : Text → Text → Option Bool
  -- the database's order of texts, and its `ILIKE '%pattern%'`
  pub collates : Text → Text → Bool
  pub ilike : Text → Text → Bool
  -- email-validator's normal form of an address, or its refusal; pydantic's text of a time
  pub validate_email : Text → Option Text
  pub isoformat : ℕ → Text

-- `HTTPException`, and whether it has the header `WWW-Authenticate: Bearer`.
pub record HttpException : Type 0 where
  pub status_code : ℕ
  pub detail : Text
  pub asks_for_bearer : Bool

-- The exceptions that the services and the routes raise or let through.
pub data Error : Type 0 where
  integrity_error operational_error runtime_error : Error
  principal_resolution organisation_not_found tenant_access_denied permission_denied : Error
  last_owner_protection : Error
  access_token_expired invalid_access_token : Error
  password_policy : Text → Error
  email_already_registered invalid_credentials invalid_bearer_token : Error
  membership_already_exists membership_not_found target_user_not_found : Error
  organisation_slug_already_exists : Error
  project_not_found : Error
  api_key_not_found api_key_authentication : Error
  audit_metadata_rejected audit_read_configuration : Error
  idempotency_conflict idempotency_secret_snapshot_rejected : Error
  validation_error : Error
  http_exception : HttpException → Error

pub data Result (A : Type 0) : Type 0 where
  ok : A → Result A
  err : Error → Result A

pub data Operation : Type 0 where
  register login : Operation

pub data Outcome : Type 0 where
  success failure : Outcome

-- The calls of the metrics recorder.
pub data Metric : Type 0 where
  audit_event : AuditAction → Metric
  organisation_created project_created api_key_created api_key_revoked : Metric
  idempotency_replay idempotency_conflict : Metric
  -- `record_auth_attempt(operation=..., outcome=...)`
  auth_attempt : Operation → Outcome → Metric

-- The database as committed, as the request's session sees it, and the metrics recorded.
pub record State : Type 0 where
  pub committed : Db
  pub session : Db
  pub metrics : List Metric
  pub ticks : ℕ

abbrev pub Action : Type 0 → Type 0
Action A = State → Result A × State

module _ {A : Type 0} where
  abbrev pub pure : A → Action A
  pure a s = (ok a, s)

  abbrev pub raise : Error → Action A
  raise e s = (err e, s)

  -- A query: it reads the session's view.
  abbrev pub query : (Db → A) → Action A
  query f s = (ok (f s.session), s)

  abbrev pub or_raise : Option A → Error → Action A
  or_raise none e = raise e
  or_raise (some a) e = pure a

  abbrev handle : Result A × State → (Error → Action A) → Result A × State
  handle (ok a, s) h = (ok a, s)
  handle (err e, s) h = h e s

  -- `try: m except: h`
  unfoldable pub catch : Action A → (Error → Action A) → Action A
  catch m h s = handle (m s) h

module _ {A B : Type 0} where
  abbrev pub continue : Result A × State → (A → Action B) → Result B × State
  continue (ok a, s) f = f a s
  continue (err e, s) f = (err e, s)

  infixl 5 ◌>>=◌ ◌>>◌
  unfoldable pub ◌>>=◌ : Action A → (A → Action B) → Action B
  ◌>>=◌ m f s = continue (m s) f

  abbrev pub ◌>>◌ : Action A → Action B → Action B
  m >> k = m >>= λ _. k

abbrev pub raise_if : Bool → Error → Action (Unit {0})
raise_if true e = raise e
raise_if false e = pure tt

abbrev tick : State → State
tick s = record s { ticks = s.ticks + 1 }

abbrev pub record_metric : Metric → Action (Unit {0})
record_metric m s = (ok tt, record s { metrics = s.metrics ++ m ∷ [] })

module _ (env : Env) where
  unfoldable pub uuid4 : Action ℕ
  uuid4 s = (ok (env.uuid4 s.ticks), tick s)

  unfoldable pub now : Action ℕ
  now s = (ok (env.now s.ticks), tick s)

  unfoldable pub token_urlsafe : Action Text
  token_urlsafe s = (ok (env.token_urlsafe s.ticks), tick s)

  -- `session.flush()` with one pending write: the driver may fail, and the constraints are checked.
  unfoldable pub flush : (Db → Bool) → (Db → Db) → Action (Unit {0})
  flush fits write s =
      if env.fails s.ticks
      then (err operational_error, tick s)
      else if fits s.session
      then (ok tt, record (tick s) { session = write s.session })
      else (err integrity_error, tick s)

  -- `session.commit()`
  unfoldable pub commit : Action (Unit {0})
  commit s =
      if env.fails s.ticks
      then (err operational_error, tick s)
      else (ok tt, record (tick s) { committed = s.session })

-- `session.rollback()`
unfoldable pub rollback : Action (Unit {0})
rollback s = (ok tt, record s { session = s.committed })

-- `try: m` with `except IntegrityError: rollback, raise ...` and `except Exception: rollback, raise`;
-- `translate` gives the exception that is raised in the end.
unfoldable pub transaction : {A : Type 0} → (Error → Error) → Action A → Action A
unfolding catch rollback ◌>>=◌
transaction translate m = catch m (λ e. rollback >> raise (translate e))

-- `except Exception: rollback, raise`
abbrev pub same_error : Error → Error
same_error e = e
