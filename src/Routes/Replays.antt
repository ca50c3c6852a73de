-- ===== src/Routes/Replays.antt =====
-- A creation that is repeated under its idempotency key gets the stored response, and creates nothing.
pub mod Projects
pub mod ApiKeys
pub mod Organisations
use multi_tenant_saas_api.Base.{
  ℕ, ◌≡◌, refl, sym, ap, subst, Option, none, some, [], ◌∷◌, ◌++◌, Text, text_eq, arith, ◌∙◌,
  if◌then◌else◌,
}
use multi_tenant_saas_api.Json.{Fields}
use multi_tenant_saas_api.Database.{Db, IdempotencyRecord}
use multi_tenant_saas_api.Exec.{
  Env, State, Action, Error, Metric, ok, err, pure, ◌>>=◌, catch, idempotency_conflict,
}
use multi_tenant_saas_api.Exec.Rules.{ReadOnly}
use multi_tenant_saas_api.Exec.Returns.{Returns, Returns-bind, Returns-pure}
use multi_tenant_saas_api.Repositories.IdempotencyRecords
use multi_tenant_saas_api.Repositories.IdempotencyRecords.{find_record}
use multi_tenant_saas_api.ApiKeyService.{ProjectPrincipal}
use multi_tenant_saas_api.Idempotency.{
  IdempotencyContext, IdempotencyDecision, IdempotencyReplay, context_of, decide, request_hash,
  start_request,
}
use multi_tenant_saas_api.Idempotency.Replay.{Stored, found_in}
use multi_tenant_saas_api.Routes.{translated, Reply, created, replayed}

pub Returns-translated :
    {A : Type 0} (translate : Error → Error) (m : Action A) {s : State} {P : A → State → Type 0}
    → Returns m s P
    → Returns (translated translate m) s P
unfolding catch
Returns-translated translate m r = record { at = λ a t h. r.at a t (ground arith) }

-- What is known of any value and state.
pub Returns-any : {A : Type 0} (m : Action A) {s : State} → Returns m s (λ _ _. Unit {0})
Returns-any m = record { at = λ a t h. tt }

-- A lookup that finds no stored response gives the context to store one under.
abbrev pub Opens : IdempotencyContext → IdempotencyDecision → Type 0
Opens c d = d.replay ≡ none → d.context ≡ some c

decide-Opens :
    (c : IdempotencyContext) (found : Option IdempotencyRecord) (s : State)
    → Returns (decide c found) s (λ d _. Opens c d)
unfolding ◌>>=◌
decide-Opens c none s = Returns-pure _ (λ e. refl)
decide-Opens c (some r) s = record { at = λ d t h e. ground arith }

module _ (env : Env) (key : Text) (p : ProjectPrincipal) (method path : Text) (body : Fields)
    (o : Option ℕ) where
  pub start_request-Opens :
      (s : State)
      → Returns
          (start_request env (some key) p method path body o)
          s
          (λ d _. Opens (context_of env key p method path body o) d)
  unfolding start_request
  start_request-Opens s =
      Returns-bind _ _ (Returns-any _)
        λ found t x. decide-Opens (context_of env key p method path body o) found t

-- A stored response under the scope of a context, whatever the hash of the new body.
decide_repeated :
    (c : IdempotencyContext) (u : State) {hash : Text} {code : ℕ} {response : Fields}
    {r : IdempotencyRecord} (found : Option IdempotencyRecord)
    → found ≡ some r
    → r.request_hash ≡ hash
    → r.response_status_code ≡ code
    → r.response_body ≡ response
    → decide c found u ≡ (
        if text_eq hash c.request_hash
        then (
          ok (record {
            context = some c;
            replay = some (record { response_status_code = code; response_body = response });
          }),
          record u { metrics = u.metrics ++ Metric.idempotency_replay ∷ [] },
        )
        else (
          err idempotency_conflict,
          record u { metrics = u.metrics ++ Metric.idempotency_conflict ∷ [] },
        ))
unfolding ◌>>=◌
decide_repeated c u found e h k b = ground arith

-- The lookup for a request under the key of a stored response: with the same hash, its status, its
-- body and one count of a replay, and otherwise one count of a conflict.
module _ (env : Env) (key : Text) (p : ProjectPrincipal) (method path : Text) (body next : Fields)
    (o : Option ℕ) {code : ℕ} {response : Fields} {db : Db}
    (stored : Stored (context_of env key p method path body o) code response db) (u : State)
    (same : u.session.idempotency_records ≡ db.idempotency_records) where
  pub start_request-repeated : start_request env (some key) p method path next o u ≡ (
      if text_eq (request_hash env body) (request_hash env next)
      then (
        ok (record {
          context = some (context_of env key p method path next o);
          replay = some (record { response_status_code = code; response_body = response });
        }),
        record u { metrics = u.metrics ++ Metric.idempotency_replay ∷ [] },
      )
      else (
        err idempotency_conflict,
        record u { metrics = u.metrics ++ Metric.idempotency_conflict ∷ [] },
      ))
  unfolding start_request ◌>>=◌ find_record
  start_request-repeated =
      decide_repeated (context_of env key p method path next o) u
        (found_in (context_of env key p method path next o) u.session)
        (ap
            (λ rs.
              found_in (context_of env key p method path body o)
                (record db { idempotency_records = rs }))
            same
          ∙ stored.found)
        stored.has_hash stored.has_code stored.has_body

-- A check that passes leaves everything as it was.
pub checked :
    {A : Type 0} (m : Action A) (u : State) {a : A} → ReadOnly m → (m u).0 ≡ ok a → m u ≡ (ok a, u)
checked m u r h = λ i. (h i, r.at u i)

-- The shape of the three handlers: a lookup, then a stored response, or a creation that stores one.
module _ {A : Type 0} (body : A → Fields) (c : IdempotencyContext) where
  -- A response that was created is stored.
  abbrev pub Stores : Reply A → State → Type 0
  Stores r t = (v : A) → r ≡ created v → Stored c 201 (body v) t.committed

  pub Returns-created :
      (v : A) {t : State} → Stored c 201 (body v) t.committed → Returns (pure (created v)) t Stores
  Returns-created v {t} stored =
      Returns-pure _ λ w e. subst (λ x. Stored c 201 (body x) t.committed) (cc) stored

  pub handler-Stores :
      (begin : Action IdempotencyDecision)
      (reply : IdempotencyDecision → Option IdempotencyReplay → Action (Reply A)) (s : State)
      → Returns begin s (λ d _. Opens c d)
      → ((d : IdempotencyDecision) (t : State)
          → d.context ≡ some c
          → Returns (reply d none) t Stores)
      → ((d : IdempotencyDecision) (r : IdempotencyReplay)
          → reply d (some r) ≡ pure (replayed r.response_status_code r.response_body))
      → Returns (begin >>= λ d. reply d d.replay) s Stores
  handler-Stores begin reply s opens creates replays =
      Returns-bind _ _ opens λ d t o. step d t d.replay o
    where
      step :
          (d : IdempotencyDecision) (t : State) (r : Option IdempotencyReplay)
          → (r ≡ none → d.context ≡ some c)
          → Returns (reply d r) t Stores
      step d t none o = creates d t (o refl)
      step d t (some r) o =
          subst (λ m. Returns m t Stores) (sym (replays d r)) (Returns-pure _ λ v e. absurd (cc))
