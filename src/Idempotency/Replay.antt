-- ===== src/Idempotency/Replay.antt =====
-- A stored response is what a repeated request gets.
use multi_tenant_saas_api.Base.{
  ℕ, ◌≡◌, ◌∙◌, refl, sym, ap, subst, Bool, true, false, ◌||◌, Option, none, some, List, [], ◌∷◌,
  ◌++◌, Text, text_eq, text_eq_refl, any, scalar, ◌==◌, is_none-eq, arith, unnegated,
}
use multi_tenant_saas_api.Json.{obj, Fields}
use multi_tenant_saas_api.Database.{
  Db, IdempotencyRecord, idempotency_record_fits, same_scope, same_organisation,
}
use multi_tenant_saas_api.Exec.{Env, State, ok, err, ◌>>=◌, uuid4, now, flush, idempotency_conflict}
use multi_tenant_saas_api.Exec.Returns.{
  Returns, Returns-bind, Returns-weaken, Returns-raise_if, Returns-transaction, Returns-commit,
  Returns-pure,
}
use multi_tenant_saas_api.Repositories.IdempotencyRecords
use multi_tenant_saas_api.Repositories.IdempotencyRecords.{
  add_idempotency_record, find_record, has_organisation,
}
use multi_tenant_saas_api.ApiKeyService.{ProjectPrincipal}
use multi_tenant_saas_api.Idempotency.{
  IdempotencyContext, principal_type_value, context_of, decide, start_request, insert_record,
  store_response, find_secret_snapshot_field, request_hash,
}

scalar-add :
    {A : Type 0} (q p : A → Bool) (xs : List A) (x : A)
    → ((y : A) → q y ≡ true → p y ≡ true)
    → any p xs ≡ false
    → q x ≡ true
    → scalar q (xs ++ x ∷ []) ≡ some x
scalar-add q p [] x w n h = ground arith
scalar-add q p (y ∷ xs) x w n h = ground (arith, scalar-add q p xs x w, w y)

abbrev pub found_in : IdempotencyContext → Db → Option IdempotencyRecord
found_in c db =
    find_record (principal_type_value c.principal_type) c.principal_id c.key c.method c.path
      c.organisation_id db

-- The snapshot without secrets, found from now on under its scope.
pub record Stored (c : IdempotencyContext) (code : ℕ) (body : Fields) (after : Db) : Type 0 where
  pub row : IdempotencyRecord
  pub found : found_in c after ≡ some row
  pub has_hash : row.request_hash ≡ c.request_hash
  pub has_code : row.response_status_code ≡ code
  pub has_body : row.response_body ≡ body

pub record NewRecord (c : IdempotencyContext) (code : ℕ) (body : Fields) (s : State)
    (r : IdempotencyRecord) (t : State) : Type 0 where
  pub written : t.session ≡ add_idempotency_record r s.session
  pub fits : idempotency_record_fits s.session r ≡ true
  pub has_type : r.principal_type ≡ principal_type_value c.principal_type
  pub has_id : r.principal_id ≡ c.principal_id
  pub has_organisation : r.organisation_id ≡ c.organisation_id
  pub has_key : r.key ≡ c.key
  pub has_method : r.method ≡ c.method
  pub has_path : r.path ≡ c.path
  pub has_hash : r.request_hash ≡ c.request_hash
  pub has_code : r.response_status_code ≡ code
  pub has_body : r.response_body ≡ body

pub create-Returns :
    (env : Env) (c : IdempotencyContext) (code : ℕ) (body : Fields) (s : State)
    → Returns
        (IdempotencyRecords.create env
          (principal_type_value c.principal_type)
          c.principal_id
          c.key
          c.method
          c.path
          c.request_hash
          code
          body
          c.organisation_id
          none)
        s
        (NewRecord c code body s)
unfolding IdempotencyRecords.create uuid4 now flush ◌>>=◌
create-Returns env c code body s = record { at = λ r t h. ground arith }

same_of_has :
    (b a : Option ℕ) (db : Db) → has_organisation a b ≡ true → same_organisation db b a ≡ true
same_of_has none none db h = refl
same_of_has (some j) none db h = h
same_of_has none (some i) db h = h
same_of_has (some j) (some i) db h = h

has_itself : (a : Option ℕ) → has_organisation a a ≡ true
has_itself none = refl
has_itself (some i) = ground arith

-- The unique indexes make the new row the first one of its scope.
found_new :
    (r : IdempotencyRecord) (db : Db)
    → idempotency_record_fits db r ≡ true
    → find_record r.principal_type r.principal_id r.key r.method r.path r.organisation_id
        (add_idempotency_record r db)
      ≡ some r
unfolding find_record add_idempotency_record idempotency_record_fits
found_new r db fits =
    scalar-add _ (λ q. q.id == r.id || same_scope db q r) db.idempotency_records r
      (λ y h. ground (arith, same_of_has y.organisation_id r.organisation_id db)) (ground arith)
      (ground (
        arith,
        text_eq_refl r.principal_type,
        text_eq_refl r.key,
        text_eq_refl r.method,
        text_eq_refl r.path,
        has_itself r.organisation_id,
      ))

stored :
    {c : IdempotencyContext} {code : ℕ} {body : Fields} {s : State} {r : IdempotencyRecord}
    {t : State}
    → NewRecord c code body s r t
    → Stored c code body t.session
stored {c} {code} {body} {s} {r} {t} new = record {
  row = r;
  found =
      subst (λ d. found_in c d ≡ some r) (sym new.written) (cc (found_new r s.session new.fits));
  has_hash = new.has_hash;
  has_code = new.has_code;
  has_body = new.has_body;
}

insert_record-Returns :
    (env : Env) (c : IdempotencyContext) (code : ℕ) (body : Fields) (s : State)
    → Returns (insert_record env c code body) s (λ _ t. Stored c code body t.committed)
unfolding insert_record
insert_record-Returns env c code body s =
    Returns-bind _ _ (create-Returns env c code body s) λ r t new.
      Returns-commit env _
        λ u es ec. Returns-pure tt (subst (Stored c code body) (sym ec) (stored new))

pub store_response-Returns :
    (env : Env) (c : IdempotencyContext) (code : ℕ) (body : Fields) (s : State)
    → Returns
        (store_response env (some c) code body)
        s
        (λ _ t. (find_secret_snapshot_field (obj body) ≡ none) × Stored c code body t.committed)
unfolding store_response
store_response-Returns env c code body s = Returns-raise_if _ _ _ λ safe.
    Returns-weaken (Returns-transaction _ _ (insert_record-Returns env c code body s))
      (λ x t w. (is_none-eq (unnegated safe), w))

decided_replay :
    (c : IdempotencyContext) (u : State) {code : ℕ} {response : Fields} {r : IdempotencyRecord}
    (found : Option IdempotencyRecord)
    → found ≡ some r
    → r.request_hash ≡ c.request_hash
    → r.response_status_code ≡ code
    → r.response_body ≡ response
    → (decide c found u).0
      ≡ ok (record {
        context = some c;
        replay = some (record { response_status_code = code; response_body = response });
      })
unfolding ◌>>=◌
decided_replay c u found e h k b = ground (arith, text_eq_refl c.request_hash)

decided_conflict :
    (c : IdempotencyContext) (u : State) {r : IdempotencyRecord} (found : Option IdempotencyRecord)
    → found ≡ some r
    → text_eq r.request_hash c.request_hash ≡ false
    → (decide c found u).0 ≡ err idempotency_conflict
unfolding ◌>>=◌
decided_conflict c u found e h = ground arith

module _ (env : Env) (key : Text) (p : ProjectPrincipal) (method path : Text) (body : Fields)
    (o : Option ℕ) (code : ℕ) (response : Fields) (s u : State)
    (stores : (store_response env
        (some (context_of env key p method path body o))
        code
        response
        s).0
      ≡ ok tt)
    (later : u.session
      ≡ (store_response env
          (some (context_of env key p method path body o))
          code
          response
          s).1.committed) where
  row :
      Stored
        (context_of env key p method path body o)
        code
        response
        (store_response env
          (some (context_of env key p method path body o))
          code
          response
          s).1.committed
  row =
      ((store_response-Returns env (context_of env key p method path body o) code response s).at tt
        _
        (ap
          (λ r. (
            r,
            (store_response env (some (context_of env key p method path body o)) code response s).1,
          ))
          stores)).1

  -- After a response was stored for a request's key, a request of the same scope and body, in a
  -- session that sees what that storing committed, gets the stored status and body.
  pub start_request-replays :
      (start_request env (some key) p method path body o u).0
      ≡ ok (record {
        context = some (context_of env key p method path body o);
        replay = some (record { response_status_code = code; response_body = response });
      })
  unfolding start_request ◌>>=◌
  start_request-replays =
      decided_replay (context_of env key p method path body o) u
        (found_in (context_of env key p method path body o) u.session)
        (subst (λ d. found_in (context_of env key p method path body o) d ≡ some row.row)
          (sym later) row.found)
        row.has_hash row.has_code row.has_body

  -- After a response was stored for a request's key, a request of the same scope whose body has
  -- another hash, in a session that sees what that storing committed, is refused as a conflict.
  pub start_request-conflicts :
      (other : Fields)
      → text_eq (request_hash env body) (request_hash env other) ≡ false
      → (start_request env (some key) p method path other o u).0 ≡ err idempotency_conflict
  unfolding start_request ◌>>=◌
  start_request-conflicts other differs =
      decided_conflict (context_of env key p method path other o) u
        (found_in (context_of env key p method path body o) u.session)
        (subst (λ d. found_in (context_of env key p method path body o) d ≡ some row.row)
          (sym later) row.found)
        (ap (λ h. text_eq h (request_hash env other)) row.has_hash ∙ differs)
