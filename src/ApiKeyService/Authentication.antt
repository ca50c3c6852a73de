-- ===== src/ApiKeyService/Authentication.antt =====
-- services/api_keys.py: the principal of a project endpoint, a user or an active key.
use multi_tenant_saas_api.Base.{
  ℕ, ◌+◌, ◌≡◌, ◌∙◌, refl, sym, subst, Bool, true, false, ◌&&◌, none, some, Text, is_none,
  is_none-eq, text_eq, arith, if◌then◌else◌,
}
use multi_tenant_saas_api.Base.Unique.{scalar-holds}
use multi_tenant_saas_api.Database.{Db, ApiKey}
use multi_tenant_saas_api.Exec.{
  Env, State, Action, Error, Result, ok, err, pure, raise, or_raise, catch, ◌>>=◌, ◌>>◌, commit,
  transaction, same_error, principal_resolution, api_key_authentication,
}
use multi_tenant_saas_api.Exec.Rules.{
  ReadOnly, Atomic, Commits, IsClean, Whole, read_rules, commit_rules, atomic_rules,
}
use multi_tenant_saas_api.Exec.Returns.{
  Returns, Returns-bind, Returns-check, Returns-query, Returns-or_raise, Returns-transaction,
  Returns-commit, Returns-pure,
}
use multi_tenant_saas_api.Repositories.ApiKeys
use multi_tenant_saas_api.Repositories.ApiKeys.{find_active, put_api_key}
use multi_tenant_saas_api.Repositories.Outcomes.{update_last_used-Returns}
use multi_tenant_saas_api.Repositories.Pending.{update_last_used-KeepsCommitted}
use multi_tenant_saas_api.Auth.{AuthSettings}
use multi_tenant_saas_api.Rbac.{CurrentPrincipal}
use multi_tenant_saas_api.Rbac.Principals.{
  resolve_current_principal, Resolved, resolve_user_principal-ReadOnly,
  resolve_user_principal-Returns,
}
use multi_tenant_saas_api.ApiKeyService.{ProjectPrincipal, hash_key, api_key_principal_from_model}

unfoldable pub touch : Env → ApiKey → Action ApiKey
touch env api_key = do used ← ApiKeys.update_last_used env api_key none; commit env; pure used

unfoldable pub resolve_key : Env → Text → Action ProjectPrincipal
resolve_key env bearer_token = do
  found ← ApiKeys.get_active_by_hash (hash_key env bearer_token)
  api_key ← or_raise found api_key_authentication
  used ← transaction same_error (touch env api_key)
  pure (ProjectPrincipal.key (api_key_principal_from_model used))

unfoldable pub as_user : Env → AuthSettings → Text → Action ProjectPrincipal
as_user env settings bearer_token = do
  p ← resolve_current_principal env settings bearer_token
  pure (ProjectPrincipal.user p)

-- `except PrincipalResolutionError: pass`, then the key.
abbrev is_unresolved : Error → Bool
is_unresolved principal_resolution = true
is_unresolved e = false

abbrev otherwise : Env → Text → Error → Action ProjectPrincipal
otherwise env bearer_token e = if is_unresolved e then resolve_key env bearer_token else raise e

unfoldable pub resolve_project_principal : Env → AuthSettings → Text → Action ProjectPrincipal
unfolding as_user resolve_key
resolve_project_principal env settings bearer_token =
    catch (as_user env settings bearer_token) (otherwise env bearer_token)

-- The digest of the token is that of an active key, whose row was committed with the time of its
-- use and that of its update, and otherwise as it was.
pub record ResolvedKey (env : Env) (token : Text) (before : Db) (p : ProjectPrincipal) (after : Db)
    : Type 0 where
  pub api_key : ApiKey
  pub found : find_active (hash_key env token) before ≡ some api_key
  pub active : api_key.revoked_at ≡ none
  pub matches : text_eq api_key.key_hash (hash_key env token) ≡ true
  pub used : ApiKey
  pub has_id : used.id ≡ api_key.id
  pub has_hash : used.key_hash ≡ api_key.key_hash
  pub has_revoked_at : used.revoked_at ≡ none
  pub at : ℕ
  pub has_fields :
      used ≡ record api_key { last_used_at = some (env.now at); updated_at = env.now (at + 1) }
  pub in_organisation : used.organisation_id ≡ api_key.organisation_id
  pub written : after ≡ put_api_key used before
  pub answer : p ≡ ProjectPrincipal.key (api_key_principal_from_model used)

found_active :
    (hash : Text) (db : Db) (k : ApiKey)
    → find_active hash db ≡ some k
    → (k.revoked_at ≡ none) × (text_eq k.key_hash hash ≡ true)
unfolding find_active
found_active hash db k found =
    let h =
      scalar-holds (λ k. text_eq k.key_hash hash && is_none k.revoked_at) db.api_keys k found in
    (is_none-eq (ground arith), ground arith)

-- The use was written, and the write was committed.
record Touched (env : Env) (s : State) (old used : ApiKey) (t : State) : Type 0 where
  pub has_id : used.id ≡ old.id
  pub in_organisation : used.organisation_id ≡ old.organisation_id
  pub has_hash : used.key_hash ≡ old.key_hash
  pub has_revoked_at : used.revoked_at ≡ old.revoked_at
  pub has_fields :
      used
      ≡ record old { last_used_at = some (env.now s.ticks); updated_at = env.now (s.ticks + 1) }
  pub written : t.committed ≡ put_api_key used s.session

touch-Returns : (env : Env) (k : ApiKey) (s : State) → Returns (touch env k) s (Touched env s k)
unfolding touch
touch-Returns env k s = Returns-bind _ _ (update_last_used-Returns env s k) λ u t used.
    Returns-commit env _ λ c es ec. Returns-pure u (record {
      has_id = used.has_id;
      in_organisation = used.in_organisation;
      has_hash = used.has_hash;
      has_revoked_at = used.has_revoked_at;
      has_fields = used.has_fields;
      written = ec ∙ used.wrote.session;
    })

resolve_key-Returns :
    (env : Env) (token : Text) (s : State)
    → Returns (resolve_key env token) s (λ p t. ResolvedKey env token s.session p t.committed)
unfolding resolve_key
resolve_key-Returns env token s = Returns-query _ _ (
    Returns-or_raise _ _ _ λ k found.
      Returns-bind _ _ (Returns-transaction _ _ (touch-Returns env k s)) λ u t touched.
        let known = found_active (hash_key env token) s.session k found in
        Returns-pure _ (record {
          api_key = k;
          found = found;
          active = known.0;
          matches = known.1;
          used = u;
          has_id = touched.has_id;
          has_hash = touched.has_hash;
          has_revoked_at = touched.has_revoked_at ∙ known.0;
          at = s.ticks;
          has_fields = touched.has_fields;
          in_organisation = touched.in_organisation;
          written = touched.written;
          answer = refl;
        }))

-- A principal of the caller's token: the user whom it names, or the key of its digest.
pub data Principal (env : Env) (settings : AuthSettings) (token : Text) (s : State)
    (p : ProjectPrincipal) (t : State) : Type 0 where
  a_user :
      (q : CurrentPrincipal)
      → p ≡ ProjectPrincipal.user q
      → Resolved env settings token s q
      → t ≡ s
      → Principal env settings token s p t
  a_key : ResolvedKey env token s.session p t.committed → Principal env settings token s p t

as_user-Returns :
    (env : Env) (settings : AuthSettings) (token : Text) (s : State)
    → Returns (as_user env settings token) s (λ p _.
      (q : CurrentPrincipal) × (p ≡ ProjectPrincipal.user q) × Resolved env settings token s q)
unfolding as_user
as_user-Returns env settings token s =
    Returns-check _ _ (resolve_user_principal-ReadOnly env settings token)
      (resolve_user_principal-Returns env settings token s) λ q r. Returns-pure _ (q, refl, r)

as_user-ReadOnly :
    (env : Env) (settings : AuthSettings) (token : Text) → ReadOnly (as_user env settings token)
unfolding as_user
as_user-ReadOnly env settings token = search (read_rules, resolve_user_principal-ReadOnly)

-- A principal is returned for a user whom a valid token names, or for an active key whose digest is
-- the token's; the key's use is committed, and nothing else.
pub resolve_project_principal-Returns :
    (env : Env) (settings : AuthSettings) (token : Text) (s : State)
    → Returns (resolve_project_principal env settings token) s (Principal env settings token s)
unfolding resolve_project_principal catch
resolve_project_principal-Returns env settings token s = record {
  at = λ p t h.
      step p t (as_user env settings token s) refl ((as_user-ReadOnly env settings token).at s) h;
}
  where
    other :
        (p : ProjectPrincipal) (t : State) (b : Bool) (x : Error)
        → (if b then resolve_key env token else raise x) s ≡ (ok p, t)
        → Principal env settings token s p t
    other p t true x h = a_key ((resolve_key-Returns env token s).at p t h)
    other p t false x h = cc

    step :
        (p : ProjectPrincipal) (t : State) (m : Result ProjectPrincipal × State)
        → as_user env settings token s ≡ m
        → m.1 ≡ s
        → catch (λ _. m) (otherwise env token) s ≡ (ok p, t)
        → Principal env settings token s p t
    step p t (ok q, u) e same h =
        let r = (as_user-Returns env settings token s).at q u e in a_user r.0 (cc r.1) r.2 (cc same)
    step p t (err x, u) e same h =
        other p t (is_unresolved x) x (subst (λ v. otherwise env token x v ≡ (ok p, t)) same h)

touch-Commits : (env : Env) (k : ApiKey) → Commits (touch env k)
unfolding touch
touch-Commits env k = search (commit_rules, update_last_used-KeepsCommitted)

resolve_key-Atomic : (env : Env) (token : Text) → Atomic (resolve_key env token)
unfolding resolve_key
resolve_key-Atomic env token = search (atomic_rules, touch-Commits) depth 20

-- Authentication is a unit of work: a failed one leaves the database as it was.
pub resolve_project_principal-Atomic :
    (env : Env) (settings : AuthSettings) (token : Text)
    → Atomic (resolve_project_principal env settings token)
unfolding resolve_project_principal catch
resolve_project_principal-Atomic env settings token = record {
  at = λ s c. step s c (as_user env settings token s) ((as_user-ReadOnly env settings token).at s);
}
  where
    other :
        (s : State)
        → IsClean s
        → (b : Bool) (x : Error)
        → Whole s.committed ((if b then resolve_key env token else raise x) s)
    other s c true x = (resolve_key-Atomic env token).at s c
    other s c false x = (c, refl)

    step :
        (s : State)
        → IsClean s
        → (m : Result ProjectPrincipal × State) → m.1 ≡ s
        → Whole s.committed (catch (λ _. m) (otherwise env token) s)
    step s c (ok q, u) same = subst IsClean (sym same) c
    step s c (err x, u) same =
        subst (λ v. Whole s.committed (otherwise env token x v)) (sym same)
          (other s c (is_unresolved x) x)
