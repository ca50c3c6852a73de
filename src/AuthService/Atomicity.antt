-- ===== src/AuthService/Atomicity.antt =====
-- Registration and login are units of work.
use multi_tenant_saas_api.Base.{refl, ℕ, Option, none, some, Text, arith}
use multi_tenant_saas_api.Database.{User}
use multi_tenant_saas_api.Exec.{Env, Action, ◌>>=◌, catch, rollback, now}
use multi_tenant_saas_api.Exec.Rules.{
  Commits, Idle, Atomic, Atomic-bind, Atomic-bind-Idle, Atomic-map, Atomic-transaction,
  Settles-of-Commits, ReadOnly-query, commit_rules,
}
use multi_tenant_saas_api.Repositories.Pending.{create_user-KeepsCommitted}
use multi_tenant_saas_api.Audit.Pending.{record_event-KeepsCommitted}
use multi_tenant_saas_api.Auth.{AuthSettings, create_access_token, hash_password, validate_password}
use multi_tenant_saas_api.AuthService.{
  insert_user, hash_new_password, reject_taken, registration_failed, register_user, active_user,
  check_password, log_in, login_user,
}

module _ (env : Env) where
  insert_user-Commits : (email name hash : Text) → Commits (insert_user env email name hash)
  unfolding insert_user
  insert_user-Commits email name hash =
      search (commit_rules, create_user-KeepsCommitted, record_event-KeepsCommitted)

  log_in-Commits : (u : User) → Commits (log_in env u)
  unfolding log_in
  log_in-Commits u = search (commit_rules, record_event-KeepsCommitted)

  hash_new_password-Idle :
      (settings : AuthSettings) (password : Text) → Idle (hash_new_password env settings password)
  unfolding hash_new_password hash_password validate_password catch ◌>>=◌
  hash_new_password-Idle settings password = record {
    session = λ s. ground arith;
    committed = λ s. ground arith;
  }

  check_password-Idle : (password : Text) (u : User) → Idle (check_password env password u)
  unfolding ◌>>=◌
  check_password-Idle password u = record {
    session = λ s. ground arith;
    committed = λ s. ground arith;
  }

  create_access_token-Idle :
      (settings : AuthSettings) (u : ℕ) → Idle (create_access_token env settings u)
  unfolding create_access_token now ◌>>=◌
  create_access_token-Idle settings u = record { session = λ s. refl; committed = λ s. refl }

reject_taken-Idle : (found : Option User) → Idle (reject_taken found)
unfolding ◌>>=◌
reject_taken-Idle none = record { session = λ s. refl; committed = λ s. refl }
reject_taken-Idle (some u) = record { session = λ s. refl; committed = λ s. refl }

active_user-Idle : (found : Option User) → Idle (active_user found)
unfolding ◌>>=◌
active_user-Idle none = record { session = λ s. refl; committed = λ s. refl }
active_user-Idle (some u) = record { session = λ s. ground arith; committed = λ s. ground arith }

Atomic-register : (m : Action User) → Commits m → Atomic (catch m registration_failed)
unfolding catch rollback ◌>>=◌
Atomic-register m cm = record { at = λ s c. ground (arith, cm.at s) }

-- Registration is a unit of work.
pub register_user-Atomic :
    (env : Env) (settings : AuthSettings) (email password name : Text)
    → Atomic (register_user env settings email password name)
unfolding register_user
register_user-Atomic env settings email password name = Atomic-bind _ _ (ReadOnly-query _) λ found.
    Atomic-bind-Idle _ _ (reject_taken-Idle found) λ x.
      Atomic-bind-Idle _ _ (hash_new_password-Idle env settings password)
        λ hash. Atomic-map _ _ (Atomic-register _ (insert_user-Commits env _ name hash))

-- So is login.
pub login_user-Atomic :
    (env : Env) (settings : AuthSettings) (email password : Text)
    → Atomic (login_user env settings email password)
unfolding login_user
login_user-Atomic env settings email password = Atomic-bind _ _ (ReadOnly-query _) λ found.
    Atomic-bind-Idle _ _ (active_user-Idle found) λ u.
      Atomic-bind-Idle _ _ (check_password-Idle env password u) λ x.
        Atomic-bind-Idle _ _ (create_access_token-Idle env settings u.id) λ token.
          Atomic-map _ _ (Atomic-transaction _ _ (Settles-of-Commits _ (log_in-Commits env u)))
