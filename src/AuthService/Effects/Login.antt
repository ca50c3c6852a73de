-- ===== src/AuthService/Effects/Login.antt =====
-- What login does to the database.
use multi_tenant_saas_api.Base.{ℕ, ◌≡◌, ◌∙◌, refl, ap, subst, true, Option, none, some, Text, arith}
use multi_tenant_saas_api.Domain.{AuditAction}
use multi_tenant_saas_api.Database.{Db, User}
use multi_tenant_saas_api.Exec.{Env, State, ◌>>=◌, now}
use multi_tenant_saas_api.Exec.Returns.{
  Returns, Returns-bind, Returns-query, Returns-transaction, Returns-commit, Returns-record_metric,
  Returns-pure,
}
use multi_tenant_saas_api.Audit.Events.{Logged, Logged-of-Recorded, record_event-Returns}
use multi_tenant_saas_api.Auth.{
  AuthSettings, AccessToken, verify_password, create_access_token, token_payload,
}
use multi_tenant_saas_api.AuthService.{log_in, login_user, active_user, check_password}
use multi_tenant_saas_api.AuthService.Effects.{credentials_hold, user_of_email}

-- An active user with this password, the event, and a token that names the user.
pub record LoggedIn (env : Env) (settings : AuthSettings) (email password : Text) (before : Db)
    (v : AccessToken) (after : Db) : Type 0 where
  pub user : User
  pub found : user_of_email email before ≡ some user
  pub held : credentials_hold env password (some user) ≡ true
  pub logged :
      Logged before after
        (λ d. d)
        AuditAction.user_logged_in
        none
        (some user.id)
        none
        (some user.id)
  pub issued_at : ℕ
  pub token :
      v.token ≡ env.jwt_encode (token_payload settings user.id issued_at) settings.jwt_secret

active_user-Returns :
    (found : Option User) (s : State)
    → Returns (active_user found) s (λ u t. (found ≡ some u) × (u.is_active ≡ true) × (t ≡ s))
unfolding ◌>>=◌
active_user-Returns none s = record { at = λ x t h. cc }
active_user-Returns (some u) s = record { at = λ x t h. ground arith }

check_password-Returns :
    (env : Env) (password : Text) (u : User) (s : State)
    → Returns
        (check_password env password u)
        s
        (λ _ t. (verify_password env password u.password_hash ≡ true) × (t ≡ s))
unfolding ◌>>=◌
check_password-Returns env password u s = record { at = λ x t h. ground arith }

create_access_token-Returns :
    (env : Env) (settings : AuthSettings) (u : ℕ) (s : State)
    → Returns (create_access_token env settings u) s (λ v t.
      (v.token ≡ env.jwt_encode (token_payload settings u (env.now s.ticks)) settings.jwt_secret)
      × (t.session ≡ s.session))
unfolding create_access_token now ◌>>=◌
create_access_token-Returns env settings u s = record { at = λ v t h. ground arith }

log_in-Returns :
    (env : Env) (u : User) (s : State)
    → Returns (log_in env u) s (λ _ t.
      Logged s.session t.committed
        (λ d. d)
        AuditAction.user_logged_in
        none
        (some u.id)
        none
        (some u.id))
unfolding log_in
log_in-Returns env u s = Returns-bind _ _ (record_event-Returns env s _ _ _ _ _ _ _) λ v w recorded.
    Returns-commit env _ λ c es ec.
      Returns-record_metric _ _
        λ m fs fc. Returns-pure tt (Logged-of-Recorded refl recorded (fc ∙ ec))

pub login_user-Returns :
    (env : Env) (settings : AuthSettings) (email password : Text) (s : State)
    → Returns
        (login_user env settings email password)
        s
        (λ v t. LoggedIn env settings email password s.session v t.committed)
unfolding login_user user_of_email credentials_hold
login_user-Returns env settings email password s = Returns-query _ _ (
    Returns-bind _ _ (active_user-Returns _ s) λ u s1 active.
      Returns-bind _ _ (check_password-Returns env password u s1) λ x s2 matches.
        Returns-bind _ _ (create_access_token-Returns env settings u.id s2) λ v s3 made.
          Returns-bind _ _ (Returns-transaction _ _ (log_in-Returns env u s3)) λ y t logged.
            let same : s3.session ≡ s.session =
              made.1 ∙ ap (λ z. z.session) matches.1 ∙ ap (λ z. z.session) active.2 in
            Returns-pure v (record {
              user = u;
              found = active.0;
              held = ground (arith, active.1, matches.0);
              logged =
                  subst
                    (λ d.
                      Logged d t.committed (λ e. e) AuditAction.user_logged_in none (some u.id) none
                        (some u.id))
                    same logged;
              issued_at = env.now s2.ticks;
              token = made.0;
            }))
