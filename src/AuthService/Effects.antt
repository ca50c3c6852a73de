-- ===== src/AuthService/Effects.antt =====
-- What registration and login do to the database.
pub mod Login
use multi_tenant_saas_api.Base.{
  ℕ, ◌≤◌, ◌≡◌, ◌≢◌, ◌∙◌, refl, ap, subst, Bool, true, false, ◌&&◌, Option, none, some, Text, scalar,
  text_eq, length, strip, [], ◌∷◌, arith,
}
use multi_tenant_saas_api.Domain.{AuditAction}
use multi_tenant_saas_api.Database.{Db, User, user_fits}
use multi_tenant_saas_api.Exec.{
  Env, State, Action, err, ◌>>=◌, catch, now, uuid4, flush, rollback, invalid_credentials,
}
use multi_tenant_saas_api.Exec.Returns.{
  Returns, Returns-bind, Returns-query, Returns-commit, Returns-record_metric, Returns-pure,
}
use multi_tenant_saas_api.Repositories.Users
use multi_tenant_saas_api.Repositories.Users.{add_user}
use multi_tenant_saas_api.Repositories.Outcomes.{Wrote}
use multi_tenant_saas_api.Audit.Events.{Logged, Logged-of-Recorded, record_event-Returns}
use multi_tenant_saas_api.Auth.{AuthSettings, verify_password, hash_password, validate_password}
use multi_tenant_saas_api.AuthService.{
  normalise_email, insert_user, login_user, register_user, PublicUser, public_user_from_model,
  hash_new_password, registration_failed, reject_taken,
}

-- The credentials are those of an active user.
unfoldable pub credentials_hold : Env → Text → Option User → Bool
credentials_hold env password none = false
credentials_hold env password (some u) = u.is_active && verify_password env password u.password_hash

unfoldable pub user_of_email : Text → Db → Option User
user_of_email email db = scalar (λ u. text_eq u.email (normalise_email email)) db.users

-- If the address is unknown, its user inactive, or the password wrong, login raises the one error
-- for invalid credentials, and writes nothing to the session or the database.
pub login_user-refuses :
    (env : Env) (settings : AuthSettings) (email password : Text) (s : State)
    → credentials_hold env password (user_of_email email s.session) ≡ false
    → ((login_user env settings email password s).0 ≡ err invalid_credentials)
      × ((login_user env settings email password s).1.session ≡ s.session)
      × ((login_user env settings email password s).1.committed ≡ s.committed)
unfolding login_user ◌>>=◌ credentials_hold user_of_email
login_user-refuses env settings email password s h = ground arith

-- The new row, with a hash in place of the password, and its event.
pub record Registered (env : Env) (settings : AuthSettings) (email password display_name : Text)
    (before : Db) (v : PublicUser) (after : Db) : Type 0 where
  pub free : user_of_email email before ≡ none
  pub long_enough : settings.password_min_length ≤ length password
  pub short_enough : length password ≤ 256
  pub not_blank : strip password ≢ []
  pub user : User
  pub logged :
      Logged before after
        (add_user user)
        AuditAction.user_registered
        none
        (some user.id)
        none
        (some user.id)
  pub fits : user_fits before user ≡ true
  pub has_email : user.email ≡ normalise_email email
  pub has_display_name : user.display_name ≡ display_name
  pub active : user.is_active ≡ true
  pub salt : ℕ
  pub hashed : user.password_hash ≡ env.hash_password salt password
  pub answer : v ≡ public_user_from_model user

record NewUser (s : State) (email name hash : Text) (u : User) (t : State) : Type 0 where
  pub wrote : Wrote s t (add_user u)
  pub fits : user_fits s.session u ≡ true
  pub has_email : u.email ≡ email
  pub has_display_name : u.display_name ≡ name
  pub has_hash : u.password_hash ≡ hash
  pub active : u.is_active ≡ true

create_user-Returns :
    (env : Env) (email name hash : Text) (s : State)
    → Returns (Users.create env email name hash true) s (NewUser s email name hash)
unfolding Users.create uuid4 now flush ◌>>=◌
create_user-Returns env email name hash s = record { at = λ u t h. ground arith }

record Inserted (email name hash : Text) (before : Db) (user : User) (after : Db) : Type 0 where
  pub logged :
      Logged before after
        (add_user user)
        AuditAction.user_registered
        none
        (some user.id)
        none
        (some user.id)
  pub fits : user_fits before user ≡ true
  pub has_email : user.email ≡ email
  pub has_display_name : user.display_name ≡ name
  pub has_hash : user.password_hash ≡ hash
  pub active : user.is_active ≡ true

insert_user-Returns :
    (env : Env) (email name hash : Text) (s : State)
    → Returns
        (insert_user env email name hash)
        s
        (λ u t. Inserted email name hash s.session u t.committed)
unfolding insert_user
insert_user-Returns env email name hash s =
    Returns-bind _ _ (create_user-Returns env email name hash s) λ u t new.
      Returns-bind _ _ (record_event-Returns env t _ _ _ _ _ _ _) λ v w recorded.
        Returns-commit env _ λ c es ec. Returns-record_metric _ _ λ m fs fc.
          Returns-pure u (record {
            logged = Logged-of-Recorded new.wrote.session recorded (fc ∙ ec);
            fits = new.fits;
            has_email = new.has_email;
            has_display_name = new.has_display_name;
            has_hash = new.has_hash;
            active = new.active;
          })

nonempty : (t : Text) → text_eq t [] ≡ false → t ≢ []
unfolding text_eq
nonempty [] h = cc
nonempty (c ∷ t) h = λ e. cc

hash_new_password-Returns :
    (env : Env) (settings : AuthSettings) (password : Text) (s : State)
    → Returns (hash_new_password env settings password) s (λ hash t.
      (settings.password_min_length ≤ length password)
      × (length password ≤ 256)
      × (text_eq (strip password) [] ≡ false)
      × (t.session ≡ s.session)
      × (hash ≡ env.hash_password s.ticks password))
unfolding hash_new_password hash_password validate_password catch ◌>>=◌
hash_new_password-Returns env settings password s = record { at = λ hash t h. ground arith }

Returns-register :
    (m : Action User) (s : State) {P : User → State → Type 0}
    → Returns m s P
    → Returns (catch m registration_failed) s P
unfolding catch rollback ◌>>=◌
Returns-register m s r = record { at = λ u t h. r.at u t (ground arith) }

reject_taken-Returns :
    (found : Option User) (s : State)
    → Returns (reject_taken found) s (λ _ t. (found ≡ none) × (t ≡ s))
unfolding ◌>>=◌
reject_taken-Returns none s = record { at = λ x t h. ground arith }
reject_taken-Returns (some u) s = record { at = λ x t h. cc }

-- A returned registration has committed an active user under a free address, with the hash of a
-- password that the policy allows, and its event, and nothing else.
pub register_user-Returns :
    (env : Env) (settings : AuthSettings) (email password name : Text) (s : State)
    → Returns
        (register_user env settings email password name)
        s
        (λ v t. Registered env settings email password name s.session v t.committed)
unfolding register_user user_of_email
register_user-Returns env settings email password name s = Returns-query _ _ (
    Returns-bind _ _ (reject_taken-Returns _ s) λ x s1 free.
      Returns-bind _ _ (hash_new_password-Returns env settings password s1) λ hash s2 allowed.
        Returns-bind _ _
          (Returns-register _ s2 (insert_user-Returns env (normalise_email email) name hash s2))
          λ u t new.
            let same : s2.session ≡ s.session = allowed.3 ∙ ap (λ x. x.session) free.1 in
            Returns-pure _ (record {
              free = free.0;
              long_enough = allowed.0;
              short_enough = allowed.1;
              not_blank = nonempty _ allowed.2;
              user = u;
              logged =
                  subst
                    (λ d.
                      Logged d t.committed (add_user u) AuditAction.user_registered none (some u.id)
                        none (some u.id))
                    same new.logged;
              fits = subst (λ d. user_fits d u ≡ true) same new.fits;
              has_email = new.has_email;
              has_display_name = new.has_display_name;
              active = new.active;
              salt = s1.ticks;
              hashed = new.has_hash ∙ allowed.4;
              answer = refl;
            }))
