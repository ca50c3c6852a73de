-- ===== src/AuthService.antt =====
-- services/auth_api.py: registration, login and the current user.
pub mod Atomicity
pub mod Effects
pub mod Outcomes
use multi_tenant_saas_api.Base.{
  ℕ, Bool, true, false, not, ◌||◌, Option, none, some, List, [], ◌∷◌, Text, codes, strip, lower,
  is_none, if◌then◌else◌,
}
use multi_tenant_saas_api.Domain.{OrganisationRole, AuditAction}
use multi_tenant_saas_api.Json.{end}
use multi_tenant_saas_api.Database.{User, Organisation, OrganisationMembership}
use multi_tenant_saas_api.Exec.{
  Env, Action, Error, Metric, Operation, Outcome, pure, raise, raise_if, or_raise, catch, ◌>>=◌,
  ◌>>◌, commit, rollback, transaction, same_error, record_metric, auth_attempt, integrity_error,
  email_already_registered, invalid_credentials, invalid_bearer_token, principal_resolution,
}
use multi_tenant_saas_api.Repositories.Users
use multi_tenant_saas_api.Repositories.Memberships
use multi_tenant_saas_api.Repositories.Organisations
use multi_tenant_saas_api.Auth.{
  AuthSettings, AccessToken, policy_from_settings, hash_password, verify_password,
  create_access_token,
}
use multi_tenant_saas_api.Rbac.{CurrentPrincipal}
use multi_tenant_saas_api.Rbac.Principals.{resolve_user_principal}
use multi_tenant_saas_api.Audit.{record_event}

pub record PublicUser : Type 0 where
  pub id : ℕ
  pub email : Text
  pub display_name : Text
  pub is_active : Bool
  pub created_at : ℕ
  pub updated_at : ℕ

pub record CurrentUserMembership : Type 0 where
  pub membership_id : ℕ
  pub organisation_id : ℕ
  pub organisation_name : Text
  pub organisation_slug : Text
  pub role : OrganisationRole

pub record CurrentUser : Type 0 where
  pub user : PublicUser
  pub memberships : List CurrentUserMembership

unfoldable pub normalise_email : Text → Text
normalise_email email = lower (strip email)

abbrev pub public_user_from_model : User → PublicUser
public_user_from_model u = record {
  id = u.id;
  email = u.email;
  display_name = u.display_name;
  is_active = u.is_active;
  created_at = u.created_at;
  updated_at = u.updated_at;
}

abbrev pub current_user_membership_from_models :
    OrganisationMembership → Organisation → CurrentUserMembership
current_user_membership_from_models m o = record {
  membership_id = m.id;
  organisation_id = o.id;
  organisation_name = o.name;
  organisation_slug = o.slug;
  role = m.role;
}

abbrev pub failed : {A : Type 0} → Operation → Error → Action A
failed operation e = do record_metric (auth_attempt operation Outcome.failure); raise e

unfoldable pub insert_user : Env → Text → Text → Text → Action User
insert_user env email display_name password_hash = do
  user ← Users.create env email display_name password_hash true
  record_event env AuditAction.user_registered (codes "user") none (some user.id) none
      (some user.id) end
  commit env
  record_metric (auth_attempt Operation.register Outcome.success)
  pure user

abbrev is_integrity_error : Error → Bool
is_integrity_error integrity_error = true
is_integrity_error e = false

-- `except IntegrityError`, then `except Exception`.
abbrev registration_failed : {A : Type 0} → Error → Action A
registration_failed e = do
  rollback
  if is_integrity_error e then failed Operation.register email_already_registered else raise e

abbrev pub reject_taken : Option User → Action (Unit {0})
reject_taken none = pure tt
reject_taken (some u) = failed Operation.register email_already_registered

unfoldable pub hash_new_password : Env → AuthSettings → Text → Action Text
hash_new_password env settings password =
    catch (hash_password env (policy_from_settings settings) password) (failed Operation.register)

unfoldable pub register_user : Env → AuthSettings → Text → Text → Text → Action PublicUser
unfolding normalise_email
register_user env settings email password display_name = do
  existing_user ← Users.get_by_email (normalise_email email)
  reject_taken existing_user
  password_hash ← hash_new_password env settings password
  user ←
      catch (insert_user env (normalise_email email) display_name password_hash) registration_failed
  pure (public_user_from_model user)

abbrev pub active_user : Option User → Action User
active_user none = failed Operation.login invalid_credentials
active_user (some u) = if u.is_active then pure u else failed Operation.login invalid_credentials

abbrev pub check_password : Env → Text → User → Action (Unit {0})
check_password env password u =
    if verify_password env password u.password_hash
    then pure tt
    else failed Operation.login invalid_credentials

unfoldable pub log_in : Env → User → Action (Unit {0})
log_in env user = do
  record_event env AuditAction.user_logged_in (codes "user") none (some user.id) none (some user.id)
      end
  commit env
  record_metric (auth_attempt Operation.login Outcome.success)
  pure tt

unfoldable pub login_user : Env → AuthSettings → Text → Text → Action AccessToken
unfolding normalise_email
login_user env settings email password = do
  found ← Users.get_by_email (normalise_email email)
  user ← active_user found
  check_password env password user
  access_token ← create_access_token env settings user.id
  transaction same_error (log_in env user)
  pure access_token

abbrev with_organisation :
    OrganisationMembership
    → Option Organisation
    → List CurrentUserMembership
    → List CurrentUserMembership
with_organisation m none rest = rest
with_organisation m (some o) rest = current_user_membership_from_models m o ∷ rest

-- The memberships whose organisation is found.
unfoldable pub current_user_memberships :
    List OrganisationMembership → Action (List CurrentUserMembership)
current_user_memberships [] = pure []
current_user_memberships (m ∷ ms) = do
  organisation ← Organisations.get_by_id m.organisation_id
  rest ← current_user_memberships ms
  pure (with_organisation m organisation rest)

abbrev is_unresolved : Error → Bool
is_unresolved principal_resolution = true
is_unresolved e = false

abbrev bearer_error : {A : Type 0} → Error → Action A
bearer_error e = raise (if is_unresolved e then invalid_bearer_token else e)

abbrev pub public_user_from_principal : CurrentPrincipal → PublicUser
public_user_from_principal p = record {
  id = p.user_id;
  email = p.email;
  display_name = p.display_name;
  is_active = p.is_active;
  created_at = p.created_at;
  updated_at = p.updated_at;
}

unfoldable pub get_current_user : Env → AuthSettings → Text → Action CurrentUser
get_current_user env settings bearer_token = do
  principal ← catch (resolve_user_principal env settings bearer_token) bearer_error
  memberships ← Memberships.list_for_user principal.user_id
  items ← current_user_memberships memberships
  pure (record { user = public_user_from_principal principal; memberships = items })
