-- ===== src/MembershipService.antt =====
-- services/memberships.py: the listing, adding, re-ranking and removing of an organisation's members.
pub mod Atomicity
pub mod Boundaries
pub mod Effects
pub mod Outcomes
use multi_tenant_saas_api.Base.{
  ℕ, Bool, true, false, not, ◌||◌, Option, none, some, List, [], ◌∷◌, Text, codes, uuid_str,
  is_none, if◌then◌else◌,
}
use multi_tenant_saas_api.Domain.{OrganisationRole, Permission, AuditAction, role_eq, role_value}
use multi_tenant_saas_api.Json.{Json, Fields, field, end}
use multi_tenant_saas_api.Database.{User, OrganisationMembership}
use multi_tenant_saas_api.Exec.{
  Env, Action, Error, pure, raise, raise_if, or_raise, ◌>>=◌, ◌>>◌, commit, transaction, same_error,
  integrity_error, permission_denied, target_user_not_found, membership_already_exists,
  membership_not_found,
}
use multi_tenant_saas_api.Repositories.Users
use multi_tenant_saas_api.Repositories.Memberships
use multi_tenant_saas_api.Rbac.{
  CurrentPrincipal, TenantContext, get_tenant_context, protect_last_owner,
}
use multi_tenant_saas_api.Audit.{record_event}

pub record PublicMembershipUser : Type 0 where
  pub id : ℕ
  pub email : Text
  pub display_name : Text
  pub is_active : Bool

pub record PublicMembership : Type 0 where
  pub id : ℕ
  pub organisation_id : ℕ
  pub user : PublicMembershipUser
  pub role : OrganisationRole
  pub created_at : ℕ
  pub updated_at : ℕ

pub record MembershipList : Type 0 where
  pub items : List PublicMembership
  pub limit : ℕ
  pub offset : ℕ
  pub total : ℕ

abbrev pub public_membership_from_models : OrganisationMembership → User → PublicMembership
public_membership_from_models m u = record {
  id = m.id;
  organisation_id = m.organisation_id;
  user = record {
    id = u.id;
    email = u.email;
    display_name = u.display_name;
    is_active = u.is_active;
  };
  role = m.role;
  created_at = m.created_at;
  updated_at = m.updated_at;
}

abbrev is_owner : Option OrganisationRole → Bool
is_owner none = false
is_owner (some r) = role_eq r OrganisationRole.owner

-- The boundaries between owners and admins, by the role of the caller.
unfoldable pub role_management_allowed :
    OrganisationRole → Option OrganisationRole → Option OrganisationRole → Bool
role_management_allowed OrganisationRole.owner target_role requested_role = true
role_management_allowed OrganisationRole.admin target_role requested_role =
    not (is_owner target_role || is_owner requested_role)
role_management_allowed OrganisationRole.member target_role requested_role = false
role_management_allowed OrganisationRole.viewer target_role requested_role = false

abbrev pub ensure_role_management_allowed :
    TenantContext → Option OrganisationRole → Option OrganisationRole → Action (Unit {0})
ensure_role_management_allowed context target_role requested_role =
    raise_if (not (role_management_allowed context.role target_role requested_role))
      permission_denied

unfoldable pub protect_if_owner_would_be_removed :
    ℕ → ℕ → OrganisationRole → Option OrganisationRole → Action (Unit {0})
protect_if_owner_would_be_removed organisation_id target_user_id current_role new_role =
    if not (role_eq current_role OrganisationRole.owner)
    then pure tt
    else if is_owner new_role
    then pure tt
    else protect_last_owner organisation_id target_user_id new_role

-- `_public_membership_from_model` on each row of a page.
unfoldable pub public_memberships : List OrganisationMembership → Action (List PublicMembership)
public_memberships [] = pure []
public_memberships (m ∷ ms) = do
  found ← Users.get_by_id m.user_id
  user ← or_raise found target_user_not_found
  rest ← public_memberships ms
  pure (public_membership_from_models m user ∷ rest)

unfoldable pub list_members : CurrentPrincipal → ℕ → ℕ → ℕ → Action MembershipList
list_members principal organisation_id limit offset = do
  get_tenant_context principal organisation_id (some Permission.manage_members)
  memberships ← Memberships.list_for_organisation organisation_id limit offset
  items ← public_memberships memberships
  total ← Memberships.count_for_organisation organisation_id
  pure (record { items = items; limit = limit; offset = offset; total = total })

-- `except IntegrityError` of `add_member`
abbrev pub taken : Error → Error
taken integrity_error = membership_already_exists
taken e = e

abbrev member_metadata : ℕ → OrganisationRole → Fields
member_metadata user_id role =
    field (codes "user_id") (Json.str (uuid_str user_id))
      (field (codes "role") (Json.str (role_value role)) end)

unfoldable pub insert_member : Env → ℕ → ℕ → ℕ → OrganisationRole → Action OrganisationMembership
insert_member env actor_user_id organisation_id target_user_id role = do
  membership ← Memberships.create env organisation_id target_user_id role
  record_event env AuditAction.member_added (codes "membership") (some organisation_id)
      (some actor_user_id) none (some membership.id) (member_metadata target_user_id role)
  commit env
  pure membership

unfoldable pub add_member :
    Env → CurrentPrincipal → ℕ → ℕ → OrganisationRole → Action PublicMembership
add_member env principal organisation_id target_user_id role = do
  context ← get_tenant_context principal organisation_id (some Permission.manage_members)
  ensure_role_management_allowed context none (some role)
  found ← Users.get_by_id target_user_id
  target_user ← or_raise found target_user_not_found
  existing ← Memberships.get_for_user organisation_id target_user_id
  raise_if (not (is_none existing)) membership_already_exists
  membership ←
      transaction taken (insert_member env principal.user_id organisation_id target_user_id role)
  pure (public_membership_from_models membership target_user)

abbrev role_metadata : ℕ → OrganisationRole → OrganisationRole → Fields
role_metadata user_id old_role new_role = field (codes "user_id") (Json.str (uuid_str user_id)) (
    field (codes "old_role") (Json.str (role_value old_role))
      (field (codes "new_role") (Json.str (role_value new_role)) end))

unfoldable pub change_role :
    Env → ℕ → ℕ → ℕ → OrganisationMembership → OrganisationRole → Action OrganisationMembership
change_role env actor_user_id organisation_id target_user_id membership role = do
  updated ← Memberships.update_role env membership role
  record_event env AuditAction.member_role_changed (codes "membership") (some organisation_id)
      (some actor_user_id) none (some updated.id)
      (role_metadata target_user_id membership.role role)
  commit env
  pure updated

unfoldable pub update_member_role :
    Env → CurrentPrincipal → ℕ → ℕ → OrganisationRole → Action PublicMembership
update_member_role env principal organisation_id target_user_id role = do
  context ← get_tenant_context principal organisation_id (some Permission.manage_members)
  own ← Memberships.get_for_user organisation_id target_user_id
  membership ← or_raise own membership_not_found
  ensure_role_management_allowed context (some membership.role) (some role)
  protect_if_owner_would_be_removed organisation_id target_user_id membership.role (some role)
  found ← Users.get_by_id target_user_id
  target_user ← or_raise found target_user_not_found
  updated ←
      transaction same_error
        (change_role env principal.user_id organisation_id target_user_id membership role)
  pure (public_membership_from_models updated target_user)

unfoldable pub take_out : Env → ℕ → ℕ → ℕ → OrganisationMembership → Action (Unit {0})
take_out env actor_user_id organisation_id target_user_id membership = do
  Memberships.delete env membership
  record_event env AuditAction.member_removed (codes "membership") (some organisation_id)
      (some actor_user_id) none (some membership.id)
      (member_metadata target_user_id membership.role)
  commit env
  pure tt

unfoldable pub remove_member : Env → CurrentPrincipal → ℕ → ℕ → Action (Unit {0})
remove_member env principal organisation_id target_user_id = do
  context ← get_tenant_context principal organisation_id (some Permission.manage_members)
  own ← Memberships.get_for_user organisation_id target_user_id
  membership ← or_raise own membership_not_found
  ensure_role_management_allowed context (some membership.role) none
  protect_if_owner_would_be_removed organisation_id target_user_id membership.role none
  transaction same_error (take_out env principal.user_id organisation_id target_user_id membership)
