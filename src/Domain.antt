-- ===== src/Domain.antt =====
-- domain.py: the enumerations of the domain and the permissions of each role.
pub mod Permissions
use multi_tenant_saas_api.Base.{ℕ, String, Bool, List, [], ◌∷◌, Text, codes, any, ◌==◌}

pub data OrganisationRole : Type 0 where
  owner admin member viewer : OrganisationRole

pub data Permission : Type 0 where
  read_organisation update_organisation manage_organisation : Permission
  manage_members manage_api_keys read_projects write_projects read_audit_events : Permission

pub data ProjectStatus : Type 0 where
  active archived : ProjectStatus

pub data ProjectSortField : Type 0 where
  created_at name status : ProjectSortField

pub data SortDirection : Type 0 where
  asc desc : SortDirection

pub data AuditAction : Type 0 where
  user_registered user_logged_in : AuditAction
  organisation_created organisation_updated : AuditAction
  member_added member_role_changed member_removed : AuditAction
  project_created project_updated project_deleted : AuditAction
  api_key_created api_key_revoked : AuditAction

-- Members of an enumeration are compared by their place in it.
abbrev role_index : OrganisationRole → ℕ
role_index OrganisationRole.owner = 0
role_index OrganisationRole.admin = 1
role_index OrganisationRole.member = 2
role_index OrganisationRole.viewer = 3

abbrev pub role_eq : OrganisationRole → OrganisationRole → Bool
role_eq r q = role_index r == role_index q

abbrev permission_index : Permission → ℕ
permission_index Permission.read_organisation = 0
permission_index Permission.update_organisation = 1
permission_index Permission.manage_organisation = 2
permission_index Permission.manage_members = 3
permission_index Permission.manage_api_keys = 4
permission_index Permission.read_projects = 5
permission_index Permission.write_projects = 6
permission_index Permission.read_audit_events = 7

abbrev pub permission_eq : Permission → Permission → Bool
permission_eq p q = permission_index p == permission_index q

abbrev status_index : ProjectStatus → ℕ
status_index ProjectStatus.active = 0
status_index ProjectStatus.archived = 1

abbrev pub status_eq : ProjectStatus → ProjectStatus → Bool
status_eq s t = status_index s == status_index t

-- `role.value`
abbrev pub role_value : OrganisationRole → Text
role_value OrganisationRole.owner = codes "owner"
role_value OrganisationRole.admin = codes "admin"
role_value OrganisationRole.member = codes "member"
role_value OrganisationRole.viewer = codes "viewer"

-- `status.value`
abbrev pub status_value : ProjectStatus → Text
status_value ProjectStatus.active = codes "active"
status_value ProjectStatus.archived = codes "archived"

-- `frozenset(Permission)`
abbrev all_permissions : List Permission
all_permissions =
    Permission.read_organisation ∷ Permission.update_organisation ∷ Permission.manage_organisation
    ∷ Permission.manage_members ∷ Permission.manage_api_keys ∷ Permission.read_projects
    ∷ Permission.write_projects ∷ Permission.read_audit_events ∷ []

-- `ROLE_PERMISSIONS`, and `permissions_for_role`
unfoldable pub permissions_for_role : OrganisationRole → List Permission
permissions_for_role OrganisationRole.owner = all_permissions
permissions_for_role OrganisationRole.admin =
    Permission.read_organisation ∷ Permission.update_organisation ∷ Permission.manage_members
    ∷ Permission.manage_api_keys ∷ Permission.read_projects ∷ Permission.write_projects
    ∷ Permission.read_audit_events ∷ []
permissions_for_role OrganisationRole.member =
    Permission.read_organisation ∷ Permission.read_projects ∷ Permission.write_projects ∷ []
permissions_for_role OrganisationRole.viewer =
    Permission.read_organisation ∷ Permission.read_projects ∷ []

-- `permission in permissions`
abbrev pub contains_permission : Permission → List Permission → Bool
contains_permission p ps = any (permission_eq p) ps

unfoldable pub role_has_permission : OrganisationRole → Permission → Bool
unfolding permissions_for_role
role_has_permission r p = contains_permission p (permissions_for_role r)
