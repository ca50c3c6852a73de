-- ===== src/Routes/Memberships.antt =====
-- routes/memberships.py.
use multi_tenant_saas_api.Base.{ℕ, codes}
use multi_tenant_saas_api.Exec.{
  Env, Action, Error, pure, ◌>>=◌, or_raise, validation_error, last_owner_protection,
  membership_not_found, membership_already_exists, target_user_not_found,
}
use multi_tenant_saas_api.Rbac.{CurrentPrincipal}
use multi_tenant_saas_api.MembershipService
use multi_tenant_saas_api.MembershipService.{PublicMembership, PublicMembershipUser, MembershipList}
use multi_tenant_saas_api.Schemas.Fields.{Page, page_response, validated, has_length}
use multi_tenant_saas_api.Schemas.Bodies.{MembershipCreateRequest, MembershipUpdateRequest}
use multi_tenant_saas_api.Schemas.Responses.{UserSummary, MembershipResponse, validate_items}
use multi_tenant_saas_api.Routes.{not_found, conflict, tenant_error, translated}

-- `UserSummary`: the address as email-validator writes it, and a bound on the name.
unfoldable pub user_summary : Env → PublicMembershipUser → Action UserSummary
user_summary env u = do
  email ← or_raise (env.validate_email u.email) validation_error
  validated (has_length 1 120 u.display_name)
      (record { id = u.id; email = email; display_name = u.display_name; is_active = u.is_active })

unfoldable pub membership_response : Env → PublicMembership → Action MembershipResponse
membership_response env m = do
  user ← user_summary env m.user
  pure (record {
    id = m.id;
    organisation_id = m.organisation_id;
    user = user;
    role = m.role;
    created_at = m.created_at;
    updated_at = m.updated_at;
  })

unfoldable pub membership_list_response : Env → MembershipList → Action (Page MembershipResponse)
membership_list_response env memberships = do
  items ← validate_items (membership_response env) memberships.items
  page_response items memberships.limit memberships.offset memberships.total

abbrev pub list_error : Error → Error
list_error target_user_not_found = not_found (codes "user was not found")
list_error e = tenant_error e

abbrev pub add_error : Error → Error
add_error membership_already_exists =
    conflict (codes "user is already a member of this organisation")
add_error e = list_error e

abbrev pub remove_error : Error → Error
remove_error last_owner_protection =
    conflict (codes "organisation must always have at least one owner")
remove_error membership_not_found = not_found (codes "membership was not found")
remove_error e = tenant_error e

abbrev pub update_error : Error → Error
update_error target_user_not_found = not_found (codes "user was not found")
update_error e = remove_error e

module _ (env : Env) (principal : CurrentPrincipal) (organisation_id : ℕ) where
  unfoldable pub list_members : ℕ → ℕ → Action (Page MembershipResponse)
  list_members limit offset = do
    memberships ←
        translated list_error
          (MembershipService.list_members principal organisation_id limit offset)
    membership_list_response env memberships

  unfoldable pub add_member : MembershipCreateRequest → Action MembershipResponse
  add_member payload = do
    membership ←
        translated add_error
          (MembershipService.add_member env principal organisation_id payload.user_id payload.role)
    membership_response env membership

  unfoldable pub update_member_role : ℕ → MembershipUpdateRequest → Action MembershipResponse
  update_member_role user_id payload = do
    membership ←
        translated update_error
          (MembershipService.update_member_role env principal organisation_id user_id payload.role)
    membership_response env membership

  -- Status 204.
  unfoldable pub remove_member : ℕ → Action (Unit {0})
  remove_member user_id =
      translated remove_error
        (MembershipService.remove_member env principal organisation_id user_id)
