-- ===== src/Examples/Requests.antt =====
-- The theorems on owners, logins, slugs and permissions at concrete inputs.
use multi_tenant_saas_api.Base.{
  ℕ, ◌↔◌, ◌≤◌, ◌≡◌, ◌≢◌, ◌⊎◌, refl, Bool, true, false, Option, none, some, List, [], ◌∷◌, ◌++◌,
  Text, codes, length, text_eq, ◌==◌, drop, arith, if◌then◌else◌, ◌+◌,
}
use multi_tenant_saas_api.Domain.{OrganisationRole, Permission, role_has_permission}
use multi_tenant_saas_api.Domain.Permissions.{role_has_permission_mono}
use multi_tenant_saas_api.Exec.{err, invalid_credentials}
use multi_tenant_saas_api.Repositories.Memberships.{find_for_user}
use multi_tenant_saas_api.Auth.{AuthSettings, AccessToken}
use multi_tenant_saas_api.MembershipService.{add_member, update_member_role, remove_member}
use multi_tenant_saas_api.MembershipService.Boundaries.{
  SameOwners, add_member-owners, update_member_role-owners, remove_member-owners,
}
use multi_tenant_saas_api.OrganisationService.Slug.{slug_from_name}
use multi_tenant_saas_api.OrganisationService.Slug.Shape.{is_slug, slug_from_name-is_slug}
use multi_tenant_saas_api.AuthService.{register_user, login_user}
use multi_tenant_saas_api.AuthService.Effects.{credentials_hold, user_of_email, login_user-refuses}
use multi_tenant_saas_api.Examples.{env, settings, of_bob, db, start, as_bob, db-IsValid}

not_owner : OrganisationRole.admin ≢ OrganisationRole.owner
not_owner = λ e. cc

bob_is_member : find_for_user 10 2 db ≡ some of_bob
unfolding find_for_user
bob_is_member = refl

add_member-owners_example :
    SameOwners 10 db (add_member env as_bob 10 3 OrganisationRole.viewer start).1.committed
add_member-owners_example =
    add_member-owners env as_bob 10 3 start of_bob refl bob_is_member not_owner
      OrganisationRole.viewer

update_member_role-owners_example :
    SameOwners 10 db (update_member_role env as_bob 10 1 OrganisationRole.viewer start).1.committed
update_member_role-owners_example =
    update_member_role-owners env as_bob 10 1 start of_bob refl bob_is_member not_owner
      OrganisationRole.viewer db-IsValid.membership_ids

remove_member-owners_example : SameOwners 10 db (remove_member env as_bob 10 1 start).1.committed
remove_member-owners_example =
    remove_member-owners env as_bob 10 1 start of_bob refl bob_is_member not_owner
      db-IsValid.membership_ids

login_user-refuses_example :
    ((login_user env settings (codes "bob@acme.test") (codes "wrong") start).0
      ≡ err invalid_credentials)
    × ((login_user env settings (codes "bob@acme.test") (codes "wrong") start).1.session ≡ db)
    × ((login_user env settings (codes "bob@acme.test") (codes "wrong") start).1.committed ≡ db)
unfolding credentials_hold user_of_email text_eq multi_tenant_saas_api.AuthService.normalise_email
    multi_tenant_saas_api.Base.lower multi_tenant_saas_api.Base.strip
    multi_tenant_saas_api.Auth.verify_password
login_user-refuses_example =
    login_user-refuses env settings (codes "bob@acme.test") (codes "wrong") start refl

slug_from_name-is_slug_example :
    (is_slug (slug_from_name (codes "  Acme & Sons, Ltd. ")) ≡ true)
    × (3 ≤ length (slug_from_name (codes "  Acme & Sons, Ltd. ")))
    × (length (slug_from_name (codes "  Acme & Sons, Ltd. ")) ≤ 80)
slug_from_name-is_slug_example = slug_from_name-is_slug (codes "  Acme & Sons, Ltd. ")

role_has_permission_mono_example :
    role_has_permission OrganisationRole.admin Permission.write_projects ≡ true
unfolding role_has_permission
role_has_permission_mono_example =
    role_has_permission_mono OrganisationRole.member OrganisationRole.admin
      Permission.write_projects (omega arith) refl
