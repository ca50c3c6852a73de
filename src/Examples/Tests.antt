-- ===== src/Examples/Tests.antt =====
-- Tests: what some of the operations give, and two sessions that overlap.
use multi_tenant_saas_api.Base.{
  ℕ, ◌↔◌, ◌≤◌, ◌≡◌, ◌≢◌, ◌⊎◌, refl, Bool, true, false, Option, none, some, List, [], ◌∷◌, ◌++◌,
  Text, codes, length, text_eq, ◌==◌, drop, arith, if◌then◌else◌, ◌+◌,
}
use multi_tenant_saas_api.Domain.{
  ProjectSortField, SortDirection, OrganisationRole, Permission, ProjectStatus, role_has_permission,
}
use multi_tenant_saas_api.Database.{
  User, Organisation, OrganisationMembership, Project, ApiKey, AuditEvent, Db,
}
use multi_tenant_saas_api.Exec.{
  Env, Decoded, Error, Result, ok, err, State, invalid_credentials, idempotency_conflict,
  last_owner_protection,
}
use multi_tenant_saas_api.Repositories.Memberships.{owners, find_for_user}
use multi_tenant_saas_api.Rbac.{CurrentPrincipal, PrincipalType, current_principal_from_model}
use multi_tenant_saas_api.Rbac.Principals.{resolve_user_principal}
use multi_tenant_saas_api.MembershipService.{
  add_member, update_member_role, remove_member, take_out, protect_if_owner_would_be_removed,
}
use multi_tenant_saas_api.OrganisationService.Slug.{slug_from_name}
use multi_tenant_saas_api.ApiKeyService.{
  ProjectPrincipal, create_api_key, revoke_api_key, api_key_principal_from_model,
}
use multi_tenant_saas_api.ApiKeyService.Authentication.{Principal, resolve_project_principal}
use multi_tenant_saas_api.Examples.{env, settings, membership, db, start, as_alice, as_bob}

-- Tests: what some of these requests give.
abbrev is_ok : {A : Type 0} → Result A → Bool
is_ok (ok a) = true
is_ok (err e) = false

add_member_test : is_ok (add_member env as_bob 10 3 OrganisationRole.member start).0 ≡ true
unfolding add_member multi_tenant_saas_api.Exec.◌>>=◌ multi_tenant_saas_api.Rbac.get_tenant_context
    find_for_user multi_tenant_saas_api.Domain.permissions_for_role
    multi_tenant_saas_api.MembershipService.role_management_allowed
    multi_tenant_saas_api.Exec.transaction multi_tenant_saas_api.MembershipService.insert_member
    multi_tenant_saas_api.Repositories.Memberships.create multi_tenant_saas_api.Exec.uuid4
    multi_tenant_saas_api.Exec.now multi_tenant_saas_api.Exec.flush
    multi_tenant_saas_api.Database.membership_fits multi_tenant_saas_api.Audit.record_event
    multi_tenant_saas_api.Audit.contains_forbidden_metadata_key
    multi_tenant_saas_api.Repositories.AuditEvents.create
    multi_tenant_saas_api.Database.audit_event_fits
    multi_tenant_saas_api.Repositories.Memberships.add_membership multi_tenant_saas_api.Exec.commit
add_member_test = refl

remove_last_owner_test : (remove_member env as_alice 10 1 start).0 ≡ err last_owner_protection
unfolding remove_member multi_tenant_saas_api.Exec.◌>>=◌
    multi_tenant_saas_api.Rbac.get_tenant_context find_for_user
    multi_tenant_saas_api.Domain.permissions_for_role
    multi_tenant_saas_api.MembershipService.role_management_allowed
    multi_tenant_saas_api.MembershipService.protect_if_owner_would_be_removed
    multi_tenant_saas_api.Rbac.protect_last_owner
    multi_tenant_saas_api.Repositories.Memberships.is_last_owner
    multi_tenant_saas_api.Repositories.Memberships.other_owner
remove_last_owner_test = refl

revoke_api_key_test : is_ok (revoke_api_key env as_bob 10 30 start).0 ≡ true
unfolding revoke_api_key multi_tenant_saas_api.Exec.◌>>=◌
    multi_tenant_saas_api.Rbac.get_tenant_context find_for_user
    multi_tenant_saas_api.Domain.permissions_for_role
    multi_tenant_saas_api.Repositories.ApiKeys.find_api_key multi_tenant_saas_api.Exec.transaction
    multi_tenant_saas_api.ApiKeyService.revoke_once
    multi_tenant_saas_api.ApiKeyService.write_revocation
    multi_tenant_saas_api.Repositories.ApiKeys.revoke multi_tenant_saas_api.Exec.now
    multi_tenant_saas_api.Exec.flush multi_tenant_saas_api.Audit.record_event
    multi_tenant_saas_api.Audit.contains_forbidden_metadata_key
    multi_tenant_saas_api.Repositories.AuditEvents.create multi_tenant_saas_api.Exec.uuid4
    multi_tenant_saas_api.Database.audit_event_fits
    multi_tenant_saas_api.Repositories.ApiKeys.put_api_key multi_tenant_saas_api.Exec.commit
revoke_api_key_test = refl

resolve_user_test : is_ok (resolve_user_principal env settings (codes "alice") start).0 ≡ true
unfolding resolve_user_principal multi_tenant_saas_api.Exec.◌>>=◌ multi_tenant_saas_api.Exec.catch
    text_eq
resolve_user_test = refl

resolve_key_test :
    is_ok (resolve_project_principal env settings (codes "saas_demo_ci") start).0 ≡ true
unfolding resolve_project_principal multi_tenant_saas_api.Exec.catch
    multi_tenant_saas_api.Exec.◌>>=◌ resolve_user_principal text_eq
    multi_tenant_saas_api.Repositories.ApiKeys.find_active multi_tenant_saas_api.Exec.transaction
    multi_tenant_saas_api.ApiKeyService.Authentication.touch
    multi_tenant_saas_api.Repositories.ApiKeys.update_last_used multi_tenant_saas_api.Exec.now
    multi_tenant_saas_api.Exec.flush multi_tenant_saas_api.Exec.commit
resolve_key_test = refl

slug_test : slug_from_name (codes "  Acme & Sons, Ltd. ") ≡ codes "acme-sons-ltd"
unfolding slug_from_name multi_tenant_saas_api.Base.strip_of multi_tenant_saas_api.Base.lower
    multi_tenant_saas_api.Base.strip
slug_test = refl

-- Two owners who remove themselves at a time: both checks pass before either session commits, and
-- no owner is left.
abbrev of_alice : OrganisationMembership
of_alice = membership 21 10 1 OrganisationRole.owner

abbrev of_second_owner : OrganisationMembership
of_second_owner = membership 22 10 2 OrganisationRole.owner

abbrev two_owners : Db
two_owners = record db { memberships = of_alice ∷ of_second_owner ∷ [] }

abbrev both : State
both = record { committed = two_owners; session = two_owners; metrics = []; ticks = 0 }

overlapping_checks_test :
    ((protect_if_owner_would_be_removed 10 1 OrganisationRole.owner none both).0 ≡ ok tt)
    × ((protect_if_owner_would_be_removed 10 2 OrganisationRole.owner none both).0 ≡ ok tt)
unfolding protect_if_owner_would_be_removed multi_tenant_saas_api.Rbac.protect_last_owner
    multi_tenant_saas_api.Exec.◌>>=◌ multi_tenant_saas_api.Repositories.Memberships.is_last_owner
    find_for_user multi_tenant_saas_api.Repositories.Memberships.other_owner
overlapping_checks_test = (refl, refl)

first_removal_test :
    (take_out env 1 10 1 of_alice both).1.committed.memberships ≡ of_second_owner ∷ []
unfolding take_out multi_tenant_saas_api.Exec.◌>>=◌
    multi_tenant_saas_api.Repositories.Memberships.delete multi_tenant_saas_api.Exec.flush
    multi_tenant_saas_api.Audit.record_event
    multi_tenant_saas_api.Audit.contains_forbidden_metadata_key
    multi_tenant_saas_api.Audit.is_forbidden_metadata_key
    multi_tenant_saas_api.Audit.normalise_metadata_key
    multi_tenant_saas_api.Repositories.AuditEvents.create multi_tenant_saas_api.Exec.uuid4
    multi_tenant_saas_api.Exec.now multi_tenant_saas_api.Database.audit_event_fits
    multi_tenant_saas_api.Repositories.Memberships.drop_membership multi_tenant_saas_api.Exec.commit
    text_eq multi_tenant_saas_api.Base.strip multi_tenant_saas_api.Base.strip_of
    multi_tenant_saas_api.Base.lower multi_tenant_saas_api.Base.ends_with
    multi_tenant_saas_api.Base.starts_with multi_tenant_saas_api.Base.replace_char
    multi_tenant_saas_api.Repositories.AuditEvents.add_audit_event
first_removal_test = refl

abbrev one_owner : Db
one_owner = record db { memberships = of_second_owner ∷ [] }

second_removal_test :
    owners 10
      (take_out env 2 10 2 of_second_owner
        (record both { committed = one_owner; session = one_owner })).1.committed
    ≡ 0
unfolding take_out owners multi_tenant_saas_api.Exec.◌>>=◌
    multi_tenant_saas_api.Repositories.Memberships.delete multi_tenant_saas_api.Exec.flush
    multi_tenant_saas_api.Audit.record_event
    multi_tenant_saas_api.Audit.contains_forbidden_metadata_key
    multi_tenant_saas_api.Audit.is_forbidden_metadata_key
    multi_tenant_saas_api.Audit.normalise_metadata_key
    multi_tenant_saas_api.Repositories.AuditEvents.create multi_tenant_saas_api.Exec.uuid4
    multi_tenant_saas_api.Exec.now multi_tenant_saas_api.Database.audit_event_fits
    multi_tenant_saas_api.Repositories.Memberships.drop_membership multi_tenant_saas_api.Exec.commit
    text_eq multi_tenant_saas_api.Base.strip multi_tenant_saas_api.Base.strip_of
    multi_tenant_saas_api.Base.lower multi_tenant_saas_api.Base.ends_with
    multi_tenant_saas_api.Base.starts_with multi_tenant_saas_api.Base.replace_char
    multi_tenant_saas_api.Repositories.AuditEvents.add_audit_event
second_removal_test = refl
