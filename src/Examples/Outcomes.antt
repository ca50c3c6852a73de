-- ===== src/Examples/Outcomes.antt =====
-- The theorems on what each operation comes to, at concrete inputs.
use multi_tenant_saas_api.Base.{refl, false, none, some, codes}
use multi_tenant_saas_api.Domain.{ProjectSortField, SortDirection, OrganisationRole, ProjectStatus}
use multi_tenant_saas_api.Exec.Returns.{Outcome}
use multi_tenant_saas_api.Rbac.Principals.{
  Resolved, resolve_user_principal, resolve_user_principal-Outcome,
}
use multi_tenant_saas_api.MembershipService.{add_member, update_member_role, remove_member}
use multi_tenant_saas_api.MembershipService.Effects.Adding.{Added}
use multi_tenant_saas_api.MembershipService.Effects.Changes.{Changed, Removed}
use multi_tenant_saas_api.MembershipService.Outcomes.{
  add_member-Outcome, update_member_role-Outcome, remove_member-Outcome,
}
use multi_tenant_saas_api.OrganisationService.{create_organisation, update_organisation}
use multi_tenant_saas_api.OrganisationService.Effects as OrganisationEffects
use multi_tenant_saas_api.OrganisationService.Outcomes.{
  create_organisation-Outcome, update_organisation-Outcome,
}
use multi_tenant_saas_api.ProjectService.{
  create_project, update_project, delete_project, list_projects,
}
use multi_tenant_saas_api.ProjectService.Listing.{Listed, list_projects-Outcome}
use multi_tenant_saas_api.ProjectService.Effects as ProjectEffects
use multi_tenant_saas_api.ProjectService.Effects.Changes as ProjectChanges
use multi_tenant_saas_api.ProjectService.Outcomes.{
  create_project-Outcome, update_project-Outcome, delete_project-Outcome,
}
use multi_tenant_saas_api.ApiKeyService.{create_api_key, revoke_api_key}
use multi_tenant_saas_api.ApiKeyService.Effects as ApiKeyEffects
use multi_tenant_saas_api.ApiKeyService.Authentication.{Principal, resolve_project_principal}
use multi_tenant_saas_api.ApiKeyService.Outcomes.{
  create_api_key-Outcome, revoke_api_key-Outcome, resolve_project_principal-Outcome,
}
use multi_tenant_saas_api.AuthService.{register_user, login_user}
use multi_tenant_saas_api.AuthService.Effects.{Registered}
use multi_tenant_saas_api.AuthService.Effects.Login.{LoggedIn}
use multi_tenant_saas_api.AuthService.Outcomes.{register_user-Outcome, login_user-Outcome}
use multi_tenant_saas_api.Examples.{env, settings, db, start, as_alice, as_bob, by_key}

add_member-Outcome_example :
    Outcome
      (λ v t. Added as_bob 10 3 OrganisationRole.member db v t.committed)
      db
      (add_member env as_bob 10 3 OrganisationRole.member start)
add_member-Outcome_example = add_member-Outcome env as_bob 10 3 OrganisationRole.member start refl

update_member_role-Outcome_example :
    Outcome
      (λ v t. Changed as_alice 10 2 OrganisationRole.owner db v t.committed)
      db
      (update_member_role env as_alice 10 2 OrganisationRole.owner start)
update_member_role-Outcome_example =
    update_member_role-Outcome env as_alice 10 2 OrganisationRole.owner start refl

remove_member-Outcome_example :
    Outcome (λ _ t. Removed as_alice 10 2 db t.committed) db (remove_member env as_alice 10 2 start)
remove_member-Outcome_example = remove_member-Outcome env as_alice 10 2 start refl

create_organisation-Outcome_example :
    Outcome
      (λ v t. OrganisationEffects.CreatedBy 2 (codes "New Co") none db v t.committed)
      db
      (create_organisation env as_bob (codes "New Co") none start)
create_organisation-Outcome_example =
    create_organisation-Outcome env as_bob (codes "New Co") none start refl

update_organisation-Outcome_example :
    Outcome
      (λ v t. OrganisationEffects.Updated as_bob 10 none (some (codes "acme-2")) db v t.committed)
      db
      (update_organisation env as_bob 10 none (some (codes "acme-2")) start)
update_organisation-Outcome_example =
    update_organisation-Outcome env as_bob 10 none (some (codes "acme-2")) start refl

create_project-Outcome_example :
    Outcome
      (λ v t.
        ProjectEffects.Created by_key 10 (codes "site") none ProjectStatus.active db v t.committed)
      db
      (create_project env by_key 10 (codes "site") none ProjectStatus.active start)
create_project-Outcome_example =
    create_project-Outcome env by_key 10 (codes "site") none ProjectStatus.active start refl

update_project-Outcome_example :
    Outcome
      (λ v t.
        ProjectChanges.Updated by_key 10 40 (some (codes "land")) none false none db v t.committed)
      db
      (update_project env by_key 10 40 (some (codes "land")) none false none start)
update_project-Outcome_example =
    update_project-Outcome env by_key 10 40 (some (codes "land")) none false none start refl

delete_project-Outcome_example :
    Outcome
      (λ _ t. ProjectChanges.Deleted by_key 10 40 db t.committed)
      db
      (delete_project env by_key 10 40 start)
delete_project-Outcome_example = delete_project-Outcome env by_key 10 40 start refl

create_api_key-Outcome_example :
    Outcome
      (λ v t. ApiKeyEffects.Created env as_alice 10 (codes "deploy") db v t.committed)
      db
      (create_api_key env as_alice 10 (codes "deploy") start)
create_api_key-Outcome_example = create_api_key-Outcome env as_alice 10 (codes "deploy") start refl

revoke_api_key-Outcome_example :
    Outcome (ApiKeyEffects.Revoked as_bob 10 30 start) db (revoke_api_key env as_bob 10 30 start)
revoke_api_key-Outcome_example = revoke_api_key-Outcome env as_bob 10 30 start refl

resolve_project_principal-Outcome_example :
    Outcome
      (Principal env settings (codes "saas_demo_ci") start)
      db
      (resolve_project_principal env settings (codes "saas_demo_ci") start)
resolve_project_principal-Outcome_example =
    resolve_project_principal-Outcome env settings (codes "saas_demo_ci") start refl

resolve_user_principal-Outcome_example :
    Outcome
      (λ p _. Resolved env settings (codes "alice") start p)
      db
      (resolve_user_principal env settings (codes "alice") start)
resolve_user_principal-Outcome_example =
    resolve_user_principal-Outcome env settings (codes "alice") start refl

register_user-Outcome_example :
    Outcome
      (λ v t.
        Registered env settings
          (codes " Dan@x.test")
          (codes "long enough pass")
          (codes "Dan")
          db
          v
          t.committed)
      db
      (register_user env settings
        (codes " Dan@x.test")
        (codes "long enough pass")
        (codes "Dan")
        start)
register_user-Outcome_example =
    register_user-Outcome env settings (codes " Dan@x.test") (codes "long enough pass")
      (codes "Dan") start refl

login_user-Outcome_example :
    Outcome
      (λ v t.
        LoggedIn env settings (codes "alice@acme.test") (codes "correct horse") db v t.committed)
      db
      (login_user env settings (codes "alice@acme.test") (codes "correct horse") start)
login_user-Outcome_example =
    login_user-Outcome env settings (codes "alice@acme.test") (codes "correct horse") start refl

list_projects-Outcome_example :
    Outcome
      (λ v _. Listed env by_key 10 20 0 none (some (codes "la")) db v)
      db
      (list_projects env by_key 10 20 0 none
        (some (codes "la"))
        ProjectSortField.name
        SortDirection.asc
        start)
list_projects-Outcome_example =
    list_projects-Outcome env by_key 10 20 0 none (some (codes "la")) ProjectSortField.name
      SortDirection.asc start refl
