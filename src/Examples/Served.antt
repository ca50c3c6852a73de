-- ===== src/Examples/Served.antt =====
-- The theorems on whole HTTP requests, at concrete inputs.
use multi_tenant_saas_api.Base.{◌≡◌, refl, Option, none, some, List, [], ◌∷◌, Text, codes, text_eq}
use multi_tenant_saas_api.Domain.{OrganisationRole, ProjectStatus}
use multi_tenant_saas_api.Exec.{ok}
use multi_tenant_saas_api.Schemas.Responses.{OrganisationResponse}
use multi_tenant_saas_api.Dependencies.{HttpAuthorizationCredentials}
use multi_tenant_saas_api.Invariants.{IsValid}
use multi_tenant_saas_api.Routes.Router.{Call, Answer}
use multi_tenant_saas_api.Server.{HttpCall, HttpAnswer, perform, respond, respond_all}
use multi_tenant_saas_api.Server.Validity.{respond_all-IsValid}
use multi_tenant_saas_api.Tenancy.{SameTenant}
use multi_tenant_saas_api.Server.Isolation.Requests.{respond_all-SameTenant}
use multi_tenant_saas_api.Server.Log.{SameData, Audited}
use multi_tenant_saas_api.Server.Log.Reads.{respond-SameData}
use multi_tenant_saas_api.Server.Log.Requests.{respond-Audited}
use multi_tenant_saas_api.Server.Log.Sequences.{Appended, respond_all-Appended}
use multi_tenant_saas_api.Server.Entitlement.{Entitled, perform-Entitled}
use multi_tenant_saas_api.Examples.{env, settings, start, db-IsValid}

abbrev bearer : Text → Option HttpAuthorizationCredentials
bearer token = some (record { scheme = codes "Bearer"; credentials = token })

abbrev adds_carol : HttpCall
adds_carol =
    HttpCall.by_user
      λ p. Call.post_members p 10 (record { user_id = 3; role = OrganisationRole.owner })

abbrev creates_site : HttpCall
creates_site = HttpCall.by_principal λ p.
    Call.post_projects (some (codes "k1")) p 10
      (record { name = codes "site"; description = none; status = ProjectStatus.active })
      (codes "POST") (codes "/orgs/10/projects")

abbrev requests : List (Option HttpAuthorizationCredentials × HttpCall)
requests =
    (bearer (codes "alice"), adds_carol)
    ∷ (bearer (codes "saas_demo_ci"), creates_site)
    ∷ (bearer (codes "saas_demo_ci"), creates_site)
    ∷ (bearer (codes "alice"), HttpCall.by_user λ p. Call.delete_member p 10 1)
    ∷ (none, HttpCall.me)
    ∷ []

respond_all-IsValid_example : IsValid (respond_all env settings requests start).committed
respond_all-IsValid_example = respond_all-IsValid env settings requests start db-IsValid

-- The second creation is a replay, and adds no event.
respond_all-Appended_example :
    Appended requests start.committed (respond_all env settings requests start).committed
respond_all-Appended_example = respond_all-Appended env settings requests start db-IsValid

respond-Audited_example :
    Audited start.committed
      (respond env settings (bearer (codes "saas_demo_ci")) creates_site start).1.committed
respond-Audited_example =
    respond-Audited env settings (bearer (codes "saas_demo_ci")) creates_site start db-IsValid

abbrev reads_project : HttpCall
reads_project = HttpCall.by_principal λ p. Call.get_project p 10 40

respond-SameData_example :
    SameData start.committed
      (respond env settings (bearer (codes "saas_demo_ci")) reads_project start).1.committed
respond-SameData_example =
    respond-SameData env settings (bearer (codes "saas_demo_ci")) reads_project start db-IsValid
      λ p. refl

-- No request names organisation 11, and the key is one of organisation 10.
respond_all-SameTenant_example :
    SameTenant 11 start.committed (respond_all env settings requests start).committed
unfolding text_eq
respond_all-SameTenant_example =
    respond_all-SameTenant env settings requests start 11 db-IsValid refl
      ((λ p. refl), ((refl, λ p. refl), ((refl, λ p. refl), ((λ p. refl), (tt, tt)))))

abbrev reads_acme : HttpCall
reads_acme = HttpCall.by_user λ p. Call.get_org p 10

abbrev acme : OrganisationResponse
acme = record { id = 10; name = codes "acme"; slug = codes "acme"; created_at = 0; updated_at = 0 }

answers :
    perform env settings (bearer (codes "alice")) reads_acme start
    ≡ (ok (HttpAnswer.routed (Answer.organisation acme)), start)
unfolding perform multi_tenant_saas_api.Server.replied multi_tenant_saas_api.Exec.◌>>=◌
    multi_tenant_saas_api.Dependencies.get_current_principal
    multi_tenant_saas_api.Dependencies.require_bearer_token multi_tenant_saas_api.Exec.catch
    multi_tenant_saas_api.Rbac.Principals.resolve_user_principal
    multi_tenant_saas_api.Routes.Router.route multi_tenant_saas_api.Routes.Router.answered
    multi_tenant_saas_api.Routes.Organisations.get_organisation
    multi_tenant_saas_api.OrganisationService.get_organisation
    multi_tenant_saas_api.Rbac.get_tenant_context
    multi_tenant_saas_api.Repositories.Memberships.find_for_user
    multi_tenant_saas_api.Domain.permissions_for_role
answers = refl

perform-Entitled_example : Entitled env settings (bearer (codes "alice")) start reads_acme
perform-Entitled_example =
    perform-Entitled env settings (bearer (codes "alice")) start reads_acme
      (HttpAnswer.routed (Answer.organisation acme)) start answers
