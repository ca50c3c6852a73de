-- ===== src/Routes/Refusals.antt =====
-- What a caller without the permission gets, whatever the request.
use multi_tenant_saas_api.Base.{
  ℕ, ◌≡◌, ◌⊎◌, inl, inr, refl, ap, false, some, Text, ◌==◌, scalar, arith, Option-cases,
}
use multi_tenant_saas_api.Domain.{Permission, role_has_permission}
use multi_tenant_saas_api.Database.{Organisation}
use multi_tenant_saas_api.Exec.{
  State, Action, Error, HttpException, err, ◌>>=◌, continue, catch, http_exception,
  organisation_not_found, permission_denied, tenant_access_denied,
}
use multi_tenant_saas_api.Repositories.Memberships.{find_for_user}
use multi_tenant_saas_api.Rbac.{CurrentPrincipal, get_tenant_context}
use multi_tenant_saas_api.ApiKeyService.{ProjectPrincipal}
use multi_tenant_saas_api.ProjectService.{require_project_permission}
use multi_tenant_saas_api.Access.{user_may, principal_may}
use multi_tenant_saas_api.Routes.{translated, not_found, forbidden}

-- The exceptions of a refused check.
pub data IsRefusal : Error → Type 0 where
  no_organisation : IsRefusal organisation_not_found
  no_member : IsRefusal tenant_access_denied
  no_permission : IsRefusal permission_denied

-- `m` refuses: it raises such an exception, and does nothing else.
pub record Refuses {A : Type 0} (m : Action A) (s : State) : Type 0 where
  pub error : Error
  pub is_refusal : IsRefusal error
  pub raised : m s ≡ (err error, s)

-- Status 403 or 404, and nothing changed.
pub record Denied {A : Type 0} (m : Action A) (s : State) : Type 0 where
  pub exception : HttpException
  pub status : (exception.status_code ≡ 403) ⊎ (exception.status_code ≡ 404)
  pub raised : m s ≡ (err (http_exception exception), s)

pub get_tenant_context-Refuses :
    (p : CurrentPrincipal) (o : ℕ) (permission : Permission) (s : State)
    → user_may p o permission s.session ≡ false
    → Refuses (get_tenant_context p o (some permission)) s
unfolding get_tenant_context ◌>>=◌ role_has_permission
get_tenant_context-Refuses p o permission s denied =
    elim (Option-cases (scalar (λ (r : Organisation). r.id == o) s.session.organisations)) [
      | inl e ↦ record {
        error = organisation_not_found;
        is_refusal = no_organisation;
        raised = rw e refl;
      }
      | inr (organisation, e) ↦ elim (Option-cases (find_for_user o p.user_id s.session)) [
        | inl f ↦ record {
          error = tenant_access_denied;
          is_refusal = no_member;
          raised = rw (e, f) refl;
        }
        | inr (m, f) ↦ record {
          error = permission_denied;
          is_refusal = no_permission;
          raised = rw (e, f) (ground arith);
        }
      ]
    ]

pub require_project_permission-Refuses :
    (p : ProjectPrincipal) (o : ℕ) (permission : Permission) (s : State)
    → principal_may p o permission s.session ≡ false
    → Refuses (require_project_permission p o permission) s
unfolding require_project_permission ◌>>=◌
require_project_permission-Refuses (ProjectPrincipal.user p) o permission s denied =
    let r = get_tenant_context-Refuses p o permission s denied in
    record { error = r.error; is_refusal = r.is_refusal; raised = rw r.raised refl }
require_project_permission-Refuses (ProjectPrincipal.key k) o permission s denied = record {
  error = tenant_access_denied;
  is_refusal = no_member;
  raised = ground arith;
}

module _ {A B : Type 0} (m : Action A) (f : A → Action B) {s : State} where
  pub Refuses-bind : Refuses m s → Refuses (m >>= f) s
  unfolding ◌>>=◌
  Refuses-bind r = record {
    error = r.error;
    is_refusal = r.is_refusal;
    raised = ap (λ p. continue p f) r.raised;
  }

  pub Denied-bind : Denied m s → Denied (m >>= f) s
  unfolding ◌>>=◌
  Denied-bind d = record {
    exception = d.exception;
    status = d.status;
    raised = ap (λ p. continue p f) d.raised;
  }

-- The clauses answer each refusal with 403 or 404.
pub record Translates (translate : Error → Error) : Type 0 where
  pub at :
      (e : Error)
      → IsRefusal e
      → (h : HttpException) × (translate e ≡ http_exception h)
        × ((h.status_code ≡ 403) ⊎ (h.status_code ≡ 404))

pub Translates-of :
    (translate : Error → Error) {a b c : Text}
    → translate organisation_not_found ≡ not_found a
    → translate tenant_access_denied ≡ forbidden b
    → translate permission_denied ≡ forbidden c
    → Translates translate
Translates-of translate {a} {b} {c} ea eb ec = record { at = at }
  where
    at :
        (e : Error)
        → IsRefusal e
        → (h : HttpException) × (translate e ≡ http_exception h)
          × ((h.status_code ≡ 403) ⊎ (h.status_code ≡ 404))
    at _ no_organisation =
        (record { status_code = 404; detail = a; asks_for_bearer = false }, ea, inr refl)
    at _ no_member =
        (record { status_code = 403; detail = b; asks_for_bearer = false }, eb, inl refl)
    at _ no_permission =
        (record { status_code = 403; detail = c; asks_for_bearer = false }, ec, inl refl)

pub Denied-translated :
    {A : Type 0} (translate : Error → Error) (m : Action A) {s : State}
    → Translates translate
    → Refuses m s
    → Denied (translated translate m) s
unfolding catch
Denied-translated translate m {s} t r =
    let answer = t.at r.error r.is_refusal in
    record {
      exception = answer.0;
      status = answer.2;
      raised = rw r.raised (ap (λ e. (err e, s)) answer.1);
    }
