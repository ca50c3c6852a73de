-- ===== src/Schemas/Bodies.antt =====
-- The request bodies, their validation, and their dump as JSON.
use multi_tenant_saas_api.Base.{
  ℕ, Bool, not, ◌&&◌, Option, none, some, List, [], ◌∷◌, Text, codes, text_eq, any, is_none, length,
  leb,
}
use multi_tenant_saas_api.Domain.{OrganisationRole, ProjectStatus, status_value}
use multi_tenant_saas_api.Json.{Json, null, Fields, field, end}
use multi_tenant_saas_api.OrganisationService.Slug.Shape.{is_slug}
use multi_tenant_saas_api.Exec.{Env}
use multi_tenant_saas_api.Schemas.Fields.{has_length, if_some}

pub record ProjectCreateRequest : Type 0 where
  pub name : Text
  pub description : Option Text
  pub status : ProjectStatus

abbrev project_description_valid : Option Text → Bool
project_description_valid description = if_some (λ d. leb (length d) 2000) description

unfoldable pub project_create_request_valid : ProjectCreateRequest → Bool
project_create_request_valid r = has_length 1 160 r.name && project_description_valid r.description

pub record ProjectUpdateRequest : Type 0 where
  pub name : Option Text
  pub description : Option Text
  pub status : Option ProjectStatus
  pub model_fields_set : List Text

abbrev pub project_update_fields : List Text
project_update_fields = codes "name" ∷ codes "description" ∷ codes "status" ∷ []

abbrev pub in_fields : List Text → Text → Bool
in_fields fields name = any (text_eq name) fields

-- The bounds, and `require_a_change`: the fields that were set are not disjoint from those of a
-- project.
unfoldable pub project_update_request_valid : ProjectUpdateRequest → Bool
unfolding text_eq
project_update_request_valid r =
    if_some (has_length 1 160) r.name
    && project_description_valid r.description
    && any (in_fields project_update_fields) r.model_fields_set

pub record OrganisationCreateRequest : Type 0 where
  pub name : Text
  pub slug : Option Text

abbrev slug_valid : Text → Bool
slug_valid s = has_length 3 80 s && is_slug s

unfoldable pub organisation_create_request_valid : OrganisationCreateRequest → Bool
organisation_create_request_valid r = has_length 1 120 r.name && if_some slug_valid r.slug

pub record OrganisationUpdateRequest : Type 0 where
  pub name : Option Text
  pub slug : Option Text

unfoldable pub organisation_update_request_valid : OrganisationUpdateRequest → Bool
organisation_update_request_valid r =
    if_some (has_length 1 120) r.name
    && if_some slug_valid r.slug
    && not (is_none r.name && is_none r.slug)

pub record MembershipCreateRequest : Type 0 where
  pub user_id : ℕ
  pub role : OrganisationRole

pub record MembershipUpdateRequest : Type 0 where
  pub role : OrganisationRole

pub record ApiKeyCreateRequest : Type 0 where
  pub name : Text

unfoldable pub api_key_create_request_valid : ApiKeyCreateRequest → Bool
api_key_create_request_valid r = has_length 1 120 r.name

pub record RegisterRequest : Type 0 where
  pub email : Text
  pub password : Text
  pub display_name : Text

-- The address is that of `validate_email`.
unfoldable pub register_request_valid : Env → RegisterRequest → Bool
register_request_valid env r =
    not (is_none (env.validate_email r.email))
    && has_length 12 256 r.password
    && has_length 1 120 r.display_name

pub record LoginRequest : Type 0 where
  pub email : Text
  pub password : Text

unfoldable pub login_request_valid : Env → LoginRequest → Bool
login_request_valid env r =
    not (is_none (env.validate_email r.email)) && has_length 1 256 r.password

abbrev pub text_or_null : Option Text → Json
text_or_null none = null
text_or_null (some t) = Json.str t

-- `payload.model_dump(mode="json", by_alias=True)`, which the hash of an idempotent request is made
-- from.
abbrev pub project_create_body : ProjectCreateRequest → Fields
project_create_body r = field (codes "name") (Json.str r.name) (
    field (codes "description") (text_or_null r.description)
      (field (codes "status") (Json.str (status_value r.status)) end))

abbrev pub organisation_create_body : OrganisationCreateRequest → Fields
organisation_create_body r =
    field (codes "name") (Json.str r.name) (field (codes "slug") (text_or_null r.slug) end)

abbrev pub api_key_create_body : ApiKeyCreateRequest → Fields
api_key_create_body r = field (codes "name") (Json.str r.name) end
