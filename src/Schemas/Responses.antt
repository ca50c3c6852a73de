-- ===== src/Schemas/Responses.antt =====
-- The responses: what is validated on the way out, and the JSON that is stored of a creation.
use multi_tenant_saas_api.Base.{
  ℕ, Bool, ◌&&◌, Option, none, some, List, [], ◌∷◌, Text, codes, uuid_str, leb, ltb, length,
}
use multi_tenant_saas_api.Domain.{OrganisationRole, ProjectStatus, AuditAction, status_value}
use multi_tenant_saas_api.Json.{Json, null, Fields, field, end}
use multi_tenant_saas_api.Exec.{Env, Action, pure, ◌>>=◌}
use multi_tenant_saas_api.Schemas.Fields.{has_length}
use multi_tenant_saas_api.Schemas.Bodies.{text_or_null}

pub record ProjectResponse : Type 0 where
  pub id : ℕ
  pub organisation_id : ℕ
  pub name : Text
  pub status : ProjectStatus
  pub description : Option Text
  pub created_by_user_id : Option ℕ
  pub updated_by_user_id : Option ℕ
  pub created_at : ℕ
  pub updated_at : ℕ

pub record OrganisationResponse : Type 0 where
  pub id : ℕ
  pub name : Text
  pub slug : Text
  pub created_at : ℕ
  pub updated_at : ℕ

pub record UserSummary : Type 0 where
  pub id : ℕ
  pub email : Text
  pub display_name : Text
  pub is_active : Bool

pub record UserResponse : Type 0 where
  pub id : ℕ
  pub email : Text
  pub display_name : Text
  pub is_active : Bool
  pub created_at : ℕ
  pub updated_at : ℕ

pub record MembershipResponse : Type 0 where
  pub id : ℕ
  pub organisation_id : ℕ
  pub user : UserSummary
  pub role : OrganisationRole
  pub created_at : ℕ
  pub updated_at : ℕ

pub record CurrentUserMembershipResponse : Type 0 where
  pub membership_id : ℕ
  pub organisation_id : ℕ
  pub organisation_name : Text
  pub organisation_slug : Text
  pub role : OrganisationRole

unfoldable pub current_user_membership_response_valid : CurrentUserMembershipResponse → Bool
current_user_membership_response_valid r =
    has_length 1 120 r.organisation_name && has_length 3 80 r.organisation_slug

pub record ApiKeyResponse : Type 0 where
  pub id : ℕ
  pub organisation_id : ℕ
  pub name : Text
  pub key_prefix : Text
  pub created_by_user_id : Option ℕ
  pub revoked_at : Option ℕ
  pub last_used_at : Option ℕ
  pub created_at : ℕ
  pub updated_at : ℕ

unfoldable pub api_key_response_valid : ApiKeyResponse → Bool
api_key_response_valid r = has_length 4 16 r.key_prefix

pub record ApiKeyCreateResponse : Type 0 where
  pub api_key : ApiKeyResponse
  pub raw_key : Text

unfoldable pub api_key_create_response_valid : ApiKeyCreateResponse → Bool
api_key_create_response_valid r = leb 1 (length r.raw_key)

-- `status` is the literal "revoked".
pub record ApiKeyRevokeResponse : Type 0 where
  pub id : ℕ
  pub organisation_id : ℕ
  pub status : Text
  pub revoked_at : ℕ

pub record AuditEventResponse : Type 0 where
  pub id : ℕ
  pub organisation_id : Option ℕ
  pub actor_user_id : Option ℕ
  pub actor_api_key_id : Option ℕ
  pub action : AuditAction
  pub target_type : Text
  pub target_id : Option ℕ
  pub metadata : Fields
  pub created_at : ℕ

unfoldable pub audit_event_response_valid : AuditEventResponse → Bool
audit_event_response_valid r = has_length 1 80 r.target_type

pub record LoginResponse : Type 0 where
  pub access_token : Text
  pub token_type : Text
  pub expires_in_seconds : ℕ

unfoldable pub login_response_valid : LoginResponse → Bool
login_response_valid r = leb 1 (length r.access_token) && ltb 0 r.expires_in_seconds

pub record CurrentUserResponse : Type 0 where
  pub user : UserResponse
  pub memberships : List CurrentUserMembershipResponse

-- A `list[Model]`: every item is validated.
unfoldable pub validate_items : {A B : Type 0} → (A → Action B) → List A → Action (List B)
validate_items f [] = pure []
validate_items f (a ∷ rest) = do b ← f a; bs ← validate_items f rest; pure (b ∷ bs)

abbrev uuid_or_null : Option ℕ → Json
uuid_or_null none = null
uuid_or_null (some n) = Json.str (uuid_str n)

module _ (env : Env) where
  abbrev time_or_null : Option ℕ → Json
  time_or_null none = null
  time_or_null (some t) = Json.str (env.isoformat t)

  -- `response.model_dump(mode="json")`
  abbrev pub project_response_body : ProjectResponse → Fields
  project_response_body r = field (codes "id") (Json.str (uuid_str r.id)) (
      field (codes "organisation_id") (Json.str (uuid_str r.organisation_id)) (
        field (codes "name") (Json.str r.name) (
          field (codes "status") (Json.str (status_value r.status)) (
            field (codes "description") (text_or_null r.description) (
              field (codes "created_by_user_id") (uuid_or_null r.created_by_user_id) (
                field (codes "updated_by_user_id") (uuid_or_null r.updated_by_user_id) (
                  field (codes "created_at") (Json.str (env.isoformat r.created_at))
                    (field (codes "updated_at") (Json.str (env.isoformat r.updated_at)) end))))))))

  abbrev pub organisation_response_body : OrganisationResponse → Fields
  organisation_response_body r = field (codes "id") (Json.str (uuid_str r.id)) (
      field (codes "name") (Json.str r.name) (
        field (codes "slug") (Json.str r.slug) (
          field (codes "created_at") (Json.str (env.isoformat r.created_at))
            (field (codes "updated_at") (Json.str (env.isoformat r.updated_at)) end))))

  abbrev pub api_key_response_body : ApiKeyResponse → Fields
  api_key_response_body r = field (codes "id") (Json.str (uuid_str r.id)) (
      field (codes "organisation_id") (Json.str (uuid_str r.organisation_id)) (
        field (codes "name") (Json.str r.name) (
          field (codes "key_prefix") (Json.str r.key_prefix) (
            field (codes "created_by_user_id") (uuid_or_null r.created_by_user_id) (
              field (codes "revoked_at") (time_or_null r.revoked_at) (
                field (codes "last_used_at") (time_or_null r.last_used_at) (
                  field (codes "created_at") (Json.str (env.isoformat r.created_at))
                    (field (codes "updated_at") (Json.str (env.isoformat r.updated_at)) end))))))))

  abbrev pub api_key_create_response_body : ApiKeyCreateResponse → Fields
  api_key_create_response_body r =
      field (codes "api_key") (Json.obj (api_key_response_body r.api_key))
        (field (codes "raw_key") (Json.str r.raw_key) end)
