-- ===== src/Database.antt =====
-- database/models.py: the rows, the tables, and the constraints that the database checks when a
-- row is written. Identifiers (UUID) and times are numbers.
use multi_tenant_saas_api.Base.{
  ℕ, Bool, true, false, not, ◌&&◌, ◌||◌, Option, none, some, List, ◌==◌, any, Text, text_eq,
}
use multi_tenant_saas_api.Domain.{OrganisationRole, ProjectStatus, AuditAction}
use multi_tenant_saas_api.Json.{Fields}

pub record User : Type 0 where
  pub id : ℕ
  pub email : Text
  pub display_name : Text
  pub password_hash : Text
  pub is_active : Bool
  pub created_at : ℕ
  pub updated_at : ℕ

pub record Organisation : Type 0 where
  pub id : ℕ
  pub name : Text
  pub slug : Text
  pub created_at : ℕ
  pub updated_at : ℕ

pub record OrganisationMembership : Type 0 where
  pub id : ℕ
  pub organisation_id : ℕ
  pub user_id : ℕ
  pub role : OrganisationRole
  pub created_at : ℕ
  pub updated_at : ℕ

pub record Project : Type 0 where
  pub id : ℕ
  pub organisation_id : ℕ
  pub name : Text
  pub status : ProjectStatus
  pub description : Option Text
  pub created_by_user_id : Option ℕ
  pub updated_by_user_id : Option ℕ
  pub deleted_at : Option ℕ
  pub created_at : ℕ
  pub updated_at : ℕ

pub record ApiKey : Type 0 where
  pub id : ℕ
  pub organisation_id : ℕ
  pub name : Text
  pub key_prefix : Text
  pub key_hash : Text
  pub created_by_user_id : Option ℕ
  pub revoked_at : Option ℕ
  pub last_used_at : Option ℕ
  pub created_at : ℕ
  pub updated_at : ℕ

pub record AuditEvent : Type 0 where
  pub id : ℕ
  pub organisation_id : Option ℕ
  pub actor_user_id : Option ℕ
  pub actor_api_key_id : Option ℕ
  pub action : AuditAction
  pub target_type : Text
  pub target_id : Option ℕ
  pub event_metadata : Fields
  pub created_at : ℕ

pub record IdempotencyRecord : Type 0 where
  pub id : ℕ
  pub principal_type : Text
  pub principal_id : ℕ
  pub organisation_id : Option ℕ
  pub key : Text
  pub method : Text
  pub path : Text
  pub request_hash : Text
  pub response_status_code : ℕ
  pub response_body : Fields
  pub created_at : ℕ
  pub expires_at : Option ℕ

pub record Db : Type 0 where
  pub users : List User
  pub organisations : List Organisation
  pub memberships : List OrganisationMembership
  pub projects : List Project
  pub api_keys : List ApiKey
  pub audit_events : List AuditEvent
  pub idempotency_records : List IdempotencyRecord

-- Foreign keys; a null reference is no reference.
module _ (db : Db) where
  abbrev has_user : ℕ → Bool
  has_user i = any (λ u. u.id == i) db.users

  abbrev has_organisation : ℕ → Bool
  has_organisation i = any (λ o. o.id == i) db.organisations

  abbrev has_api_key : ℕ → Bool
  has_api_key i = any (λ k. k.id == i) db.api_keys

  abbrev refers : (ℕ → Bool) → Option ℕ → Bool
  refers has none = true
  refers has (some i) = has i

  unfoldable pub user_fits : User → Bool
  user_fits u = not (any (λ v. v.id == u.id || text_eq v.email u.email) db.users)

  unfoldable pub organisation_fits : Organisation → Bool
  organisation_fits o = not (any (λ p. p.id == o.id || text_eq p.slug o.slug) db.organisations)

  -- An update is checked against the other rows.
  unfoldable pub organisation_update_fits : Organisation → Bool
  organisation_update_fits o =
      not (any (λ p. not (p.id == o.id) && text_eq p.slug o.slug) db.organisations)

  unfoldable pub membership_fits : OrganisationMembership → Bool
  membership_fits m =
      not (
        any
          (λ n. n.id == m.id || (n.organisation_id == m.organisation_id && n.user_id == m.user_id))
          db.memberships)
      && has_organisation m.organisation_id
      && has_user m.user_id

  unfoldable pub project_fits : Project → Bool
  project_fits p =
      not (any (λ q. q.id == p.id) db.projects)
      && has_organisation p.organisation_id
      && refers has_user p.created_by_user_id
      && refers has_user p.updated_by_user_id

  unfoldable pub project_update_fits : Project → Bool
  project_update_fits p = refers has_user p.updated_by_user_id

  unfoldable pub api_key_fits : ApiKey → Bool
  api_key_fits k =
      not (any (λ j. j.id == k.id || text_eq j.key_hash k.key_hash) db.api_keys)
      && has_organisation k.organisation_id
      && refers has_user k.created_by_user_id

  unfoldable pub audit_event_fits : AuditEvent → Bool
  audit_event_fits e =
      not (any (λ f. f.id == e.id) db.audit_events)
      && refers has_organisation e.organisation_id
      && refers has_user e.actor_user_id
      && refers has_api_key e.actor_api_key_id

  -- The two partial unique indexes: the organisation takes part, and a null matches a null only.
  abbrev pub same_organisation : Option ℕ → Option ℕ → Bool
  same_organisation none none = true
  same_organisation none (some j) = false
  same_organisation (some i) none = false
  same_organisation (some i) (some j) = i == j

  abbrev pub same_scope : IdempotencyRecord → IdempotencyRecord → Bool
  same_scope r q =
      text_eq r.principal_type q.principal_type
      && (r.principal_id == q.principal_id)
      && same_organisation r.organisation_id q.organisation_id
      && text_eq r.method q.method
      && text_eq r.path q.path
      && text_eq r.key q.key

  unfoldable pub idempotency_record_fits : IdempotencyRecord → Bool
  idempotency_record_fits r =
      not (any (λ q. q.id == r.id || same_scope q r) db.idempotency_records)
      && refers has_organisation r.organisation_id
