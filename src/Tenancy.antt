-- ===== src/Tenancy.antt =====
-- The rows that belong to one organisation, and the writes that leave them as they are.
pub mod Writes
pub mod Operations
use multi_tenant_saas_api.Base.{
  ℕ, ◌≡◌, ◌⊎◌, Bool, true, false, not, Option, none, some, [], ◌∷◌, ◌++◌, ◌==◌, any, select,
}
use multi_tenant_saas_api.Database.{
  Db, Organisation, OrganisationMembership, Project, ApiKey, AuditEvent,
}

module _ (o : ℕ) where
  abbrev pub row : Organisation → Bool
  row r = r.id == o

  abbrev pub member_row : OrganisationMembership → Bool
  member_row m = m.organisation_id == o

  abbrev pub project_row : Project → Bool
  project_row p = p.organisation_id == o

  abbrev pub key_row : ApiKey → Bool
  key_row k = k.organisation_id == o

  abbrev pub is_some : Option ℕ → Bool
  is_some none = false
  is_some (some i) = i == o

  abbrev pub event_row : AuditEvent → Bool
  event_row e = is_some e.organisation_id

-- Every row of the organisation is as before, in the same order, and there is no new one.
pub record SameTenant (o : ℕ) (before after : Db) : Type 0 where
  pub organisations : select (row o) after.organisations ≡ select (row o) before.organisations
  pub memberships :
      select (member_row o) after.memberships ≡ select (member_row o) before.memberships
  pub projects : select (project_row o) after.projects ≡ select (project_row o) before.projects
  pub api_keys : select (key_row o) after.api_keys ≡ select (key_row o) before.api_keys
  pub events : select (event_row o) after.audit_events ≡ select (event_row o) before.audit_events

-- An organisation other than the one that is named, if one is.
abbrev pub elsewhere : Option ℕ → ℕ → Bool
elsewhere none o = true
elsewhere (some i) o = not (i == o)

-- One event was added to the log, with this actor, and no organisation that existed before, other
-- than the one named, was touched.
pub record Change (user key target : Option ℕ) (before after : Db) : Type 0 where
  pub event : AuditEvent
  pub log : after.audit_events ≡ before.audit_events ++ event ∷ []
  pub by_user : event.actor_user_id ≡ user
  pub by_api_key : event.actor_api_key_id ≡ key
  pub isolated :
      (o : ℕ)
      → any (row o) before.organisations ≡ true
      → elsewhere target o ≡ true
      → SameTenant o before after

abbrev pub Accounted : Option ℕ → Option ℕ → Option ℕ → Db → Db → Type 0
Accounted user key target before after = (after ≡ before) ⊎ Change user key target before after
