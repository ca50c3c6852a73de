-- ===== src/Repositories/Outcomes.antt =====
-- What the writing statements return, and the session that they leave.
pub mod OfProjects
use multi_tenant_saas_api.Base.{
  ℕ, ◌+◌, ◌≡◌, ◌≢◌, ◌⊎◌, true, Option, none, some, Text, text_eq_iff, arith,
}
use multi_tenant_saas_api.Domain.{OrganisationRole, AuditAction}
use multi_tenant_saas_api.Json.{Fields}
use multi_tenant_saas_api.Database.{
  Db, Organisation, OrganisationMembership, ApiKey, AuditEvent, membership_fits, organisation_fits,
  organisation_update_fits, api_key_fits, audit_event_fits,
}
use multi_tenant_saas_api.Exec.{Env, State, ◌>>=◌, now, uuid4, flush}
use multi_tenant_saas_api.Exec.Returns.{Returns}
use multi_tenant_saas_api.Repositories.Organisations
use multi_tenant_saas_api.Repositories.Organisations.{add_organisation, put_organisation}
use multi_tenant_saas_api.Repositories.Memberships
use multi_tenant_saas_api.Repositories.Memberships.{add_membership, put_membership, drop_membership}
use multi_tenant_saas_api.Repositories.Edits.{IsGiven}
use multi_tenant_saas_api.Repositories.ApiKeys
use multi_tenant_saas_api.Repositories.ApiKeys.{add_api_key, put_api_key}
use multi_tenant_saas_api.Repositories.AuditEvents
use multi_tenant_saas_api.Repositories.AuditEvents.{add_audit_event}

-- The session was rewritten by `write`; nothing was committed.
pub record Wrote (s t : State) (write : Db → Db) : Type 0 where
  pub session : t.session ≡ write s.session
  pub committed : t.committed ≡ s.committed

module _ (env : Env) (s : State) where
  pub record NewOrganisation (name slug : Text) (o : Organisation) (t : State) : Type 0 where
    pub wrote : Wrote s t (add_organisation o)
    pub fits : organisation_fits s.session o ≡ true
    pub has_name : o.name ≡ name
    pub has_slug : o.slug ≡ slug

  pub create_organisation-Returns :
      (name slug : Text)
      → Returns (Organisations.create env name slug) s (NewOrganisation name slug)
  unfolding Organisations.create uuid4 now flush ◌>>=◌
  create_organisation-Returns name slug = record { at = λ o t h. ground arith }

  -- The row is as it was, or it was rewritten under its identifier with a slug that is free.
  pub record EditedOrganisation (name slug : Option Text) (old o : Organisation) (t : State)
      : Type 0 where
    pub wrote :
        (t ≡ s) × (o ≡ old)
        ⊎ Wrote s t (put_organisation o) × (organisation_update_fits s.session o ≡ true)
    pub has_id : o.id ≡ old.id
    pub has_name : IsGiven name old.name o.name
    pub has_slug : IsGiven slug old.slug o.slug
    pub has_created_at : o.created_at ≡ old.created_at

  pub update_organisation-Returns :
      (o : Organisation) (name slug : Option Text)
      → Returns (Organisations.update env o name slug) s (EditedOrganisation name slug o)
  unfolding Organisations.update now flush ◌>>=◌
  update_organisation-Returns o none none = record { at = λ p t h. ground arith }
  update_organisation-Returns o (some n) none = record {
    at = λ p t h. ground (arith, text_eq_iff n o.name);
  }
  update_organisation-Returns o none (some l) = record {
    at = λ p t h. ground (arith, text_eq_iff l o.slug);
  }
  update_organisation-Returns o (some n) (some l) = record {
    at = λ p t h. ground (arith, text_eq_iff n o.name, text_eq_iff l o.slug);
  }

  pub record NewMembership (o u : ℕ) (r : OrganisationRole) (m : OrganisationMembership) (t : State)
      : Type 0 where
    pub wrote : Wrote s t (add_membership m)
    pub fits : membership_fits s.session m ≡ true
    pub in_organisation : m.organisation_id ≡ o
    pub of_user : m.user_id ≡ u
    pub has_role : m.role ≡ r

  pub create_membership-Returns :
      (o u : ℕ) (r : OrganisationRole)
      → Returns (Memberships.create env o u r) s (NewMembership o u r)
  unfolding Memberships.create uuid4 now flush ◌>>=◌
  create_membership-Returns o u r = record { at = λ m t h. ground arith }

  pub record EditedMembership (old : OrganisationMembership) (r : OrganisationRole)
      (m : OrganisationMembership) (t : State) : Type 0 where
    pub wrote : (t ≡ s) × (m ≡ old) ⊎ Wrote s t (put_membership m)
    pub has_id : m.id ≡ old.id
    pub in_organisation : m.organisation_id ≡ old.organisation_id
    pub of_user : m.user_id ≡ old.user_id
    pub has_role : m.role ≡ r

  pub update_role-Returns :
      (m : OrganisationMembership) (r : OrganisationRole)
      → Returns (Memberships.update_role env m r) s (EditedMembership m r)
  unfolding Memberships.update_role now flush ◌>>=◌
  update_role-Returns m r = record { at = λ n t h. ground arith }

  pub delete_membership-Returns :
      (m : OrganisationMembership)
      → Returns (Memberships.delete env m) s (λ _ t. Wrote s t (drop_membership m))
  unfolding Memberships.delete flush
  delete_membership-Returns m = record { at = λ x t h. ground arith }

  pub record NewEvent (a : AuditAction) (o u k target : Option ℕ) (fs : Fields) (e : AuditEvent)
      (t : State) : Type 0 where
    pub wrote : Wrote s t (add_audit_event e)
    pub fits : audit_event_fits s.session e ≡ true
    pub has_action : e.action ≡ a
    pub in_organisation : e.organisation_id ≡ o
    pub by_user : e.actor_user_id ≡ u
    pub by_api_key : e.actor_api_key_id ≡ k
    pub on_target : e.target_id ≡ target
    pub has_metadata : e.event_metadata ≡ fs

  pub create_audit_event-Returns :
      (a : AuditAction) (type : Text) (o u k target : Option ℕ) (fs : Fields)
      → Returns (AuditEvents.create env a type o u k target fs) s (NewEvent a o u k target fs)
  unfolding AuditEvents.create uuid4 now flush ◌>>=◌
  create_audit_event-Returns a type o u k target fs = record { at = λ e t h. ground arith }

  pub record NewApiKey (o : ℕ) (name prefix hash : Text) (k : ApiKey) (t : State) : Type 0 where
    pub wrote : Wrote s t (add_api_key k)
    pub fits : api_key_fits s.session k ≡ true
    pub in_organisation : k.organisation_id ≡ o
    pub has_name : k.name ≡ name
    pub has_prefix : k.key_prefix ≡ prefix
    pub has_hash : k.key_hash ≡ hash
    pub active : k.revoked_at ≡ none

  pub create_api_key-Returns :
      (o : ℕ) (name prefix hash : Text) (u : Option ℕ)
      → Returns (ApiKeys.create env o name prefix hash u) s (NewApiKey o name prefix hash)
  unfolding ApiKeys.create uuid4 now flush ◌>>=◌
  create_api_key-Returns o name prefix hash u = record { at = λ k t h. ground arith }

  pub record RevokedKey (old k : ApiKey) (t : State) : Type 0 where
    pub wrote : Wrote s t (put_api_key k)
    pub has_id : k.id ≡ old.id
    pub in_organisation : k.organisation_id ≡ old.organisation_id
    pub has_hash : k.key_hash ≡ old.key_hash
    pub revoked : k.revoked_at ≢ none

  pub revoke-Returns : (k : ApiKey) → Returns (ApiKeys.revoke env k none) s (RevokedKey k)
  unfolding ApiKeys.revoke now flush ◌>>=◌
  revoke-Returns k = record { at = λ j t h. ground arith }

  pub record UsedKey (old k : ApiKey) (t : State) : Type 0 where
    pub wrote : Wrote s t (put_api_key k)
    pub has_id : k.id ≡ old.id
    pub in_organisation : k.organisation_id ≡ old.organisation_id
    pub has_hash : k.key_hash ≡ old.key_hash
    pub has_revoked_at : k.revoked_at ≡ old.revoked_at
    pub has_fields :
        k ≡ record old { last_used_at = some (env.now s.ticks); updated_at = env.now (s.ticks + 1) }

  pub update_last_used-Returns :
      (k : ApiKey) → Returns (ApiKeys.update_last_used env k none) s (UsedKey k)
  unfolding ApiKeys.update_last_used now flush ◌>>=◌
  update_last_used-Returns k = record { at = λ j t h. ground arith }
