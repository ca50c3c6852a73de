-- ===== src/Tenancy/Writes.antt =====
-- A write to one organisation leaves the rows of the others.
use multi_tenant_saas_api.Base.{
  ℕ, ◌≡◌, ◌∙◌, refl, sym, subst, true, false, Option, none, some, ◌==◌, any, All, arith, [], ◌∷◌,
  ◌++◌,
}
use multi_tenant_saas_api.Base.Selecting.{select-add, select-delete, select-update}
use multi_tenant_saas_api.Domain.{AuditAction}
use multi_tenant_saas_api.Database.{
  Db, Organisation, OrganisationMembership, Project, ApiKey, AuditEvent,
}
use multi_tenant_saas_api.Repositories.Organisations.{add_organisation, put_organisation}
use multi_tenant_saas_api.Repositories.Memberships.{add_membership, put_membership, drop_membership}
use multi_tenant_saas_api.Repositories.Projects.{add_project, put_project}
use multi_tenant_saas_api.Repositories.ApiKeys.{add_api_key, put_api_key}
use multi_tenant_saas_api.Repositories.AuditEvents.{add_audit_event}
use multi_tenant_saas_api.Audit.Events.{Logged}
use multi_tenant_saas_api.Tenancy.{
  row, member_row, project_row, key_row, event_row, SameTenant, elsewhere, Change,
}

pub SameTenant-refl : (o : ℕ) (db : Db) → SameTenant o db db
SameTenant-refl o db = record {
  organisations = refl;
  memberships = refl;
  projects = refl;
  api_keys = refl;
  events = refl;
}

pub SameTenant-then : {o : ℕ} {a b c : Db} → SameTenant o a b → SameTenant o b c → SameTenant o a c
SameTenant-then f g = record {
  organisations = g.organisations ∙ f.organisations;
  memberships = g.memberships ∙ f.memberships;
  projects = g.projects ∙ f.projects;
  api_keys = g.api_keys ∙ f.api_keys;
  events = g.events ∙ f.events;
}

module _ (o : ℕ) (db : Db) where
  pub SameTenant-add_audit_event :
      (e : AuditEvent) → event_row o e ≡ false → SameTenant o db (add_audit_event e db)
  unfolding add_audit_event
  SameTenant-add_audit_event e away = record {
    organisations = refl;
    memberships = refl;
    projects = refl;
    api_keys = refl;
    events = select-add (event_row o) db.audit_events e away;
  }

  pub SameTenant-add_organisation :
      (r : Organisation) → row o r ≡ false → SameTenant o db (add_organisation r db)
  unfolding add_organisation
  SameTenant-add_organisation r away = record {
    organisations = select-add (row o) db.organisations r away;
    memberships = refl;
    projects = refl;
    api_keys = refl;
    events = refl;
  }

  pub SameTenant-add_membership :
      (m : OrganisationMembership) → member_row o m ≡ false → SameTenant o db (add_membership m db)
  unfolding add_membership
  SameTenant-add_membership m away = record {
    organisations = refl;
    memberships = select-add (member_row o) db.memberships m away;
    projects = refl;
    api_keys = refl;
    events = refl;
  }

  pub SameTenant-add_project :
      (p : Project) → project_row o p ≡ false → SameTenant o db (add_project p db)
  unfolding add_project
  SameTenant-add_project p away = record {
    organisations = refl;
    memberships = refl;
    projects = select-add (project_row o) db.projects p away;
    api_keys = refl;
    events = refl;
  }

  pub SameTenant-add_api_key :
      (k : ApiKey) → key_row o k ≡ false → SameTenant o db (add_api_key k db)
  unfolding add_api_key
  SameTenant-add_api_key k away = record {
    organisations = refl;
    memberships = refl;
    projects = refl;
    api_keys = select-add (key_row o) db.api_keys k away;
    events = refl;
  }

  -- A row is rewritten where its identifier names the old row only.
  pub SameTenant-put_organisation :
      (old r : Organisation)
      → All (λ x. (x.id == r.id) ≡ true → x ≡ old) db.organisations
      → row o old ≡ false
      → r.id ≡ old.id
      → SameTenant o db (put_organisation r db)
  unfolding put_organisation
  SameTenant-put_organisation old r only away same = record {
    organisations =
        select-update (λ x. x.id == r.id) (row o) old r db.organisations only away (ground arith);
    memberships = refl;
    projects = refl;
    api_keys = refl;
    events = refl;
  }

  pub SameTenant-put_membership :
      (old m : OrganisationMembership)
      → All (λ x. (x.id == m.id) ≡ true → x ≡ old) db.memberships
      → member_row o old ≡ false
      → m.organisation_id ≡ old.organisation_id
      → SameTenant o db (put_membership m db)
  unfolding put_membership
  SameTenant-put_membership old m only away same = record {
    organisations = refl;
    memberships =
        select-update (λ x. x.id == m.id) (member_row o) old m db.memberships only away
          (ground arith);
    projects = refl;
    api_keys = refl;
    events = refl;
  }

  pub SameTenant-drop_membership :
      (old : OrganisationMembership)
      → All (λ x. (x.id == old.id) ≡ true → x ≡ old) db.memberships
      → member_row o old ≡ false
      → SameTenant o db (drop_membership old db)
  unfolding drop_membership
  SameTenant-drop_membership old only away = record {
    organisations = refl;
    memberships = select-delete (λ x. x.id == old.id) (member_row o) old db.memberships only away;
    projects = refl;
    api_keys = refl;
    events = refl;
  }

  pub SameTenant-put_project :
      (old p : Project)
      → All (λ x. (x.id == p.id) ≡ true → x ≡ old) db.projects
      → project_row o old ≡ false
      → p.organisation_id ≡ old.organisation_id
      → SameTenant o db (put_project p db)
  unfolding put_project
  SameTenant-put_project old p only away same = record {
    organisations = refl;
    memberships = refl;
    projects =
        select-update (λ x. x.id == p.id) (project_row o) old p db.projects only away
          (ground arith);
    api_keys = refl;
    events = refl;
  }

  pub SameTenant-put_api_key :
      (old k : ApiKey)
      → All (λ x. (x.id == k.id) ≡ true → x ≡ old) db.api_keys
      → key_row o old ≡ false
      → k.organisation_id ≡ old.organisation_id
      → SameTenant o db (put_api_key k db)
  unfolding put_api_key
  SameTenant-put_api_key old k only away same = record {
    organisations = refl;
    memberships = refl;
    projects = refl;
    api_keys =
        select-update (λ x. x.id == k.id) (key_row o) old k db.api_keys only away (ground arith);
    events = refl;
  }

-- A write and its event make a change, where the write leaves the log and the other organisations.
pub Change-Logged :
    {base before after : Db} {write : Db → Db} {a : AuditAction} {i u k t target : Option ℕ}
    → Logged base after write a i u k t
    → (write base).audit_events ≡ before.audit_events
    → ((o : ℕ)
        → any (row o) before.organisations ≡ true
        → elsewhere target o ≡ true
        → SameTenant o before (write base) × (elsewhere i o ≡ true))
    → Change u k target before after
unfolding add_audit_event
Change-Logged {base} {before} {after} {write} {i = i} l log away = record {
  event = l.event;
  log =
      subst (λ d. d.audit_events ≡ before.audit_events ++ l.event ∷ []) (sym l.written)
        (rw log refl);
  by_user = l.by_user;
  by_api_key = l.by_api_key;
  isolated = λ o e w. SameTenant-then (away o e w).0 (
      subst (SameTenant o (write base)) (sym l.written) (
        SameTenant-add_audit_event o (write base) l.event
          (apart i o l.in_organisation (away o e w).1)));
}
  where
    apart :
        (i : Option ℕ) (o : ℕ)
        → l.event.organisation_id ≡ i
        → elsewhere i o ≡ true
        → event_row o l.event ≡ false
    apart none o e w = ground arith
    apart (some j) o e w = ground arith
