-- ===== src/OrganisationService/Effects.antt =====
-- What creating and updating an organisation do to the database when they return.
use multi_tenant_saas_api.Base.{
  ℕ, ◌≡◌, ◌⊎◌, ◌∙◌, inl, inr, refl, ap, subst, true, Option, none, some, Text, scalar, ◌==◌,
}
use multi_tenant_saas_api.Domain.{OrganisationRole, Permission, AuditAction}
use multi_tenant_saas_api.Database.{
  Db, Organisation, OrganisationMembership, organisation_fits, organisation_update_fits,
  membership_fits,
}
use multi_tenant_saas_api.Exec.{Env, State}
use multi_tenant_saas_api.Exec.Returns.{
  Returns, Returns-pure, Returns-bind, Returns-check, Returns-query, Returns-or_raise,
  Returns-raise_if, Returns-commit, Returns-transaction, Returns-record_metric,
}
use multi_tenant_saas_api.Repositories.Organisations.{add_organisation, put_organisation}
use multi_tenant_saas_api.Repositories.Memberships.{add_membership}
use multi_tenant_saas_api.Repositories.Edits.{IsGiven}
use multi_tenant_saas_api.Repositories.Outcomes.{
  Wrote, EditedOrganisation, create_organisation-Returns, create_membership-Returns,
  update_organisation-Returns,
}
use multi_tenant_saas_api.Rbac.{CurrentPrincipal, TenantContext}
use multi_tenant_saas_api.Rbac.Reads.{get_tenant_context-ReadOnly}
use multi_tenant_saas_api.Rbac.Access.{Authorised, get_tenant_context-Returns}
use multi_tenant_saas_api.Audit.Events.{Logged, Logged-of-Recorded, record_event-Returns}
use multi_tenant_saas_api.OrganisationService.{
  CreatedOrganisation, created_organisation, PublicOrganisation, public_organisation_from_model,
  insert_organisation, create_organisation, write_organisation, update_organisation, requested_slug,
  normalised,
}
use multi_tenant_saas_api.OrganisationService.Atomicity.{check_slug-ReadOnly}

-- A new organisation with a free slug, the owner's membership in it, and the event.
pub record Founded (u : ℕ) (name slug : Text) (before : Db) (organisation : Organisation)
    (membership : OrganisationMembership) (after : Db) : Type 0 where
  pub logged :
      Logged before after
        (λ d. add_membership membership (add_organisation organisation d))
        AuditAction.organisation_created
        (some organisation.id)
        (some u)
        none
        (some organisation.id)
  pub fits : organisation_fits before organisation ≡ true
  pub membership_fit : membership_fits (add_organisation organisation before) membership ≡ true
  pub has_name : organisation.name ≡ name
  pub has_slug : organisation.slug ≡ slug
  pub in_organisation : membership.organisation_id ≡ organisation.id
  pub of_user : membership.user_id ≡ u
  pub owns : membership.role ≡ OrganisationRole.owner

insert_organisation-Returns :
    (env : Env) (u : ℕ) (name slug : Text) (s : State)
    → Returns
        (insert_organisation env u name slug)
        s
        (λ c t. Founded u name slug s.session c.0 c.1 t.committed)
unfolding insert_organisation
insert_organisation-Returns env u name slug s =
    Returns-bind _ _ (create_organisation-Returns env s name slug) λ o s1 new.
      Returns-bind _ _ (create_membership-Returns env s1 o.id u OrganisationRole.owner) λ m s2 own.
        Returns-bind _ _ (record_event-Returns env s2 _ _ _ _ _ _ _) λ v s3 recorded.
          Returns-commit env _ λ s4 es ec. Returns-record_metric _ _ λ s5 fs fc.
            Returns-pure (o, m)
              (record {
                logged =
                    Logged-of-Recorded (own.wrote.session ∙ ap (add_membership m) new.wrote.session)
                      recorded (fc ∙ ec);
                fits = new.fits;
                membership_fit = subst (λ d. membership_fits d m ≡ true) new.wrote.session own.fits;
                has_name = new.has_name;
                has_slug = new.has_slug;
                in_organisation = own.in_organisation;
                of_user = own.of_user;
                owns = own.has_role;
              })

pub record CreatedBy (u : ℕ) (name : Text) (slug : Option Text) (before : Db)
    (v : CreatedOrganisation) (after : Db) : Type 0 where
  pub organisation : Organisation
  pub membership : OrganisationMembership
  pub founded : Founded u name (requested_slug name slug) before organisation membership after
  pub answer : v ≡ created_organisation organisation membership

-- A returned `create_organisation` has committed the organisation, its owner and the event only.
pub create_organisation-Returns_lem :
    (env : Env) (p : CurrentPrincipal) (name : Text) (slug : Option Text) (s : State)
    → Returns
        (create_organisation env p name slug)
        s
        (λ v t. CreatedBy p.user_id name slug s.session v t.committed)
unfolding create_organisation
create_organisation-Returns_lem env p name slug s = Returns-query _ _ (
    Returns-raise_if _ _ _ λ free.
      Returns-bind _ _
        (Returns-transaction _ _ (insert_organisation-Returns env p.user_id name _ s))
        λ c t founded.
          Returns-pure _
            (record { organisation = c.0; membership = c.1; founded = founded; answer = refl }))

-- The row has the name and the slug that were asked for and its other ones, is as it was or was
-- rewritten with a free slug, and one event tells of it.
pub record Rewritten (u : ℕ) (name slug : Option Text) (old : Organisation) (before : Db)
    (organisation : Organisation) (after : Db) : Type 0 where
  pub middle : Db
  pub change :
      (middle ≡ before) × (organisation ≡ old)
      ⊎ (middle ≡ put_organisation organisation before)
        × (organisation_update_fits before organisation ≡ true)
  pub logged :
      Logged middle after
        (λ d. d)
        AuditAction.organisation_updated
        (some organisation.id)
        (some u)
        none
        (some organisation.id)
  pub has_id : organisation.id ≡ old.id
  pub has_name : IsGiven name old.name organisation.name
  pub has_slug : IsGiven slug old.slug organisation.slug
  pub has_created_at : organisation.created_at ≡ old.created_at

middle_of :
    {env : Env} {s t : State} {name slug : Option Text} {old o : Organisation}
    → EditedOrganisation env s name slug old o t
    → (t.session ≡ s.session) × (o ≡ old)
      ⊎ (t.session ≡ put_organisation o s.session) × (organisation_update_fits s.session o ≡ true)
middle_of e = cases e.wrote
  where
    cases :
        {s t : State} {old o : Organisation}
        → (t ≡ s) × (o ≡ old)
          ⊎ Wrote s t (put_organisation o) × (organisation_update_fits s.session o ≡ true)
        → (t.session ≡ s.session) × (o ≡ old)
          ⊎ (t.session ≡ put_organisation o s.session)
            × (organisation_update_fits s.session o ≡ true)
    cases (inl (same, old)) = inl (ap (λ u. u.session) same, old)
    cases (inr (w, fits)) = inr (w.session, fits)

write_organisation-Returns :
    (env : Env) (u : ℕ) (old : Organisation) (name slug : Option Text) (s : State)
    → Returns
        (write_organisation env u old name slug)
        s
        (λ o t. Rewritten u name slug old s.session o t.committed)
unfolding write_organisation
write_organisation-Returns env u old name slug s =
    Returns-bind _ _ (update_organisation-Returns env s old name slug) λ o t edited.
      Returns-bind _ _ (record_event-Returns env t _ _ _ _ _ _ _) λ v w recorded.
        Returns-commit env _ λ c es ec. Returns-pure o (record {
          middle = t.session;
          change = middle_of edited;
          logged = Logged-of-Recorded refl recorded ec;
          has_id = edited.has_id;
          has_name = edited.has_name;
          has_slug = edited.has_slug;
          has_created_at = edited.has_created_at;
        })

-- A requested slug is normalised before it is written.
pub record Updated (p : CurrentPrincipal) (i : ℕ) (name slug : Option Text) (before : Db)
    (v : PublicOrganisation) (after : Db) : Type 0 where
  pub context : TenantContext
  pub authorised : Authorised p i Permission.update_organisation before context
  pub old : Organisation
  pub found : scalar (λ r. r.id == i) before.organisations ≡ some old
  pub organisation : Organisation
  pub rewritten : Rewritten p.user_id name (normalised slug) old before organisation after
  pub answer : v ≡ public_organisation_from_model organisation

-- A returned `update_organisation` was allowed, and has committed the change and its event only.
pub update_organisation-Returns_lem :
    (env : Env) (p : CurrentPrincipal) (i : ℕ) (name slug : Option Text) (s : State)
    → Returns
        (update_organisation env p i name slug)
        s
        (λ v t. Updated p i name slug s.session v t.committed)
unfolding update_organisation
update_organisation-Returns_lem env p i name slug s =
    Returns-check _ _ (get_tenant_context-ReadOnly _ _ _) (get_tenant_context-Returns p i _ s)
      λ context authorised. Returns-query _ _ (
        Returns-or_raise _ _ _ λ old found.
          Returns-check _ _ {Q = λ _. Unit {0}} (check_slug-ReadOnly _ _)
            (record { at = λ x t h. tt })
            λ x _.
              Returns-bind _ _
                (Returns-transaction _ _
                  (write_organisation-Returns env p.user_id old name (normalised slug) s))
                λ o t rewritten. Returns-pure _ (record {
                  context = context;
                  authorised = authorised;
                  old = old;
                  found = found;
                  organisation = o;
                  rewritten = rewritten;
                  answer = refl;
                }))
