-- ===== src/Invariants/Operations.antt =====
-- Each operation of the services keeps the invariants where it returns.
use multi_tenant_saas_api.Base.{
  ℕ, ◌≡◌, ◌⊎◌, inl, inr, sym, subst, true, Bool, Option, some, Text, All, ◌==◌, arith, ◌&&◌,
}
use multi_tenant_saas_api.Base.Unique.{unique_row}
use multi_tenant_saas_api.Domain.{OrganisationRole, ProjectStatus}
use multi_tenant_saas_api.Database.{
  Db, Organisation, OrganisationMembership, Project, ApiKey, organisation_update_fits,
}
use multi_tenant_saas_api.Exec.{Env, State, Action}
use multi_tenant_saas_api.Exec.Rules.{IsClean}
use multi_tenant_saas_api.Exec.Returns.{Returns, Returns-weaken}
use multi_tenant_saas_api.Repositories.Organisations.{put_organisation}
use multi_tenant_saas_api.Repositories.Memberships.{put_membership}
use multi_tenant_saas_api.Repositories.Projects.{put_project}
use multi_tenant_saas_api.Repositories.ApiKeys.{find_api_key}
use multi_tenant_saas_api.Rbac.{CurrentPrincipal}
use multi_tenant_saas_api.MembershipService.{add_member, update_member_role, remove_member}
use multi_tenant_saas_api.MembershipService.Effects.Adding.{add_member-Returns}
use multi_tenant_saas_api.MembershipService.Effects.Changes.{
  update_member_role-Returns, remove_member-Returns,
}
use multi_tenant_saas_api.OrganisationService.{create_organisation, update_organisation}
use multi_tenant_saas_api.OrganisationService.Effects.{
  create_organisation-Returns_lem, update_organisation-Returns_lem,
}
use multi_tenant_saas_api.ProjectService.{create_project, update_project, delete_project}
use multi_tenant_saas_api.ProjectService.Effects.{create_project-Returns_lem}
use multi_tenant_saas_api.ProjectService.Effects.Changes.{
  update_project-Returns_lem, delete_project-Returns_lem,
}
use multi_tenant_saas_api.ApiKeyService.{ProjectPrincipal, create_api_key, revoke_api_key}
use multi_tenant_saas_api.ApiKeyService.Effects.{
  Written, Kept, create_api_key-Returns_lem, revoke_api_key-Returns_lem,
}
use multi_tenant_saas_api.Invariants.{IsValid, same_key_id}
use multi_tenant_saas_api.Invariants.Members.{
  IsValid-add_membership, IsValid-drop_membership, IsValid-put_membership,
}
use multi_tenant_saas_api.Invariants.Writes.{
  IsValid-Logged, IsValid-add_project, IsValid-put_project, IsValid-add_api_key,
  IsValid-put_api_key, IsValid-found, IsValid-put_organisation,
}

-- From a session with nothing pending, what `m` has committed when it returns is valid.
pub record Keeps {A : Type 0} (m : Action A) : Type 0 where
  pub at : (s : State) → IsClean s → IsValid s.committed → Returns m s (λ _ t. IsValid t.committed)

opened : (s : State) → IsClean s → IsValid s.committed → IsValid s.session
opened s c v = subst IsValid (sym c) v

module _ (env : Env) where
  pub create_organisation-Keeps :
      (p : CurrentPrincipal) (n : Text) (l : Option Text) → Keeps (create_organisation env p n l)
  create_organisation-Keeps p n l = record {
    at = λ s c v. Returns-weaken (create_organisation-Returns_lem env p n l s) λ a t e.
        let f = e.founded in
        IsValid-Logged f.logged (
          IsValid-found e.organisation e.membership s.session f.fits f.membership_fit
            f.in_organisation f.owns (opened s c v));
  }

  pub update_organisation-Keeps :
      (p : CurrentPrincipal) (o : ℕ) (n l : Option Text) → Keeps (update_organisation env p o n l)
  update_organisation-Keeps p o n l = record {
    at = λ s c v.
        Returns-weaken (update_organisation-Returns_lem env p o n l s)
          λ a t e. IsValid-Logged e.rewritten.logged (middle (opened s c v) e.rewritten.change);
  }
    where
      middle :
          {db mid : Db} {r old : Organisation}
          → IsValid db
          → (mid ≡ db) × (r ≡ old)
            ⊎ (mid ≡ put_organisation r db) × (organisation_update_fits db r ≡ true)
          → IsValid mid
      middle v (inl (e, _)) = subst IsValid (sym e) v
      middle v (inr (e, fits)) = subst IsValid (sym e) (IsValid-put_organisation _ _ fits v)

  pub add_member-Keeps :
      (p : CurrentPrincipal) (o u : ℕ) (r : OrganisationRole) → Keeps (add_member env p o u r)
  add_member-Keeps p o u r = record {
    at = λ s c v. Returns-weaken (add_member-Returns env p o u r s) λ a t e.
        IsValid-Logged e.inserted.logged
          (IsValid-add_membership e.membership s.session e.inserted.fits (opened s c v));
  }

  pub update_member_role-Keeps :
      (p : CurrentPrincipal) (o u : ℕ) (r : OrganisationRole)
      → Keeps (update_member_role env p o u r)
  update_member_role-Keeps p o u r = record {
    at = λ s c v. Returns-weaken (update_member_role-Returns env p o u r s) λ a t e.
        let w = e.rewritten in
        IsValid-Logged w.logged (
          middle w.change (opened s c v) (
            IsValid-put_membership s.session o u e.old e.found r e.membership e.protected w.has_id
              w.in_organisation w.of_user w.has_role (opened s c v)));
  }
    where
      middle :
          {db mid : Db} {m old : OrganisationMembership}
          → (mid ≡ db) × (m ≡ old) ⊎ (mid ≡ put_membership m db)
          → IsValid db
          → IsValid (put_membership m db)
          → IsValid mid
      middle (inl (e, _)) v w = subst IsValid (sym e) v
      middle (inr e) v w = subst IsValid (sym e) w

  pub remove_member-Keeps : (p : CurrentPrincipal) (o u : ℕ) → Keeps (remove_member env p o u)
  remove_member-Keeps p o u = record {
    at = λ s c v. Returns-weaken (remove_member-Returns env p o u s) λ a t e.
        IsValid-Logged e.logged
          (IsValid-drop_membership s.session o u e.old e.found e.protected (opened s c v));
  }

  pub create_project-Keeps :
      (p : ProjectPrincipal) (o : ℕ) (n : Text) (d : Option Text) (st : ProjectStatus)
      → Keeps (create_project env p o n d st)
  create_project-Keeps p o n d st = record {
    at = λ s c v. Returns-weaken (create_project-Returns_lem env p o n d st s) λ a t e.
        IsValid-Logged e.inserted.logged
          (IsValid-add_project e.project s.session e.inserted.fits (opened s c v));
  }

  pub update_project-Keeps :
      (p : ProjectPrincipal) (o i : ℕ) (n d : Option Text) (b : Bool) (st : Option ProjectStatus)
      → Keeps (update_project env p o i n d b st)
  update_project-Keeps p o i n d b st = record {
    at = λ s c v.
        Returns-weaken (update_project-Returns_lem env p o i n d b st s)
          λ a t e. IsValid-Logged e.rewritten.logged (middle (opened s c v) e.rewritten.change);
  }
    where
      middle :
          {db mid : Db} {q old : Project}
          → IsValid db
          → (mid ≡ db) × (q ≡ old) ⊎ (mid ≡ put_project q db)
          → IsValid mid
      middle v (inl (e, _)) = subst IsValid (sym e) v
      middle v (inr e) = subst IsValid (sym e) (IsValid-put_project _ _ v)

  pub delete_project-Keeps : (p : ProjectPrincipal) (o i : ℕ) → Keeps (delete_project env p o i)
  delete_project-Keeps p o i = record {
    at = λ s c v.
        Returns-weaken (delete_project-Returns_lem env p o i s)
          λ a t e. IsValid-Logged e.logged (IsValid-put_project e.project s.session (opened s c v));
  }

  pub create_api_key-Keeps :
      (p : CurrentPrincipal) (o : ℕ) (n : Text) → Keeps (create_api_key env p o n)
  create_api_key-Keeps p o n = record {
    at = λ s c v. Returns-weaken (create_api_key-Returns_lem env p o n s) λ a t e.
        IsValid-Logged e.inserted.logged
          (IsValid-add_api_key e.api_key s.session e.inserted.fits (opened s c v));
  }

  pub only_key :
      (o i : ℕ) (old : ApiKey) (db : Db)
      → IsValid db
      → find_api_key o i db ≡ some old
      → All (λ j. (j.id == old.id) ≡ true → j ≡ old) db.api_keys
  unfolding find_api_key
  only_key o i old db v found =
      unique_row same_key_id (λ k. (k.organisation_id == o) && (k.id == i)) (λ j. j.id == old.id)
        db.api_keys old (λ x y px py. ground arith) v.key_ids found (ground arith)

  pub revoke_api_key-Keeps : (p : CurrentPrincipal) (o i : ℕ) → Keeps (revoke_api_key env p o i)
  revoke_api_key-Keeps p o i = record {
    at = λ s c v.
        Returns-weaken (revoke_api_key-Returns_lem env p o i s)
          λ a t e. settled s t e.old e.api_key v (opened s c v) e.found e.outcome.1;
  }
    where
      settled :
          (s t : State) (old k : ApiKey)
          → IsValid s.committed
          → IsValid s.session
          → find_api_key o i s.session ≡ some old
          → Written p.user_id o old s.session k t.committed ⊎ Kept old s k t
          → IsValid t.committed
      settled s t old k v w found (inl gone) = IsValid-Logged gone.logged (
          IsValid-put_api_key old k s.session
            (subst (λ x. All (λ j. (j.id == x) ≡ true → j ≡ old) s.session.api_keys)
              (sym gone.has_id) (only_key o i old s.session w found))
            gone.has_id gone.has_hash w)
      settled s t old k v w found (inr kept) = subst (λ x. IsValid x.committed) (sym kept.idle) v
