-- ===== src/Tenancy/Operations/Resources.antt =====
-- What the operations on projects and on API keys may change.
use multi_tenant_saas_api.Base.{
  ℕ, ◌≡◌, ◌⊎◌, inl, inr, refl, sym, ap, subst, Bool, true, false, ◌&&◌, Option, none, some, Text,
  All, ◌==◌, arith, is_none,
}
use multi_tenant_saas_api.Base.Unique.{unique_row, scalar-holds}
use multi_tenant_saas_api.Domain.{ProjectStatus}
use multi_tenant_saas_api.Database.{Db, Project, ApiKey}
use multi_tenant_saas_api.Exec.{Env, State}
use multi_tenant_saas_api.Exec.Rules.{IsClean}
use multi_tenant_saas_api.Exec.Returns.{Returns-weaken}
use multi_tenant_saas_api.Repositories.Projects.{find_project, add_project, put_project}
use multi_tenant_saas_api.Repositories.ApiKeys.{find_api_key, add_api_key, put_api_key}
use multi_tenant_saas_api.Rbac.{CurrentPrincipal}
use multi_tenant_saas_api.ProjectService.{
  create_project, update_project, delete_project, actor_user_id, actor_api_key_id,
}
use multi_tenant_saas_api.ProjectService.Effects.{create_project-Returns_lem}
use multi_tenant_saas_api.ProjectService.Effects.Changes.{
  update_project-Returns_lem, delete_project-Returns_lem,
}
use multi_tenant_saas_api.ApiKeyService.{ProjectPrincipal, create_api_key, revoke_api_key}
use multi_tenant_saas_api.ApiKeyService.Effects.{
  Written, Kept, create_api_key-Returns_lem, revoke_api_key-Returns_lem,
}
use multi_tenant_saas_api.Invariants.{IsValid, same_key_id, same_project_id}
use multi_tenant_saas_api.Tenancy.{Change, Accounted}
use multi_tenant_saas_api.Tenancy.Writes.{
  SameTenant-add_project, SameTenant-add_api_key, SameTenant-put_project, SameTenant-put_api_key,
  Change-Logged,
}
use multi_tenant_saas_api.Tenancy.Operations.{Accounts, Accounts-Change, edited, other_than}

only_project :
    (o i : ℕ) (old p : Project) (db : Db)
    → IsValid db
    → find_project o i false db ≡ some old
    → p.id ≡ old.id
    → All (λ x. (x.id == p.id) ≡ true → x ≡ old) db.projects × (old.organisation_id ≡ o)
unfolding find_project
only_project o i old p db v found same =
    let q : Project → Bool = λ x. (x.organisation_id == o) && (x.id == i) && is_none x.deleted_at in
    (
      unique_row same_project_id q (λ x. x.id == p.id) db.projects old (λ x y px py. ground arith)
          v.project_ids found (ground arith),
      ground (arith, scalar-holds q db.projects old found),
    )

only_key :
    (o i : ℕ) (old k : ApiKey) (db : Db)
    → IsValid db
    → find_api_key o i db ≡ some old
    → k.id ≡ old.id
    → All (λ x. (x.id == k.id) ≡ true → x ≡ old) db.api_keys × (old.organisation_id ≡ o)
unfolding find_api_key
only_key o i old k db v found same =
    let q : ApiKey → Bool = λ x. (x.organisation_id == o) && (x.id == i) in
    (
      unique_row same_key_id q (λ x. x.id == k.id) db.api_keys old (λ x y px py. ground arith)
          v.key_ids found (ground arith),
      ground (arith, scalar-holds q db.api_keys old found),
    )

module _ (env : Env) where
  pub create_project-Accounts :
      (p : ProjectPrincipal) (i : ℕ) (n : Text) (d : Option Text) (st : ProjectStatus)
      → Accounts (actor_user_id p) (actor_api_key_id p) (some i) (create_project env p i n d st)
  unfolding add_project
  create_project-Accounts p i n d st =
      Accounts-Change (create_project-Returns_lem env p i n d st) λ s a t v e.
        Change-Logged e.inserted.logged refl λ o known away. (
          SameTenant-add_project o s.session e.project
              (other_than _ _ o e.inserted.in_organisation away),
          away,
        )

  pub update_project-Accounts :
      (p : ProjectPrincipal) (i j : ℕ) (n d : Option Text) (b : Bool) (st : Option ProjectStatus)
      → Accounts (actor_user_id p) (actor_api_key_id p) (some i) (update_project env p i j n d b st)
  unfolding put_project
  update_project-Accounts p i j n d b st =
      Accounts-Change (update_project-Returns_lem env p i j n d b st) λ s a t v e.
        let w = e.rewritten in
        let k = only_project i j e.old e.project s.session v e.found w.has_id in
        Change-Logged w.logged (edited w.change refl).0 λ o known away. (
          (edited w.change refl).1 o (
              SameTenant-put_project o s.session e.old e.project k.0 (other_than _ _ o k.1 away)
                w.in_organisation),
          away,
        )

  pub delete_project-Accounts :
      (p : ProjectPrincipal) (i j : ℕ)
      → Accounts (actor_user_id p) (actor_api_key_id p) (some i) (delete_project env p i j)
  unfolding put_project
  delete_project-Accounts p i j =
      Accounts-Change (delete_project-Returns_lem env p i j) λ s a t v e.
        let k = only_project i j e.old e.project s.session v e.found e.has_id in
        Change-Logged e.logged refl λ o known away. (
          SameTenant-put_project o s.session e.old e.project k.0 (other_than _ _ o k.1 away)
              e.in_organisation,
          away,
        )

  pub create_api_key-Accounts :
      (p : CurrentPrincipal) (i : ℕ) (n : Text)
      → Accounts (some p.user_id) none (some i) (create_api_key env p i n)
  unfolding add_api_key
  create_api_key-Accounts p i n =
      Accounts-Change (create_api_key-Returns_lem env p i n) λ s a t v e.
        Change-Logged e.inserted.logged refl λ o known away. (
          SameTenant-add_api_key o s.session e.api_key
              (other_than _ _ o e.inserted.in_organisation away),
          away,
        )

  pub revoke_api_key-Accounts :
      (p : CurrentPrincipal) (i j : ℕ)
      → Accounts (some p.user_id) none (some i) (revoke_api_key env p i j)
  unfolding put_api_key
  revoke_api_key-Accounts p i j = record {
    at = λ s c v.
        Returns-weaken (revoke_api_key-Returns_lem env p i j s)
          λ a t e. settled s t e.old e.api_key (subst IsValid (sym c) v) c e.found e.outcome.1;
  }
    where
      written :
          (s t : State) (old k : ApiKey)
          → IsValid s.session
          → find_api_key i j s.session ≡ some old
          → Written p.user_id i old s.session k t.committed
          → Change (some p.user_id) none (some i) s.session t.committed
      written s t old k v found gone = Change-Logged gone.logged refl λ o known away.
          let x = only_key i j old k s.session v found gone.has_id in
          (
            SameTenant-put_api_key o s.session old k x.0 (other_than _ _ o x.1 away)
                gone.in_organisation,
            away,
          )

      settled :
          (s t : State) (old k : ApiKey)
          → IsValid s.session
          → IsClean s
          → find_api_key i j s.session ≡ some old
          → Written p.user_id i old s.session k t.committed ⊎ Kept old s k t
          → Accounted (some p.user_id) none (some i) s.committed t.committed
      settled s t old k v c found (inl gone) = inr (
          subst (λ d. Change (some p.user_id) none (some i) d t.committed) c
            (written s t old k v found gone))
      settled s t old k v c found (inr kept) = inl (ap (λ x. x.committed) kept.idle)
