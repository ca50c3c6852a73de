-- ===== src/Repositories/Projects.antt =====
-- repositories/projects.py
use multi_tenant_saas_api.Base.{
  ℕ, Bool, true, false, Option, none, some, List, [], ◌∷◌, ◌++◌, Text, text_eq, select, scalar,
  count, update_rows, order_by, page, ◌==◌, ◌&&◌, leb, is_none, if◌then◌else◌,
}
use multi_tenant_saas_api.Domain.{
  ProjectStatus, ProjectSortField, SortDirection, status_eq, status_value,
}
use multi_tenant_saas_api.Database.{Db, Project, project_fits, project_update_fits}
use multi_tenant_saas_api.Exec.{Env, Action, pure, query, ◌>>=◌, ◌>>◌, uuid4, now, flush}

unfoldable pub add_project : Project → Db → Db
add_project p db = record db { projects = db.projects ++ p ∷ [] }

unfoldable pub put_project : Project → Db → Db
put_project p db = record db { projects = update_rows (λ q. q.id == p.id) (λ q. p) db.projects }

unfoldable pub create : Env → ℕ → Text → ProjectStatus → Option Text → Option ℕ → Action Project
create env organisation_id name status description created_by_user_id = do
  i ← uuid4 env
  c ← now env
  t ← now env
  let project : Project = record {
    id = i;
    organisation_id = organisation_id;
    name = name;
    status = status;
    description = description;
    created_by_user_id = created_by_user_id;
    updated_by_user_id = created_by_user_id;
    deleted_at = none;
    created_at = c;
    updated_at = t;
  }
  flush env (λ db. project_fits db project) (add_project project)
  pure project

abbrev shown : Bool → Project → Bool
shown true p = true
shown false p = is_none p.deleted_at

unfoldable pub find_project : ℕ → ℕ → Bool → Db → Option Project
find_project organisation_id project_id include_deleted db =
    scalar
      (λ p.
        (p.organisation_id == organisation_id) && (p.id == project_id) && shown include_deleted p)
      db.projects

abbrev pub get_by_id : ℕ → ℕ → Bool → Action (Option Project)
get_by_id organisation_id project_id include_deleted =
    query (find_project organisation_id project_id include_deleted)

abbrev has_status : Option ProjectStatus → Project → Bool
has_status none p = true
has_status (some s) p = status_eq p.status s

-- `if name_search`: an absent or empty search is no condition.
abbrev has_name : Env → Option Text → Project → Bool
has_name env none p = true
has_name env (some []) p = true
has_name env (some (c ∷ s)) p = env.ilike p.name (c ∷ s)

unfoldable pub is_listed : Env → ℕ → Option ProjectStatus → Option Text → Bool → Project → Bool
is_listed env organisation_id status name_search include_deleted p =
    (p.organisation_id == organisation_id)
    && has_status status p
    && has_name env name_search p
    && shown include_deleted p

-- Whether the sort column of the first is at most that of the second.
unfoldable pub sort_column : Env → ProjectSortField → Project → Project → Bool
sort_column env ProjectSortField.name p q = env.collates p.name q.name
sort_column env ProjectSortField.status p q =
    env.collates (status_value p.status) (status_value q.status)
sort_column env ProjectSortField.created_at p q = leb p.created_at q.created_at

abbrev column_then_id : (Project → Project → Bool) → Project → Project → Bool
column_then_id le p q = if le p q then (if le q p then leb p.id q.id else true) else false

-- The column, then the identifier, both in the direction asked for.
unfoldable pub sort_expression : Env → ProjectSortField → SortDirection → Project → Project → Bool
unfolding sort_column
sort_expression env sort_by SortDirection.asc p q = column_then_id (sort_column env sort_by) p q
sort_expression env sort_by SortDirection.desc p q = column_then_id (sort_column env sort_by) q p

unfoldable pub list_for_organisation :
    Env
    → ℕ
    → ℕ
    → ℕ
    → Option ProjectStatus
    → Option Text
    → Bool
    → ProjectSortField
    → SortDirection
    → Action (List Project)
list_for_organisation env organisation_id limit offset status name_search include_deleted sort_by
      sort_direction =
    query λ db. page limit offset (
      order_by (sort_expression env sort_by sort_direction)
        (select (is_listed env organisation_id status name_search include_deleted) db.projects))

unfoldable pub count_for_organisation :
    Env → ℕ → Option ProjectStatus → Option Text → Bool → Action ℕ
count_for_organisation env organisation_id status name_search include_deleted =
    query λ db. count (is_listed env organisation_id status name_search include_deleted) db.projects

-- The value given for a description: none at all (`_UNSET`), or a text or `None`.
pub data Update (A : Type 0) : Type 0 where
  unset : Update A
  set_to : A → Update A

abbrev pub given : {A : Type 0} → Option A → A → A
given none old = old
given (some a) old = a

abbrev pub given_update : {A : Type 0} → Update A → A → A
given_update unset old = old
given_update (set_to a) old = a

abbrev pub given_user : Option ℕ → Option ℕ → Option ℕ
given_user none old = old
given_user (some u) old = some u

abbrev pub description_eq : Option Text → Option Text → Bool
description_eq none none = true
description_eq none (some t) = false
description_eq (some s) none = false
description_eq (some s) (some t) = text_eq s t

abbrev pub user_eq : Option ℕ → Option ℕ → Bool
user_eq none none = true
user_eq none (some j) = false
user_eq (some i) none = false
user_eq (some i) (some j) = i == j

-- The fields that `update` sets.
abbrev pub same_fields : Project → Project → Bool
same_fields p q =
    text_eq p.name q.name
    && description_eq p.description q.description
    && status_eq p.status q.status
    && user_eq p.updated_by_user_id q.updated_by_user_id

-- The attributes as `update` assigns them.
unfoldable pub edited :
    Project → Option Text → Update (Option Text) → Option ProjectStatus → Option ℕ → Project
edited project name description status updated_by_user_id = record project {
  name = given name project.name;
  description = given_update description project.description;
  status = given status project.status;
  updated_by_user_id = given_user updated_by_user_id project.updated_by_user_id;
}

-- A flush with no net change writes nothing; `updated_at` moves with every `UPDATE`.
abbrev pub save : Env → Project → Project → Action Project
save env project changed = if same_fields project changed then pure project else do
  t ← now env
  let updated = record changed { updated_at = t }
  flush env (λ db. project_update_fits db updated) (put_project updated)
  pure updated

unfoldable pub update :
    Env
    → Project
    → Option Text
    → Update (Option Text)
    → Option ProjectStatus
    → Option ℕ
    → Action Project
unfolding edited
update env project name description status updated_by_user_id =
    save env project (edited project name description status updated_by_user_id)

abbrev or_now : Env → Option ℕ → Action ℕ
or_now env none = now env
or_now env (some t) = pure t

-- The soft delete: the row stays, with its time of deletion.
unfoldable pub delete : Env → Project → Option ℕ → Option ℕ → Action Project
delete env project deleted_at updated_by_user_id = do
  d ← or_now env deleted_at
  t ← now env
  let deleted = record project {
    deleted_at = some d;
    updated_by_user_id = given_user updated_by_user_id project.updated_by_user_id;
    updated_at = t;
  }
  flush env (λ db. project_update_fits db deleted) (put_project deleted)
  pure deleted
