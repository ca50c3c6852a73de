-- ===== src/Repositories/Users.antt =====
-- repositories/users.py
use multi_tenant_saas_api.Base.{ℕ, Bool, Option, [], ◌∷◌, ◌++◌, Text, text_eq, scalar, ◌==◌}
use multi_tenant_saas_api.Database.{Db, User, user_fits}
use multi_tenant_saas_api.Exec.{Env, Action, pure, query, ◌>>=◌, ◌>>◌, uuid4, now, flush}

unfoldable pub add_user : User → Db → Db
add_user u db = record db { users = db.users ++ u ∷ [] }

unfoldable pub create : Env → Text → Text → Text → Bool → Action User
create env email display_name password_hash is_active = do
  i ← uuid4 env
  c ← now env
  t ← now env
  let user : User = record {
    id = i;
    email = email;
    display_name = display_name;
    password_hash = password_hash;
    is_active = is_active;
    created_at = c;
    updated_at = t;
  }
  flush env (λ db. user_fits db user) (add_user user)
  pure user

abbrev pub get_by_id : ℕ → Action (Option User)
get_by_id user_id = query (λ db. scalar (λ u. u.id == user_id) db.users)

abbrev pub get_by_email : Text → Action (Option User)
get_by_email email = query (λ db. scalar (λ u. text_eq u.email email) db.users)
