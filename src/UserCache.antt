-- ===== src/UserCache.antt =====
-- `UserCacheManager` of backend/app/admin/utils/cache.py: the cached users that a change of roles, menus
-- or data scopes outdates. The association tables are their pairs of keys; a join whose users are
-- made distinct is read as a search for one partner.
pub mod Cleared
use fbapy.Base.{ℕ, Bool, true, false, List, [], ◌∷◌, ◌++◌, ◌==◌, if◌then◌else◌, any, map, keep}
use fbapy.Base.Text.{Text}
use fbapy.Conf.{jwt_user_redis_prefix}
use fbapy.Redis.{Server, delete_all}
use fbapy.Token.{user_key}

-- `column.in_(ids)`
abbrev pub contains : List ℕ → ℕ → Bool
contains ids id = any (λ i. i == id) ids

-- `.distinct()`: the first of equal identifiers stays.
unfoldable pub distinct : List ℕ → List ℕ
distinct [] = []
distinct (id ∷ ids) = let rest = distinct ids in if contains rest id then rest else id ∷ rest

-- The left keys of the pairs whose right key is one of `ids`.
abbrev pub Pairs : Type 0
Pairs = List (ℕ × ℕ)

unfoldable pub partners : List ℕ → Pairs → List ℕ
partners ids [] = []
partners ids ((a, b) ∷ pairs) =
    let rest = partners ids pairs in if contains ids b then a ∷ rest else rest

-- The tables `user_role`, `role_menu`, `role_data_scope` and `data_scope_rule`.
pub record Associations : Type 0 where
  pub user_role : Pairs
  pub role_menu : Pairs
  pub role_data_scope : Pairs
  pub data_scope_rule : Pairs

module _ (r : Server) where
  open r use {State}

  -- Without users nothing is sent to Redis.
  unfoldable pub clear : List ℕ → State → State
  clear [] s = s
  clear (id ∷ ids) s = delete_all r (map (user_key jwt_user_redis_prefix) (id ∷ ids)) s

  unfoldable pub clear_by_role_id : Associations → List ℕ → State → State
  clear_by_role_id db role_ids s = clear (distinct (partners role_ids db.user_role)) s

  unfoldable pub clear_by_menu_id : Associations → List ℕ → State → State
  clear_by_menu_id db menu_ids s =
      clear (distinct (partners (partners menu_ids db.role_menu) db.user_role)) s

  unfoldable pub clear_by_data_scope_id : Associations → List ℕ → State → State
  clear_by_data_scope_id db scope_ids s =
      clear (distinct (partners (partners scope_ids db.role_data_scope) db.user_role)) s

  unfoldable pub clear_by_data_rule_id : Associations → List ℕ → State → State
  clear_by_data_rule_id db rule_ids s =
      clear
        (distinct (
          partners (partners (partners rule_ids db.data_scope_rule) db.role_data_scope)
            db.user_role))
        s
