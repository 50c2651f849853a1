-- ===== src/Admin/Roles.antt =====
-- `RoleService` of backend/app/admin/service/role_service.py over `role_dao`
-- (backend/app/admin/crud/crud_role.py): the calls that change something.
use fbapy.Base.{ℕ, Bool, not, ◌&&◌, Option, List, [], ◌∷◌, ◌++◌, all}
use fbapy.Base.Text.{Text, text_eq}
use fbapy.Base.Exec.{Exec, not_found_error, conflict_error, modify, raise_if, or_raise, ◌>>=◌, ◌>>◌}
use fbapy.Redis.{Server}
use fbapy.Table.{found}
use fbapy.UserCache.{contains, clear_by_role_id}
use fbapy.Admin.{
  Keyed, RoleParam, Database, Store, new_row, with_columns, sent_role, is_key, without_left,
  pairs_of, on_redis, on_pairs, insert_pairs,
}

abbrev pub role_named : Text → Keyed RoleParam → Bool
role_named name row = text_eq row.columns.name name

module _ (r : Server) (d : Database) where
  abbrev pub get_role : (Keyed RoleParam → Bool) → Store r d → Option (Keyed RoleParam)
  get_role p w = d.role_table.first p w.roles

  abbrev pub on_roles : (d.role_table.State → d.role_table.State) → Exec (Store r d) (Unit {0})
  on_roles f = modify (λ w. record w { roles = f w.roles })

  -- `user_cache_manager.clear_by_role_id(db, role_ids)`
  abbrev pub clear_roles : List ℕ → Exec (Store r d) (Unit {0})
  clear_roles role_ids = on_redis r d (λ pairs. clear_by_role_id r pairs role_ids)

  unfoldable pub create_role : RoleParam → Exec (Store r d) (Unit {0})
  create_role obj w =
      (do
        raise_if (found (get_role (role_named obj.name) w)) (conflict_error "角色已存在")
        on_roles (d.role_table.insert (new_row obj)))
        w

  unfoldable pub update_role : ℕ → List Text → RoleParam → Exec (Store r d) (Unit {0})
  update_role pk fields_set obj w =
      (do
        role ← or_raise (get_role (is_key pk) w) (not_found_error "角色不存在")
        raise_if
            (not (text_eq role.columns.name obj.name) && found (get_role (role_named obj.name) w))
            (conflict_error "角色已存在")
        on_roles (d.role_table.update (is_key pk) (with_columns (sent_role fields_set obj)))
        clear_roles (pk ∷ []))
        w

  -- `role_dao.update_menus`
  abbrev pub replace_role_menus : ℕ → List ℕ → Exec (Store r d) (Unit {0})
  replace_role_menus role_id menus = do
    on_pairs r d (λ pairs. record pairs { role_menu = without_left role_id pairs.role_menu })
    insert_pairs r d menus
        (λ pairs. record pairs { role_menu = pairs.role_menu ++ pairs_of role_id menus })

  unfoldable pub update_role_menu : ℕ → List ℕ → Exec (Store r d) (Unit {0})
  update_role_menu pk menus w =
      (do
        role ← or_raise (get_role (is_key pk) w) (not_found_error "角色不存在")
        raise_if (not (all (λ (id : ℕ). found (d.menu_table.first (is_key id) w.menus)) menus))
            (not_found_error "菜单不存在")
        replace_role_menus pk menus
        clear_roles (pk ∷ []))
        w

  -- `role_dao.update_scopes`
  abbrev pub replace_role_scopes : ℕ → List ℕ → Exec (Store r d) (Unit {0})
  replace_role_scopes role_id scopes = do
    on_pairs r d
        (λ pairs. record pairs { role_data_scope = without_left role_id pairs.role_data_scope })
    insert_pairs r d scopes (λ pairs. record pairs {
      role_data_scope = pairs.role_data_scope ++ pairs_of role_id scopes;
    })

  unfoldable pub update_role_scope : ℕ → List ℕ → Exec (Store r d) (Unit {0})
  update_role_scope pk scopes w =
      (do
        role ← or_raise (get_role (is_key pk) w) (not_found_error "角色不存在")
        raise_if (not (all (λ (id : ℕ). found (d.scope_table.first (is_key id) w.scopes)) scopes))
            (not_found_error "数据范围不存在")
        replace_role_scopes pk scopes
        clear_roles (pk ∷ []))
        w

  -- The pairs of the roles stay.
  unfoldable pub delete_role : List ℕ → Exec (Store r d) (Unit {0})
  delete_role pks = do on_roles (d.role_table.delete (λ row. contains pks row.id)); clear_roles pks
