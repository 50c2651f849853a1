-- ===== src/Admin/Menus.antt =====
-- `MenuService` of backend/app/admin/service/menu_service.py over `menu_dao`
-- (backend/app/admin/crud/crud_menu.py). The sidebar gives the rows from which the tree is built.
use fbapy.Base.{
  ℕ, Bool, true, false, not, ◌&&◌, Option, none, some, List, [], ◌∷◌, ◌++◌, ◌==◌, keep, is_empty,
  if◌then◌else◌,
}
use fbapy.Base.Text.{Text, text_eq}
use fbapy.Base.Exec.{
  Exec, forbidden_error, not_found_error, conflict_error, modify, pure, raise_if, or_raise, ◌>>=◌,
  ◌>>◌,
}
use fbapy.Redis.{Server}
use fbapy.Table.{found}
use fbapy.UserCache.{contains, clear_by_menu_id}
use fbapy.Admin.{
  Keyed, MenuParam, Database, Store, new_row, with_columns, sent_menu, is_key, without_right,
  on_redis, on_pairs,
}

-- `get_by_title`: the title of a menu that is no button
abbrev pub menu_titled : Text → Keyed MenuParam → Bool
menu_titled title row = text_eq row.columns.title title && not (row.columns.type_of == 2)

abbrev pub names_parent : ℕ → Option ℕ → Bool
names_parent pk none = false
names_parent pk (some p) = p == pk

abbrev pub child_of : ℕ → Keyed MenuParam → Bool
child_of pk row = names_parent pk row.columns.parent_id

-- `type__in: [0, 1, 3, 4]`
abbrev pub in_sidebar : Keyed MenuParam → Bool
in_sidebar row = contains (0 ∷ 1 ∷ 3 ∷ 4 ∷ []) row.columns.type_of

-- `menu_ids.update(menu.id for menu in role.menus)` over the roles
abbrev pub menu_ids : List (List ℕ) → List ℕ
menu_ids [] = []
menu_ids (menus ∷ roles) = menus ++ menu_ids roles

module _ (r : Server) (d : Database) where
  abbrev pub get_menu : (Keyed MenuParam → Bool) → Store r d → Option (Keyed MenuParam)
  get_menu p w = d.menu_table.first p w.menus

  abbrev pub on_menus : (d.menu_table.State → d.menu_table.State) → Exec (Store r d) (Unit {0})
  on_menus f = modify (λ w. record w { menus = f w.menus })

  -- `user_cache_manager.clear_by_menu_id(db, [pk])`
  abbrev pub clear_menu : ℕ → Exec (Store r d) (Unit {0})
  clear_menu pk = on_redis r d (λ pairs. clear_by_menu_id r pairs (pk ∷ []))

  -- `if obj.parent_id`: zero passes.
  abbrev pub parent_missing : Option ℕ → Store r d → Bool
  parent_missing none w = false
  parent_missing (some p) w = if p == 0 then false else not (found (get_menu (is_key p) w))

  -- `menu_dao.get_sidebar(db, menu_ids)`: an empty list filters as little as `None` does.
  abbrev pub sidebar_rows : Option (List ℕ) → Store r d → List (Keyed MenuParam)
  sidebar_rows none w = keep in_sidebar (d.menu_table.rows w.menus)
  sidebar_rows (some ids) w =
      if is_empty ids
      then keep in_sidebar (d.menu_table.rows w.menus)
      else keep (λ row. in_sidebar row && contains ids row.id) (d.menu_table.rows w.menus)

  -- The menus of the roles are given by their identifiers.
  unfoldable pub get_sidebar : Bool → List (List ℕ) → Store r d → List (Keyed MenuParam)
  get_sidebar is_superuser roles w =
      if is_superuser
      then sidebar_rows none w
      else if is_empty roles
      then []
      else sidebar_rows (some (menu_ids roles)) w

  unfoldable pub create_menu : MenuParam → Exec (Store r d) (Unit {0})
  create_menu obj w =
      (do
        raise_if (found (get_menu (menu_titled obj.title) w)) (conflict_error "菜单标题已存在")
        raise_if (parent_missing obj.parent_id w) (not_found_error "父级菜单不存在")
        on_menus (d.menu_table.insert (new_row obj)))
        w

  unfoldable pub update_menu : ℕ → List Text → MenuParam → Exec (Store r d) (Unit {0})
  update_menu pk fields_set obj w =
      (do
        menu ← or_raise (get_menu (is_key pk) w) (not_found_error "菜单不存在")
        raise_if
            (not (text_eq menu.columns.title obj.title)
              && found (get_menu (menu_titled obj.title) w))
            (conflict_error "菜单标题已存在")
        raise_if (parent_missing obj.parent_id w) (not_found_error "父级菜单不存在")
        raise_if (names_parent menu.id obj.parent_id) (forbidden_error "禁止关联自身为父级")
        on_menus (d.menu_table.update (is_key pk) (with_columns (sent_menu fields_set obj)))
        clear_menu pk)
        w

  -- The cache is cleared if a row was deleted.
  abbrev pub clear_deleted : Bool → ℕ → Exec (Store r d) (Unit {0})
  clear_deleted true pk = clear_menu pk
  clear_deleted false pk = pure tt

  -- `menu_dao.delete` deletes the pairs of the menu and then its row.
  unfoldable pub delete_menu : ℕ → Exec (Store r d) (Unit {0})
  delete_menu pk w =
      (do
        raise_if (found (get_menu (child_of pk) w)) (conflict_error "菜单下存在子菜单，无法删除")
        on_pairs r d (λ pairs. record pairs { role_menu = without_right pk pairs.role_menu })
        on_menus (d.menu_table.delete (is_key pk))
        clear_deleted (found (get_menu (is_key pk) w)) pk)
        w
