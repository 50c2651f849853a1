-- ===== src/Admin/Scopes.antt =====
-- `DataScopeService` and `DataRuleService` (backend/app/admin/service/data_scope_service.py and
-- data_rule_service.py) over `data_scope_dao` and `data_rule_dao`: the calls that change something.
use fbapy.Base.{ℕ, Bool, not, ◌&&◌, Option, List, [], ◌∷◌, ◌++◌}
use fbapy.Base.Text.{Text, text_eq}
use fbapy.Base.Exec.{Exec, not_found_error, conflict_error, modify, raise_if, or_raise, ◌>>=◌, ◌>>◌}
use fbapy.Redis.{Server}
use fbapy.Table.{found}
use fbapy.UserCache.{contains, clear_by_data_scope_id, clear_by_data_rule_id}
use fbapy.Admin.{
  Keyed, ScopeParam, RuleParam, Database, Store, new_row, with_columns, is_key, without_left,
  pairs_of, on_redis, on_pairs, insert_pairs,
}

abbrev pub scope_named : Text → Keyed ScopeParam → Bool
scope_named name row = text_eq row.columns.name name

abbrev pub rule_named : Text → Keyed RuleParam → Bool
rule_named name row = text_eq row.columns.name name

module _ (r : Server) (d : Database) where
  abbrev pub get_scope : (Keyed ScopeParam → Bool) → Store r d → Option (Keyed ScopeParam)
  get_scope p w = d.scope_table.first p w.scopes

  abbrev pub on_scopes : (d.scope_table.State → d.scope_table.State) → Exec (Store r d) (Unit {0})
  on_scopes f = modify (λ w. record w { scopes = f w.scopes })

  abbrev pub clear_scopes : List ℕ → Exec (Store r d) (Unit {0})
  clear_scopes scope_ids = on_redis r d (λ pairs. clear_by_data_scope_id r pairs scope_ids)

  abbrev pub get_rule : (Keyed RuleParam → Bool) → Store r d → Option (Keyed RuleParam)
  get_rule p w = d.rule_table.first p w.rules

  abbrev pub on_rules : (d.rule_table.State → d.rule_table.State) → Exec (Store r d) (Unit {0})
  on_rules f = modify (λ w. record w { rules = f w.rules })

  abbrev pub clear_rules : List ℕ → Exec (Store r d) (Unit {0})
  clear_rules rule_ids = on_redis r d (λ pairs. clear_by_data_rule_id r pairs rule_ids)

  unfoldable pub create_scope : ScopeParam → Exec (Store r d) (Unit {0})
  create_scope obj w =
      (do
        raise_if (found (get_scope (scope_named obj.name) w)) (conflict_error "数据范围已存在")
        on_scopes (d.scope_table.insert (new_row obj)))
        w

  unfoldable pub update_scope : ℕ → ScopeParam → Exec (Store r d) (Unit {0})
  update_scope pk obj w =
      (do
        scope ← or_raise (get_scope (is_key pk) w) (not_found_error "数据范围不存在")
        raise_if
            (not (text_eq scope.columns.name obj.name)
              && found (get_scope (scope_named obj.name) w))
            (conflict_error "数据范围已存在")
        on_scopes (d.scope_table.update (is_key pk) (with_columns (λ _. obj)))
        clear_scopes (pk ∷ []))
        w

  -- `data_scope_dao.update_rules`; neither the scope nor the rules are looked up.
  unfoldable pub update_data_scope_rule : ℕ → List ℕ → Exec (Store r d) (Unit {0})
  update_data_scope_rule pk rules = do
    on_pairs r d (λ pairs. record pairs { data_scope_rule = without_left pk pairs.data_scope_rule })
    insert_pairs r d rules
        (λ pairs. record pairs { data_scope_rule = pairs.data_scope_rule ++ pairs_of pk rules })
    clear_scopes (pk ∷ [])

  unfoldable pub delete_scope : List ℕ → Exec (Store r d) (Unit {0})
  delete_scope pks = do
    on_scopes (d.scope_table.delete (λ row. contains pks row.id))
    clear_scopes pks

  unfoldable pub create_rule : RuleParam → Exec (Store r d) (Unit {0})
  create_rule obj w =
      (do
        raise_if (found (get_rule (rule_named obj.name) w)) (conflict_error "数据规则已存在")
        on_rules (d.rule_table.insert (new_row obj)))
        w

  unfoldable pub update_rule : ℕ → RuleParam → Exec (Store r d) (Unit {0})
  update_rule pk obj w =
      (do
        rule ← or_raise (get_rule (is_key pk) w) (not_found_error "数据规则不存在")
        raise_if
            (not (text_eq rule.columns.name obj.name) && found (get_rule (rule_named obj.name) w))
            (conflict_error "数据规则已存在")
        on_rules (d.rule_table.update (is_key pk) (with_columns (λ _. obj)))
        clear_rules (pk ∷ []))
        w

  unfoldable pub delete_rule : List ℕ → Exec (Store r d) (Unit {0})
  delete_rule pks = do on_rules (d.rule_table.delete (λ row. contains pks row.id)); clear_rules pks
