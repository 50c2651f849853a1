-- ===== src/Admin.antt =====
-- What the services of menus, roles, data scopes and data rules share (backend/app/admin/service and
-- backend/app/admin/crud): the rows, the tables, Redis, and the tables of pairs.
pub mod Menus
pub mod Roles
pub mod Scopes
pub mod Steps
pub mod Named
pub mod MenuRows
pub mod Valid
pub mod Kept
pub mod KeptRows
pub mod Reach
pub mod Cleared
pub mod Stale
pub mod Sidebar
use fbapy.Base.{
  ℕ, ◌≡◌, Bool, true, false, not, ◌&&◌, Option, none, some, List, [], ◌∷◌, ◌++◌, ◌==◌, is_empty,
  map, keep, if◌then◌else◌,
}
use fbapy.Base.Text.{Text, text_eq, codes}
use fbapy.Base.Exec.{Result, Exec, lift, modify, pure, ◌>>=◌, ◌>>◌}
use fbapy.Redis.{Server}
use fbapy.Table.{Table, sent}
use fbapy.UserCache.{Pairs, Associations}
use fbapy.DataPermission.{Operator, Expression}

-- A row: its primary key, and the columns that a request gives.
pub record Keyed (C : Type 0) : Type 0 where
  pub id : ℕ
  pub columns : C

abbrev pub key_of : {C : Type 0} → Keyed C → ℕ
key_of row = row.id

abbrev pub KeyedTable : Type 0 → Type 1
KeyedTable C = Table (Keyed C) key_of

-- `MenuSchemaBase`, `RoleSchemaBase`, `DataScopeBase` and `DataRuleSchemaBase`
pub record MenuParam : Type 0 where
  pub title : Text
  pub name : Text
  pub path : Option Text
  pub parent_id : Option ℕ
  pub sort : ℕ
  pub icon : Option Text
  pub type_of : ℕ
  pub component : Option Text
  pub perms : Option Text
  pub status : ℕ
  pub display : ℕ
  pub cache : ℕ
  pub link : Option Text
  pub remark : Option Text

pub record RoleParam : Type 0 where
  pub name : Text
  pub status : ℕ
  pub is_filter_scopes : Bool
  pub remark : Option Text

pub record ScopeParam : Type 0 where
  pub name : Text
  pub status : ℕ

pub record RuleParam : Type 0 where
  pub name : Text
  pub model : Text
  pub column : Text
  pub operator : Operator
  pub expression : Expression
  pub value : Text

-- What `create_model` inserts and what `update_model` makes of a row.
abbrev pub new_row : {C : Type 0} → C → ℕ → Keyed C
new_row c id = record { id = id; columns = c }

abbrev pub with_columns : {C : Type 0} → (C → C) → Keyed C → Keyed C
with_columns write row = record row { columns = write row.columns }

-- The fields with a default are written if they are set. All fields of a data scope and a data rule are
-- without one.
abbrev pub sent_menu : List Text → MenuParam → MenuParam → MenuParam
sent_menu fields_set obj old = record obj {
  path = sent fields_set (codes "path") obj.path old.path;
  parent_id = sent fields_set (codes "parent_id") obj.parent_id old.parent_id;
  sort = sent fields_set (codes "sort") obj.sort old.sort;
  icon = sent fields_set (codes "icon") obj.icon old.icon;
  component = sent fields_set (codes "component") obj.component old.component;
  perms = sent fields_set (codes "perms") obj.perms old.perms;
  link = sent fields_set (codes "link") obj.link old.link;
  remark = sent fields_set (codes "remark") obj.remark old.remark;
}

abbrev pub sent_role : List Text → RoleParam → RoleParam → RoleParam
sent_role fields_set obj old = record obj {
  is_filter_scopes =
      sent fields_set (codes "is_filter_scopes") obj.is_filter_scopes old.is_filter_scopes;
  remark = sent fields_set (codes "remark") obj.remark old.remark;
}

abbrev pub is_key : {C : Type 0} → ℕ → Keyed C → Bool
is_key pk row = row.id == pk

-- `insert_no_rows` is what the database session does with an INSERT and an empty list of rows.
pub record Database : Type 1 where
  pub menu_table : KeyedTable MenuParam
  pub role_table : KeyedTable RoleParam
  pub scope_table : KeyedTable ScopeParam
  pub rule_table : KeyedTable RuleParam
  pub insert_no_rows : Result (Unit {0})

-- What a call that raises has written to the tables is rolled back by its session, which is not part of a
-- call.
pub record Store (r : Server) (d : Database) : Type 0 where
  pub redis : r.State
  pub menus : d.menu_table.State
  pub roles : d.role_table.State
  pub scopes : d.scope_table.State
  pub rules : d.rule_table.State
  pub pairs : Associations

-- `delete(table).where(left == id)`, and the rows of one left key
abbrev pub without_left : ℕ → Pairs → Pairs
without_left id pairs = keep (λ (p : ℕ × ℕ). not (p.0 == id)) pairs

abbrev pub without_right : ℕ → Pairs → Pairs
without_right id pairs = keep (λ (p : ℕ × ℕ). not (p.1 == id)) pairs

abbrev pub pairs_of : ℕ → List ℕ → Pairs
pairs_of id ids = map (λ (i : ℕ). (id, i)) ids

module _ (r : Server) (d : Database) where
  abbrev pub on_redis : (Associations → r.State → r.State) → Exec (Store r d) (Unit {0})
  on_redis f = modify (λ w. record w { redis = f w.pairs w.redis })

  abbrev pub on_pairs : (Associations → Associations) → Exec (Store r d) (Unit {0})
  on_pairs f = modify (λ w. record w { pairs = f w.pairs })

  -- The INSERT of a list of pairs.
  abbrev pub insert_pairs : List ℕ → (Associations → Associations) → Exec (Store r d) (Unit {0})
  insert_pairs [] f = lift d.insert_no_rows
  insert_pairs (id ∷ ids) f = on_pairs f
