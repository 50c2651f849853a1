-- ===== src/Dept.antt =====
-- `DeptService` of backend/app/admin/service/dept_service.py over `dept_dao` (backend/app/admin/crud/crud_dept.py)
-- and the users' departments. The table is the interface `Table`.
pub mod Valid
pub mod Steps
pub mod Cycle
use fbapy.Base.{
  ℕ, ◌≡◌, Bool, true, false, not, ◌&&◌, Option, none, some, List, [], ◌∷◌, ◌==◌, is_empty, map,
  keep, if◌then◌else◌,
}
use fbapy.Base.Text.{Text, text_eq, codes}
use fbapy.Base.Exec.{
  Exec, forbidden_error, not_found_error, conflict_error, pure, raise_if, or_raise, gets, modify,
  ◌>>=◌, ◌>>◌,
}
use fbapy.Conf.{jwt_user_redis_prefix}
use fbapy.Redis.{Server, delete_all}
use fbapy.Token.{user_key}
use fbapy.Table.{sent, Table, found}

pub record Dept : Type 0 where
  pub id : ℕ
  pub name : Text
  pub sort : ℕ
  pub leader : Option Text
  pub phone : Option Text
  pub email : Option Text
  pub status : ℕ
  pub del_flag : Bool
  pub parent_id : Option ℕ

abbrev pub dept_id : Dept → ℕ
dept_id d = d.id

-- `CreateDeptParam` and `UpdateDeptParam`
pub record DeptParam : Type 0 where
  pub name : Text
  pub parent_id : Option ℕ
  pub sort : ℕ
  pub leader : Option Text
  pub phone : Option Text
  pub email : Option Text
  pub status : ℕ

-- The row that `create_model` inserts, and what `update_model` makes of a row.
abbrev pub new_dept : DeptParam → ℕ → Dept
new_dept obj id = record {
  id = id;
  name = obj.name;
  sort = obj.sort;
  leader = obj.leader;
  phone = obj.phone;
  email = obj.email;
  status = obj.status;
  del_flag = false;
  parent_id = obj.parent_id;
}

abbrev pub updated : List Text → DeptParam → Dept → Dept
updated fields_set obj d = record d {
  name = obj.name;
  sort = sent fields_set (codes "sort") obj.sort d.sort;
  leader = sent fields_set (codes "leader") obj.leader d.leader;
  phone = sent fields_set (codes "phone") obj.phone d.phone;
  email = sent fields_set (codes "email") obj.email d.email;
  status = obj.status;
  parent_id = sent fields_set (codes "parent_id") obj.parent_id d.parent_id;
}

-- The conditions of the queries: `get`, `get_by_name`, `get_children`, and the primary key alone.
abbrev pub live_key : ℕ → Dept → Bool
live_key pk d = d.id == pk && not d.del_flag

abbrev pub live_name : Text → Dept → Bool
live_name name d = text_eq d.name name && not d.del_flag

abbrev pub is_key : ℕ → Dept → Bool
is_key pk d = d.id == pk

abbrev pub names_parent : ℕ → Option ℕ → Bool
names_parent pk none = false
names_parent pk (some p) = p == pk

abbrev pub live_child : ℕ → Dept → Bool
live_child pk d = names_parent pk d.parent_id && not d.del_flag

-- `dept.users`: the identifiers of the users, who are given with their department.
abbrev pub users_of : ℕ → List (ℕ × Option ℕ) → List ℕ
users_of pk users =
    map (λ (u : ℕ × Option ℕ). u.0) (keep (λ (u : ℕ × Option ℕ). names_parent pk u.1) users)

module _ (r : Server) (t : Table Dept dept_id) where
  pub record Store : Type 0 where
    pub redis : r.State
    pub depts : t.State
    pub users : List (ℕ × Option ℕ)

  -- `dept_dao.get`, `dept_dao.get_by_name` and the first row of `get_children`
  abbrev pub get_by : (Dept → Bool) → Store → Option Dept
  get_by p w = t.first p w.depts

  abbrev pub on_depts : (t.State → t.State) → Exec Store (Unit {0})
  on_depts f = modify (λ w. record w { depts = f w.depts })

  -- `if obj.parent_id is not None`, where a department is created
  abbrev pub new_parent_missing : Option ℕ → Store → Bool
  new_parent_missing none w = false
  new_parent_missing (some p) w = not (found (get_by (live_key p) w))

  -- `if obj.parent_id`, where one is updated: zero passes.
  abbrev pub parent_missing : Option ℕ → Store → Bool
  parent_missing none w = false
  parent_missing (some p) w = if p == 0 then false else not (found (get_by (live_key p) w))

  unfoldable pub get : ℕ → Exec Store Dept
  get pk w = or_raise (get_by (live_key pk) w) (not_found_error "部门不存在") w

  unfoldable pub create : DeptParam → Exec Store (Unit {0})
  create obj w =
      (do
        raise_if (found (get_by (live_name obj.name) w)) (conflict_error "部门名称已存在")
        raise_if (new_parent_missing obj.parent_id w) (not_found_error "父级部门不存在")
        on_depts (t.insert (new_dept obj)))
        w

  unfoldable pub update : ℕ → List Text → DeptParam → Exec Store (Unit {0})
  update pk fields_set obj w =
      (do
        dept ← get pk
        raise_if (not (text_eq dept.name obj.name) && found (get_by (live_name obj.name) w))
            (conflict_error "部门名称已存在")
        raise_if (parent_missing obj.parent_id w) (not_found_error "父级部门不存在")
        raise_if (names_parent dept.id obj.parent_id) (forbidden_error "禁止关联自身为父级")
        on_depts (t.update (is_key pk) (updated fields_set obj)))
        w

  -- `get_join` finds a department by its key, one that was deleted too. The keys of its users are
  -- deleted last, when there are none.
  unfoldable pub delete : ℕ → Exec Store (Unit {0})
  delete pk w =
      (do
        dept ← or_raise (get_by (is_key pk) w) (not_found_error "部门不存在")
        raise_if (not (is_empty (users_of pk w.users))) (conflict_error "部门下存在用户，无法删除")
        raise_if (found (get_by (live_child pk) w)) (conflict_error "部门下存在子部门，无法删除")
        on_depts (t.update (is_key pk) (λ d. record d { del_flag = true }))
        modify (λ s. record s {
          redis = delete_all r (map (user_key jwt_user_redis_prefix) (users_of pk w.users)) s.redis;
        }))
        w

  -- One call of the service, or a change of the users and of Redis elsewhere.
  pub data Step : Store → Store → Type 0 where
    create_step : (obj : DeptParam) (w : Store) → Step w (create obj w).1
    update_step :
        (pk : ℕ) (fields_set : List Text) (obj : DeptParam) (w : Store)
        → Step w (update pk fields_set obj w).1
    delete_step : (pk : ℕ) (w : Store) → Step w (delete pk w).1
    elsewhere_step :
        (redis : r.State) (users : List (ℕ × Option ℕ)) (w : Store)
        → Step w (record w { redis = redis; users = users })

  -- From a table without rows.
  pub data Reachable : Store → Type 0 where
    start : (w : Store) → t.rows w.depts ≡ [] → Reachable w
    step : (w v : Store) → Reachable w → Step w v → Reachable v
