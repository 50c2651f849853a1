-- ===== src/Tests/Departments.antt =====
-- Tests of the departments, and of the trees.
use fbapy.Base.{◌≡◌, ℕ, refl, inl, inr, false, none, some, [], ◌∷◌}
use fbapy.Base.Text.{Text, codes}
use fbapy.Redis.Table.{table_server}
use fbapy.Table.Rows.{list_table}
use fbapy.Tree.{Node, traversal_to_tree}
use fbapy.Tree.Cycle.{Listed, traversal_to_tree-Listed}
use fbapy.Dept.{
  Dept, DeptParam, dept_id, Store, create, update, get, start, step, create_step, update_step,
}
use fbapy.Dept.Valid.{IsValid}
use fbapy.Dept.Steps.{departments-IsValid}

abbrev dept : ℕ → Text → Dept
dept i name = record {
  id = i;
  name = name;
  sort = 0;
  leader = none;
  phone = none;
  email = none;
  status = 1;
  del_flag = false;
  parent_id = none;
}

abbrev root_param : DeptParam
root_param = record {
  name = codes "a";
  parent_id = none;
  sort = 0;
  leader = some (codes "l");
  phone = none;
  email = none;
  status = 1;
}

abbrev child_param : DeptParam
child_param = record root_param { name = codes "b"; parent_id = some 1 }

abbrev renamed_param : DeptParam
renamed_param = record root_param { name = codes "c"; leader = none }

abbrev no_depts : Store table_server (list_table dept_id)
no_depts = record { redis = []; depts = []; users = [] }

abbrev rooted : Store table_server (list_table dept_id)
rooted = (create table_server (list_table dept_id) root_param no_depts).1

abbrev grown : Store table_server (list_table dept_id)
grown = (create table_server (list_table dept_id) child_param rooted).1

-- A new name for the child, in a request without its parent and its leader.
abbrev renamed : Store table_server (list_table dept_id)
renamed = (update table_server (list_table dept_id) 2 [] renamed_param grown).1

-- Two departments, the one below the other, which the update has left where it is.
renamed_depts :
    renamed.depts
    ≡ record (dept 2 (codes "c")) { leader = some (codes "l"); parent_id = some 1 }
      ∷ record (dept 1 (codes "a")) { leader = some (codes "l") }
      ∷ []
unfolding create update get
renamed_depts = refl

departments-IsValid_example : IsValid (list_table dept_id) renamed.depts
departments-IsValid_example = departments-IsValid table_server (list_table dept_id) renamed (
    step grown _
      (step rooted _ (step no_depts _ (start no_depts refl) (create_step root_param no_depts))
        (create_step child_param rooted))
      (update_step 2 [] renamed_param grown))

abbrev node : ℕ → ℕ → Node
node i p = record { id = i; parent_id = some p; sort = 0 }

traversal_to_tree-Listed_example :
    (Listed (traversal_to_tree (node 1 2 ∷ node 2 1 ∷ [])) 1 → ⊥)
    × (Listed (traversal_to_tree (node 1 2 ∷ node 2 1 ∷ [])) 2 → ⊥)
traversal_to_tree-Listed_example =
    traversal_to_tree-Listed (node 1 2 ∷ node 2 1 ∷ []) ((refl, tt), (tt, tt)) (node 1 2) (node 2 1)
      (inl refl) (inr (inl refl)) refl refl
