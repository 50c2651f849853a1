-- ===== src/Tests/Scopes.antt =====
-- Tests of the data permissions.
use fbapy.Base.{ℕ, ◌≡◌, refl, ◌↔◌, Bool, true, false, none, List, [], ◌∷◌}
use fbapy.Base.Text.{codes}
use fbapy.DataPermission.{
  Operator, Expression, DataRule, ScopedRole, Column, Test, SetOrder, Scoped,
  filter_data_permission,
}
use fbapy.DataPermission.Visible.{admits, Shown, filter_data_permission_lem}

abbrev same_order : SetOrder
same_order = record { members = λ rules. rules; In-members = λ rule rules. (λ h. h, λ h. h) }

abbrev rule : DataRule
rule = record {
  id = 1;
  model = codes "Dept";
  column = codes "name";
  operator = Operator.conjunction;
  expression = Expression.eq;
  value = codes "x";
}

abbrev roles : List ScopedRole
roles =
    record { is_filter_scopes = true; scopes = record { status = 1; rules = rule ∷ [] } ∷ [] } ∷ []

abbrev name_column : Column ℕ
name_column = record { key = codes "name"; is_str = true; convert = λ t. none }

abbrev settings : Scoped ℕ
settings = record {
  excluded = codes "id" ∷ [];
  all_models = record { name = codes "Dept"; columns = name_column ∷ [] } ∷ [];
}

abbrev every_test : Test ℕ → Bool
every_test test = true

filter_data_permission_lem_example :
    (admits every_test (filter_data_permission same_order settings false roles []) ≡ true)
    ↔ Shown every_test settings roles []
filter_data_permission_lem_example =
    filter_data_permission_lem every_test settings roles [] same_order refl
