-- ===== src/DataPermission.antt =====
-- `filter_data_permission` of backend/common/security/permission.py: the condition on the rows that a user
-- may see. A `ColumnElement` is kept as the tests it is put together from; what a test says of a row is the
-- database's. The iteration order of the set of rules is a parameter.
pub mod Collected
pub mod Visible
use fbapy.Base.{
  ℕ, ◌≡◌, ◌↔◌, Bool, true, false, not, ◌&&◌, ◌||◌, Option, none, some, List, [], ◌∷◌, ◌++◌, ◌==◌,
  leb, if◌then◌else◌, any, all, is_empty, map, In,
}
use fbapy.Base.Text.{Text, text_eq, split_on, strip}

-- `RoleDataRuleOperatorType` and `RoleDataRuleExpressionType`
pub data Operator : Type 0 where
  conjunction disjunction : Operator

pub data Expression : Type 0 where
  eq ne gt ge lt le among not_among : Expression

pub record DataRule : Type 0 where
  pub id : ℕ
  pub model : Text
  pub column : Text
  pub operator : Operator
  pub expression : Expression
  pub value : Text

pub record DataScope : Type 0 where
  pub status : ℕ
  pub rules : List DataRule

pub record ScopedRole : Type 0 where
  pub is_filter_scopes : Bool
  pub scopes : List DataScope

-- A value of a rule, as the text it was given or as the column's type made of it.
pub data Value (V : Type 0) : Type 0 where
  raw : Text → Value V
  converted : V → Value V

-- `python_type` of a column: whether it is `str`, and what it makes of a text, `none` for a `ValueError` or
-- a `TypeError`.
pub record Column (V : Type 0) : Type 0 where
  pub key : Text
  pub is_str : Bool
  pub convert : Text → Option V

pub record Model (V : Type 0) : Type 0 where
  pub name : Text
  pub columns : List (Column V)

-- A test of one column of one model, `column_obj`.
pub record Test (V : Type 0) : Type 0 where
  pub target : Model V
  pub column : Column V
  pub expression : Expression
  pub values : List (Value V)

pub data Clause (V : Type 0) : Type 0 where
  and_of or_of : List (Test V) → Clause V

-- `or_(1 == 1)`, or the disjunction of the clauses
pub data Filter (V : Type 0) : Type 0 where
  everything : Filter V
  or_clauses : List (Clause V) → Filter V

module _ {V : Type 0} where
  unfoldable pub cast_value : Column V → Text → Value V
  cast_value column value =
      if column.is_str
      then raw value
      else elim (column.convert value) [ none ↦ raw value | some v ↦ converted v ]

  -- The values that the column is compared with: for `in` and `not in`, the parts between the commas.
  abbrev pub rule_values : Column V → Expression → Text → List (Value V)
  rule_values column expression value = elim expression [
    | Expression.among ↦ map (λ v. cast_value column (strip v)) (split_on 44 value)
    | Expression.not_among ↦ map (λ v. cast_value column (strip v)) (split_on 44 value)
    | _ ↦ cast_value column value ∷ []
  ]

  -- `model_map.get(name)`: of two models of one name the later stays in the dict.
  unfoldable pub find_model : Text → List (Model V) → Option (Model V)
  find_model name [] = none
  find_model name (m ∷ ms) = elim (find_model name ms) [
    | some later ↦ some later
    | none ↦ if text_eq m.name name then some m else none
  ]

  unfoldable pub find_column : Text → List (Column V) → Option (Column V)
  find_column key [] = none
  find_column key (c ∷ cs) =
      let rest = find_column key cs in if text_eq c.key key then some c else rest

  -- The condition of one rule; `none` where the loop continues with the next rule.
  abbrev pub column_condition : List Text → DataRule → Model V → Option (Column V) → Option (Test V)
  column_condition excluded rule target none = none
  column_condition excluded rule target (some column) =
      if any (text_eq rule.column) excluded
      then none
      else some (record {
        target = target;
        column = column;
        expression = rule.expression;
        values = rule_values column rule.expression rule.value;
      })

  abbrev pub model_condition : List Text → DataRule → Option (Model V) → Option (Test V)
  model_condition excluded rule none = none
  model_condition excluded rule (some target) =
      column_condition excluded rule target (find_column rule.column target.columns)

  unfoldable pub condition : List Text → List (Model V) → DataRule → Option (Test V)
  condition excluded models rule = model_condition excluded rule (find_model rule.model models)

  -- `where_and_list` and `where_or_list` gain the condition at their end, so the rules that follow come
  -- behind it.
  abbrev pub append_condition :
      Operator → Option (Test V) → List (Test V) × List (Test V) → List (Test V) × List (Test V)
  append_condition operator none lists = lists
  append_condition Operator.conjunction (some test) (ands, ors) = (test ∷ ands, ors)
  append_condition Operator.disjunction (some test) (ands, ors) = (ands, test ∷ ors)

  unfoldable pub conditions :
      List Text → List (Model V) → List DataRule → List (Test V) × List (Test V)
  conditions excluded models [] = ([], [])
  conditions excluded models (rule ∷ rules) =
      append_condition rule.operator (condition excluded models rule)
        (conditions excluded models rules)

  abbrev pub where_list : List (Test V) → List (Test V) → List (Clause V)
  where_list ands ors =
      (if is_empty ands then [] else and_of ands ∷ [])
      ++ (if is_empty ors then [] else or_of ors ∷ [])

  abbrev pub or_all : List (Clause V) → Filter V
  or_all [] = everything
  or_all (clause ∷ clauses) = or_clauses (clause ∷ clauses)

-- `data_rules.update(scope.rules)` for the enabled scopes of the roles.
unfoldable pub scope_rules : List DataScope → List DataRule
scope_rules [] = []
scope_rules (scope ∷ scopes) =
    let rest = scope_rules scopes in if scope.status == 0 then rest else scope.rules ++ rest

unfoldable pub data_rules : List ScopedRole → List DataRule
data_rules [] = []
data_rules (role ∷ roles) = scope_rules role.scopes ++ data_rules roles

-- The order in which a set gives its members: each of them, and nothing else.
pub record SetOrder : Type 0 where
  pub members : List DataRule → List DataRule
  pub In-members :
      (rule : DataRule) (rules : List DataRule) → In rule (members rules) ↔ In rule rules

pub record Scoped (V : Type 0) : Type 0 where
  -- `DATA_PERMISSION_COLUMN_EXCLUDE`, and `get_data_permission_models()`
  pub excluded : List Text
  pub all_models : List (Model V)

module _ {V : Type 0} where
  abbrev pub model_map : Scoped V → List (Model V) → List (Model V)
  model_map settings models = if is_empty models then settings.all_models else models

  unfoldable pub filter_data_permission :
      SetOrder → Scoped V → Bool → List ScopedRole → List (Model V) → Filter V
  filter_data_permission order settings is_superuser roles models =
      if is_superuser
      then everything
      else if any (λ (role : ScopedRole). not role.is_filter_scopes) roles
      then everything
      else if is_empty (order.members (data_rules roles))
      then everything
      else (let (ands, ors) =
            conditions settings.excluded (model_map settings models)
              (order.members (data_rules roles)) in
          or_all (where_list ands ors))
