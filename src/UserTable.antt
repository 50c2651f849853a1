-- ===== src/UserTable.antt =====
-- The tables behind `user_dao` and `user_password_history_dao` (backend/app/admin/crud/crud_user.py and
-- crud_user_password_history.py), as an interface with what a relational database promises for a
-- statement on one primary key.
use fbapy.Base.{ℕ, ◌≡◌, refl, Bool, Option, none, some, List, ◌∷◌, ◌==◌, if◌then◌else◌, keep}
use fbapy.Base.Text.{Text}

-- The columns of `sys_user` that the user service reads or writes.
pub record Member : Type 0 where
  pub id : ℕ
  pub nickname : Text
  pub avatar : Text
  pub email : Text
  pub password : Option Text
  pub status : ℕ
  pub is_superuser : Bool
  pub is_staff : Bool
  pub is_multi_login : Bool
  pub last_password_changed_time : Option ℕ

-- A row of `sys_user_password_history`.
pub record HistoryRow : Type 0 where
  pub user_id : ℕ
  pub password : Option Text

-- A statement on a row that may be missing.
abbrev pub changed : (Member → Member) → Option Member → Option Member
changed f none = none
changed f (some m) = some (f m)

-- `update_model` and `delete_model` also give the number of rows that they met. `get_by_user_id`
-- gives the rows of a user, the newest first.
pub record Tables : Type 1 where
  pub State : Type 0
  pub get : ℕ → State → Option Member
  pub update_model : ℕ → (Member → Member) → State → State
  pub delete_model : ℕ → State → State
  pub get_by_user_id : ℕ → State → List HistoryRow
  pub create_model : HistoryRow → State → State
  pub get-update_model :
      (pk : ℕ) (f : Member → Member) (s : State) (i : ℕ)
      → get i (update_model pk f s) ≡ (if pk == i then changed f (get i s) else get i s)
  pub get-delete_model :
      (pk : ℕ) (s : State) (i : ℕ) → get i (delete_model pk s) ≡ (if pk == i then none else get i s)
  pub get-create_model : (h : HistoryRow) (s : State) (i : ℕ) → get i (create_model h s) ≡ get i s
  pub get_by_user_id-create_model :
      (h : HistoryRow) (s : State) (i : ℕ)
      → get_by_user_id i (create_model h s)
        ≡ (if h.user_id == i then h ∷ get_by_user_id i s else get_by_user_id i s)
  pub get_by_user_id-update_model :
      (pk : ℕ) (f : Member → Member) (s : State) (i : ℕ)
      → get_by_user_id i (update_model pk f s) ≡ get_by_user_id i s

-- Tables as functions of the key, which show that the laws can be met. Tests run on them.
abbrev pub MapState : Type 0
MapState = (ℕ → Option Member) × List HistoryRow

abbrev pub map_tables : Tables
map_tables = record {
  State = MapState;
  get = λ i s. s.0 i;
  update_model = λ pk f s. ((λ i. if pk == i then changed f (s.0 i) else s.0 i), s.1);
  delete_model = λ pk s. ((λ i. if pk == i then none else s.0 i), s.1);
  get_by_user_id = λ i s. keep (λ (h : HistoryRow). h.user_id == i) s.1;
  create_model = λ h s. (s.0, h ∷ s.1);
  get-update_model = λ pk f s i. refl;
  get-delete_model = λ pk s i. refl;
  get-create_model = λ h s i. refl;
  get_by_user_id-create_model = λ h s i. refl;
  get_by_user_id-update_model = λ pk f s i. refl;
}
