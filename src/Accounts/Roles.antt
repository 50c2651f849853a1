-- ===== src/Accounts/Roles.antt =====
-- The rows of `user_role` that `UserService.update` of backend/app/admin/service/user_service.py leaves.
use fbapy.Base.{
  ℕ, ◌≡◌, refl, sym, ap, subst, ◌∙◌, ◌≢◌, ◌⊎◌, inl, inr, ◌↔◌, true, false, not, ◌&&◌, none, List,
  [], ◌∷◌, ◌++◌, ◌==◌, In, In-keep, keep-In, all-In, map, keep, arith, Bool-cases, append-nil,
  not-false, if_true,
}
use fbapy.Base.Text.{Text, text_eq, text_eq_self}
use fbapy.Base.Exec.{Result, ok, not_found_error, or_raise-bind-ok, raise_if-bind-ok, bind-ok}
use fbapy.Conf.{jwt_user_redis_prefix}
use fbapy.Redis.{Server}
use fbapy.Token.{user_key}
use fbapy.Table.{Table, found, found-true}
use fbapy.UserCache.{contains}
use fbapy.Dept.{Dept, dept_id}
use fbapy.Admin.{Keyed, RoleParam, Database, is_key, without_left, pairs_of}
use fbapy.Admin.Cleared.{replaced_iff}
use fbapy.Accounts.{
  Account, account_id, UpdateUserParam, has_id, has_username, get_user, new_dept_missing, updated,
  Store, role_missing, selected, insert_roles, update,
}

pub contains_iff : (ids : List ℕ) (id : ℕ) → (contains ids id ≡ true) ↔ In id ids
contains_iff [] id = (λ h. absurd (cc), λ h. absurd h)
contains_iff (i ∷ ids) id =
    let ih = contains_iff ids id in
    elim (Bool-cases (i == id)) [
      | inl same ↦ (λ h. inl (ground arith), λ h. rw same refl)
      | inr other ↦ (
        λ h. inr (ih.0 (rw other at h)),
        λ h. (elim h [ inl e ↦ absurd (ground arith) | inr p ↦ rw other (ih.1 p) ]),
      )
    ]

pub ids-In :
    (rows : List (Keyed RoleParam)) (id : ℕ)
    → In id (map (λ (row : Keyed RoleParam). row.id) rows)
      ↔ ((row : Keyed RoleParam) × In row rows × (row.id ≡ id))
ids-In [] id = (λ h. absurd h, λ p. absurd p.1)
ids-In (x ∷ rows) id =
    let ih = ids-In rows id in
    (
      λ h. (elim h [
        | inl e ↦ (x, inl refl, sym e)
        | inr p ↦ (let (row, q, e) = ih.0 p in (row, inr q, e))
      ]),
      λ (row, p, e). (elim p [
        | inl same ↦ inl (sym e ∙ ap (λ (y : Keyed RoleParam). y.id) same)
        | inr q ↦ inr (ih.1 (row, q, e))
      ]),
    )

module _ (r : Server) (d : Database) (depts : Table Dept dept_id)
    (users : Table Account account_id) where
  -- If every role exists, those that are selected are those that are named.
  pub selected_iff :
      (ids : List ℕ) (w : Store r d depts users)
      → role_missing r d depts users ids w ≡ false
      → (id : ℕ) → In id (selected r d depts users ids w) ↔ In id ids
  selected_iff ids w there id =
      let named = λ (row : Keyed RoleParam). contains ids row.id in
      let listed = ids-In (keep named (d.role_table.rows w.roles)) id in
      (
        λ h.
            (let (row, p, e) = listed.0 h in
              subst (λ x. In x ids) e
                ((contains_iff ids row.id).0 (keep-In named row (d.role_table.rows w.roles) p).1)),
        λ h.
            (let here =
                all-In (λ (i : ℕ). found (d.role_table.first (is_key i) w.roles)) id ids
                  (not-false _ there) h in
              let (row, got) = found-true (d.role_table.first (is_key id) w.roles) here in
              let (among, keyed) = d.role_table.first-some (is_key id) w.roles row got in
              let e : row.id ≡ id = ground arith in
              listed.1 (
                row,
                In-keep named row (d.role_table.rows w.roles) among
                    ((contains_iff ids row.id).1 (subst (λ x. In x ids) (sym e) h)),
                e,
              )),
      )

  inserted :
      (user : ℕ) (ids : List ℕ) (w after : Store r d depts users)
      → insert_roles r d depts users user ids w ≡ (ok tt, after)
      → (after.user_role ≡ w.user_role ++ pairs_of user ids) × (after.redis ≡ w.redis)
  unfolding insert_roles
  inserted user [] w after h =
      let e = ap (λ x. x.1) h in
      (
        sym (ap (λ (x : Store r d depts users). x.user_role) e) ∙ sym (append-nil w.user_role),
        sym (ap (λ (x : Store r d depts users). x.redis) e),
      )
  inserted user (i ∷ ids) w after h =
      let e = ap (λ x. x.1) h in
      (
        sym (ap (λ (x : Store r d depts users). x.user_role) e),
        sym (ap (λ (x : Store r d depts users). x.redis) e),
      )

  -- If the update of a user succeeds: the user has the named roles and no others, all other users keep
  -- theirs, and the user is not cached.
  pub update_roles :
      (pk : ℕ) (fields_set : List Text) (obj : UpdateUserParam) (w after : Store r d depts users)
      → update r d depts users pk fields_set obj w ≡ (ok tt, after)
      → ((user role : ℕ)
          → In (user, role) after.user_role
            ↔ (((user ≡ pk) × In role obj.roles) ⊎ ((user ≢ pk) × In (user, role) w.user_role)))
        × (r.get after.redis (user_key jwt_user_redis_prefix pk) ≡ none)
  unfolding update
  update_roles pk fields_set obj w after h =
      let (user, got, h₁) =
        or_raise-bind-ok (users.first (has_id pk) w.accounts) (not_found_error "用户不存在") _ w h in
      let keyed = (users.first-some (has_id pk) w.accounts user got).1 in
      let key : user.id ≡ pk = ground arith in
      let (_, h₂) =
        raise_if-bind-ok
          (not (text_eq obj.username user.username)
            && found (get_user r d depts users (has_username obj.username) w))
          _ _ w h₁ in
      let (_, h₃) = raise_if-bind-ok (new_dept_missing r d depts users obj.dept user w) _ _ w h₂ in
      let (there, h₄) = raise_if-bind-ok (role_missing r d depts users obj.roles w) _ _ w h₃ in
      let (_, w₂, grown, h₅) =
        bind-ok (insert_roles r d depts users user.id (selected r d depts users obj.roles w)) _
          (record w {
            accounts = users.update (has_id user.id) (updated fields_set obj) w.accounts;
            user_role = without_left user.id w.user_role;
          })
          h₄ in
      let (pairs, redis) = inserted user.id (selected r d depts users obj.roles w) _ w₂ grown in
      let e = ap (λ (x : Result (Unit {0}) × Store r d depts users). x.1) h₅ in
      let named = selected_iff obj.roles w there in
      let rows : after.user_role
          ≡ without_left pk w.user_role ++ pairs_of pk (selected r d depts users obj.roles w) =
        sym (ap (λ (x : Store r d depts users). x.user_role) e)
        ∙ pairs
        ∙ ap (λ i. without_left i w.user_role ++ pairs_of i (selected r d depts users obj.roles w))
            key in
      let cached : after.redis ≡ r.delete (user_key jwt_user_redis_prefix pk) w₂.redis =
        sym (ap (λ (x : Store r d depts users). x.redis) e)
        ∙ ap (λ i. r.delete (user_key jwt_user_redis_prefix i) w₂.redis) key in
      (
        λ a role.
            (let base = replaced_iff pk (selected r d depts users obj.roles w) w.user_role a role in
              (
                λ x. (elim (base.0 (subst (In (a, role)) rows x)) [
                  | inl (same, p) ↦ inl (same, (named role).0 p)
                  | inr other ↦ inr other
                ]),
                λ y. subst (In (a, role)) (sym rows) (
                    base.1 (elim y [
                      | inl (same, p) ↦ inl (same, (named role).1 p)
                      | inr other ↦ inr other
                    ])),
              )),
        ap (λ s. r.get s (user_key jwt_user_redis_prefix pk)) cached
            ∙ (r.get-delete (user_key jwt_user_redis_prefix pk) w₂.redis
                  (user_key jwt_user_redis_prefix pk)
                ∙ if_true none (r.get w₂.redis (user_key jwt_user_redis_prefix pk))
                    (text_eq_self (user_key jwt_user_redis_prefix pk))),
      )
