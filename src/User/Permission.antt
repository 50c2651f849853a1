-- ===== src/User/Permission.antt =====
-- What `update_permission` writes.
use fbapy.Base.{
  ℕ, ◌≡◌, refl, sym, ap, ◌∙◌, ◌≢◌, not, some, ◌==◌, if◌then◌else◌, arith, Bool-cases, inl, inr, ◌⊎◌,
  ==_self, ne→==,
}
use mathlib.Core.Bool.{not-not}
use fbapy.Base.Text.{Text}
use fbapy.Base.Exec.{Result, ok}
use fbapy.Redis.{Server}
use fbapy.Token.{Jose, TokenPayload, jwt_decode}
use fbapy.UserTable.{Member, Tables, changed}
use fbapy.User.{
  Store, UserPermissionType, superuser, staff, status, multi_login, switch_super, switch_staff,
  switch_status, change_other, change_multi_login, clear_sessions, update_permission,
}

module _ (r : Server) (t : Tables) (j : Jose) (now : ℕ) (request_user : Member)
    (token : Result Text) where
  abbrev run : ℕ → UserPermissionType → Store r t → Result (Unit {0}) × Store r t
  run pk type = update_permission r t j now request_user token pk type

  -- What the three flags do to the row.
  abbrev switch : UserPermissionType → Member → Member
  switch superuser = switch_super r t j
  switch staff = switch_staff r t j
  switch status = switch_status r t j
  switch multi_login = λ m. m

  update_permission_runs :
      (pk : ℕ) (type : UserPermissionType) (user : Member) (w : Store r t)
      → type ≢ multi_login
      → pk ≢ request_user.id
      → t.get pk w.tables ≡ some user
      → let (result, w') = run pk type w in
        (result ≡ ok tt) × (w'.tables ≡ t.update_model pk (switch type) w.tables)
  unfolding update_permission change_other
  update_permission_runs pk superuser user w one other found =
      rw (found, ne→== pk request_user.id other) (refl, refl)
  update_permission_runs pk staff user w one other found =
      rw (found, ne→== pk request_user.id other) (refl, refl)
  update_permission_runs pk status user w one other found =
      rw (found, ne→== pk request_user.id other) (refl, refl)
  update_permission_runs pk multi_login user w one other found = absurd (one refl)

  get-update_permission :
      (pk : ℕ) (type : UserPermissionType) (user : Member) (w : Store r t) (i : ℕ)
      → type ≢ multi_login
      → pk ≢ request_user.id
      → t.get pk w.tables ≡ some user
      → t.get i (run pk type w).1.tables
        ≡ (if pk == i then changed (switch type) (t.get i w.tables) else t.get i w.tables)
  get-update_permission pk type user w i one other found =
      ap (t.get i) (update_permission_runs pk type user w one other found).1
      ∙ t.get-update_model pk (switch type) w.tables i

  status_twice : (n : ℕ) → n ≡ 0 ⊎ n ≡ 1 → (if (if n == 1 then 0 else 1) == 1 then 0 else 1) ≡ n
  status_twice n (inl e) = rw e refl
  status_twice n (inr e) = rw e refl

  switch_twice :
      (type : UserPermissionType) (user : Member)
      → user.status ≡ 0 ⊎ user.status ≡ 1
      → switch type (switch type user) ≡ user
  switch_twice superuser user h =
      ap (λ b. record user { is_superuser = b }) (not-not user.is_superuser)
  switch_twice staff user h = ap (λ b. record user { is_staff = b }) (not-not user.is_staff)
  switch_twice status user h = ap (λ n. record user { status = n }) (status_twice user.status h)
  switch_twice multi_login user h = refl

  -- A flag of another user that is switched twice is as it was: the row of the user, with a status of
  -- zero or one, and every other row come back.
  update_permission_twice :
      (pk : ℕ) (type : UserPermissionType) (user : Member) (w : Store r t) (i : ℕ)
      → type ≢ multi_login
      → pk ≢ request_user.id
      → t.get pk w.tables ≡ some user
      → user.status ≡ 0 ⊎ user.status ≡ 1
      → let w' = (run pk type w).1 in t.get i (run pk type w').1.tables ≡ t.get i w.tables
  update_permission_twice pk type user w i one other found status01 =
      let w' = (run pk type w).1 in
      let once = get-update_permission pk type user w pk one other found in
      let found' : t.get pk w'.tables ≡ some (switch type user) =
        once ∙ rw (==_self pk, found) refl in
      get-update_permission pk type (switch type user) w' i one other found'
      ∙ elim (Bool-cases (pk == i)) [
        | inl same ↦
            let here : pk ≡ i = ground arith in
            rw same (
              ap (changed (switch type)) (ap (λ k. t.get k w'.tables) (sym here) ∙ found')
              ∙ ap some (switch_twice type user status01)
              ∙ sym found
              ∙ ap (λ k. t.get k w.tables) here)
        | inr different ↦
            rw different
              (get-update_permission pk type user w i one other found ∙ rw different refl)
      ]

  -- The row that was read as `pk` has that `id`, so the flag is that of the request's user.
  multi_login_runs :
      (pk : ℕ) (found_token : Text) (p : TokenPayload) (user : Member) (w : Store r t)
      → t.get pk w.tables ≡ some user
      → user.id ≡ pk
      → token ≡ ok found_token
      → jwt_decode j now found_token ≡ ok p
      → let (result, w') = run pk multi_login w in
        (result ≡ ok tt)
        × (w'.tables
            ≡ t.update_model pk
                (λ m. record m { is_multi_login = not request_user.is_multi_login })
                w.tables)
  unfolding update_permission change_multi_login clear_sessions
  multi_login_runs pk found_token p user w found id sent decoded =
      elim (Bool-cases request_user.is_multi_login) [
        | inl many ↦ rw (found, id, ==_self pk, many, sent, decoded) (refl, refl)
        | inr single ↦ rw (found, id, ==_self pk, single, sent, decoded) (refl, refl)
      ]

  switched :
      (pk : ℕ) (user : Member) (s : t.State)
      → t.get pk s ≡ some user
      → t.get pk
          (t.update_model pk (λ m. record m { is_multi_login = not request_user.is_multi_login }) s)
        ≡ some (record user { is_multi_login = not request_user.is_multi_login })
  switched pk user s found = rw (t.get-update_model _ _ _ pk, ==_self pk, found)

  -- With a token that decodes, switching the login on several devices of the user `pk` returns and
  -- sets the flag to the negation of the flag of the caller, whatever the flag of `pk` was.
  update_permission_multi_login :
      (pk : ℕ) (found_token : Text) (p : TokenPayload) (user : Member) (w : Store r t)
      → t.get pk w.tables ≡ some user
      → user.id ≡ pk
      → token ≡ ok found_token
      → jwt_decode j now found_token ≡ ok p
      → let (result, w') = run pk multi_login w in
        (result ≡ ok tt)
        × (t.get pk w'.tables
            ≡ some (record user { is_multi_login = not request_user.is_multi_login }))
  update_permission_multi_login pk found_token p user w found id sent decoded =
      let (done, tables) = multi_login_runs pk found_token p user w found id sent decoded in
      (done, ap (t.get pk) tables ∙ switched pk user w.tables found)
