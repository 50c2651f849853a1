-- ===== src/Accounts/Steps.antt =====
-- The tables of the users, of their departments and of their roles under `create` and `update`.
use fbapy.Base.{
  List, ℕ, ◌≡◌, refl, sym, ap, subst, ◌≢◌, inl, inr, true, false, not, ◌&&◌, Option, none, some, [],
  ◌∷◌, ◌==◌, In, In-append, keep-In, keep, is_empty, arith, Bool-cases, not-false,
}
use fbapy.Base.Text.{Text, text_eq}
use fbapy.Base.Exec.{or_raise-keeps, raise_if-keeps, bind-keeps}
use fbapy.Redis.{Server}
use fbapy.Table.{Table, found, found-true}
use fbapy.UserCache.{contains}
use fbapy.Dept.{Dept, dept_id, live_key}
use fbapy.Dept.Valid.{keyed_found}
use fbapy.Admin.{Keyed, RoleParam, Database, without_left, pairs_of}
use fbapy.Admin.Cleared.{pairs_of_iff}
use fbapy.Accounts.{
  Account, account_id, AddUserParam, UpdateUserParam, has_id, has_username, new_account, updated,
  same_dept, Store, get_user, dept_missing, new_dept_missing, role_missing, selected, insert_roles,
  create, update, Step, create_step, update_step, elsewhere_step, Reachable, start, step,
}
use fbapy.Accounts.Roles.{ids-In}
use fbapy.Accounts.Valid.{Inhabited, IsValid, IsValid-insert, IsValid-update}

same_dept-eq : (p : ℕ) (o : Option ℕ) → same_dept p o ≡ true → o ≡ some p
same_dept-eq p none h = absurd (cc)
same_dept-eq p (some q) h = (let e : p ≡ q = ground arith in ap some (sym e))

module _ (r : Server) (d : Database) (depts : Table Dept dept_id)
    (users : Table Account account_id) where
  abbrev Known : Store r d depts users → ℕ → Type 0
  Known w role = (row : Keyed RoleParam) × In row (d.role_table.rows w.roles) × (row.id ≡ role)

  -- The users are valid, and what a user has are roles.
  pub record IsSound (w : Store r d depts users) : Type 0 where
    pub valid : IsValid depts users w.departments w.accounts
    pub known : (user role : ℕ) → In (user, role) w.user_role → Known w role

  dept_there :
      (p : ℕ) (w : Store r d depts users)
      → dept_missing r d depts users p w ≡ false
      → Inhabited depts users w.departments p
  dept_there p w h =
      let (e, got) = found-true (depts.first (live_key p) w.departments) (not-false _ h) in
      let (live, same) = keyed_found depts w.departments p e got in (e, live, same)

  selected-Known :
      (ids : List ℕ) (w : Store r d depts users) (role : ℕ)
      → In role (selected r d depts users ids w)
      → Known w role
  selected-Known ids w role h =
      let named = λ (row : Keyed RoleParam). contains ids row.id in
      let (row, p, e) = (ids-In (keep named (d.role_table.rows w.roles)) role).0 h in
      (row, (keep-In named row (d.role_table.rows w.roles) p).0, e)

  insert_roles-IsSound :
      (user : ℕ) (ids : List ℕ) (w : Store r d depts users)
      → ((role : ℕ) → In role ids → Known w role)
      → IsSound w
      → IsSound (insert_roles r d depts users user ids w).1
  unfolding insert_roles
  insert_roles-IsSound user [] w there v = v
  insert_roles-IsSound user (i ∷ ids) w there v = record {
    valid = v.valid;
    known = λ u role h. (elim (In-append (u, role) w.user_role (pairs_of user (i ∷ ids)) h) [
      | inl old ↦ v.known u role old
      | inr new ↦ there role ((pairs_of_iff user (i ∷ ids) u role).0 new).1
    ]);
  }

  create-IsSound :
      (get_hash_password : Text → Text) (random : ℕ) (obj : AddUserParam)
      (w : Store r d depts users)
      → IsSound w
      → IsSound (create r d depts users get_hash_password random obj w).1
  unfolding create
  create-IsSound get_hash_password random obj w v =
      raise_if-keeps IsSound (found (get_user r d depts users (has_username obj.username) w)) _ _ w
        v
        λ free.
          (raise_if-keeps IsSound (is_empty obj.password) _ _ w v λ filled.
            (raise_if-keeps IsSound (dept_missing r d depts users obj.dept w) _ _ w v λ placed.
              (raise_if-keeps IsSound (role_missing r d depts users obj.roles w) _ _ w v λ there.
                (insert_roles-IsSound (users.key w.accounts) (selected r d depts users obj.roles w)
                  (record w {
                    accounts =
                        users.insert (new_account obj (get_hash_password obj.password) random)
                          w.accounts;
                  })
                  (selected-Known obj.roles w)
                  (record {
                    valid =
                        IsValid-insert depts users obj (get_hash_password obj.password) random
                          w.departments w.accounts free (dept_there obj.dept w placed) v.valid;
                    known = v.known;
                  })))))

  new_dept_there :
      (dept : Option ℕ) (user : Account) (w : Store r d depts users)
      → In user (users.rows w.accounts)
      → new_dept_missing r d depts users dept user w ≡ false
      → IsSound w
      → (p : ℕ) → dept ≡ some p
      → p ≢ 0
      → Inhabited depts users w.departments p
  new_dept_there none user w among h v p e nonzero = absurd (cc)
  new_dept_there (some q) user w among h v p e nonzero =
      let same : q ≡ p = cc in
      let counted : (q == 0) ≡ false = ground arith in
      subst (Inhabited depts users w.departments) same (elim (Bool-cases (same_dept q user.dept)) [
        | inl kept ↦ v.valid.placed user among q (same_dept-eq q user.dept kept) (ground arith)
        | inr moved ↦ dept_there q w (rw (counted, moved) at h)
      ])

  without_left-Known :
      (pk : ℕ) (w : Store r d depts users)
      → IsSound w
      → (user role : ℕ) → In (user, role) (without_left pk w.user_role)
      → Known w role
  without_left-Known pk w v user role h =
      v.known user role (keep-In (λ (p : ℕ × ℕ). not (p.0 == pk)) (user, role) w.user_role h).0

  update-IsSound :
      (pk : ℕ) (fields_set : List Text) (obj : UpdateUserParam) (w : Store r d depts users)
      → IsSound w
      → IsSound (update r d depts users pk fields_set obj w).1
  unfolding update
  update-IsSound pk fields_set obj w v =
      or_raise-keeps IsSound (get_user r d depts users (has_id pk) w) _ _ w v λ user got.
        (raise_if-keeps IsSound
          (not (text_eq obj.username user.username)
            && found (get_user r d depts users (has_username obj.username) w))
          _ _ w v
          λ free.
            (raise_if-keeps IsSound (new_dept_missing r d depts users obj.dept user w) _ _ w v
              λ placed.
                (raise_if-keeps IsSound (role_missing r d depts users obj.roles w) _ _ w v λ there.
                  (let among = (users.first-some (has_id pk) w.accounts user got).0 in
                    let changed : Store r d depts users = record w {
                      accounts = users.update (has_id user.id) (updated fields_set obj) w.accounts;
                      user_role = without_left user.id w.user_role;
                    } in
                    bind-keeps IsSound
                      (insert_roles r d depts users user.id (selected r d depts users obj.roles w))
                      _ changed
                      (insert_roles-IsSound user.id (selected r d depts users obj.roles w) changed
                        (selected-Known obj.roles w)
                        (record {
                          valid =
                              IsValid-update depts users user.id fields_set obj w.accounts user
                                w.departments among refl free
                                (new_dept_there obj.dept user w among placed v) v.valid;
                          known = without_left-Known user.id w v;
                        }))
                      (λ _ t sound. record { valid = sound.valid; known = sound.known })))))

  Step-IsSound : (w v : Store r d depts users) → Step r d depts users w v → IsSound w → IsSound v
  Step-IsSound _ _ (create_step get_hash_password random obj w) =
      create-IsSound get_hash_password random obj w
  Step-IsSound _ _ (update_step pk fields_set obj w) = update-IsSound pk fields_set obj w
  Step-IsSound _ _ (elsewhere_step redis w) = λ v. record { valid = v.valid; known = v.known }

  -- Whatever calls of `create` and `update` have been made since there were no users, also refused ones: no two users
  -- share a username, the department of a user is none, 0 or one that is not deleted, and what the users
  -- have as roles are roles.
  pub accounts-IsSound : (w : Store r d depts users) → Reachable r d depts users w → IsSound w
  accounts-IsSound w (start _ e e') = record {
    valid = record {
      names = λ a b p q. absurd (subst (In a) e p);
      placed = λ a p. absurd (subst (In a) e p);
    };
    known = λ u role h. absurd (subst (In (u, role)) e' h);
  }
  accounts-IsSound _ (step w v h s) = Step-IsSound w v s (accounts-IsSound w h)
