-- ===== src/Rbac/Grants.antt =====
-- What `rbac_verify` grants, and to whom.
use fbapy.Base.{
  ℕ, ◌≡◌, refl, sym, ◌≢◌, ◌⊎◌, inl, inr, Bool, true, false, not, ◌&&◌, ◌||◌, Option, none, some,
  List, [], ◌∷◌, ◌++◌, if◌then◌else◌, any, all, is_empty, ltb, length, arith, In, map, Bool-cases,
}
use fbapy.Base.Text.{Text, text_eq, text_eq→eq, codes}
use fbapy.Base.Exec.{Result, Error, ok, err, authorization_error}
use fbapy.Rbac.{
  Menu, Role, Request, RbacSettings, contains, put, put_all, unique_menus, menu_perms, allow_perms,
  menu_check, permission_check, plugin_check, user_check, is_excluded, rbac_verify, role_is_zero,
}

contains-append :
    (xs ys : List Text) (x : Text)
    → contains (xs ++ ys) x ≡ true
    → (contains xs x ≡ true) ⊎ (contains ys x ≡ true)
contains-append [] ys x h = inr h
contains-append (y ∷ xs) ys x h = ground (arith, contains-append xs ys x)

put-In : (x m : Menu) (d : List Menu) → In x (put m d) → (x ≡ m) ⊎ In x d
unfolding put
put-In x m [] (inl e) = inl e
put-In x m [] (inr h) = absurd h
put-In x m (y ∷ d) h = ground (arith, put-In x m d)

put_all-In : (x : Menu) (ms d : List Menu) → In x (put_all ms d) → In x ms ⊎ In x d
unfolding put_all
put_all-In x [] d h = inr h
put_all-In x (m ∷ ms) d h = elim (put_all-In x ms (put m d) h) [
  | inl p ↦ inl (inr p)
  | inr p ↦ elim (put-In x m d p) [ inl e ↦ inl (inl e) | inr q ↦ inr q ]
]

-- The menu belongs to one of the roles.
abbrev pub Assigned : Menu → List Role → Type 0
Assigned menu roles = (role : Role) × In role roles × In menu role.menus

unique_menus-Assigned :
    (x : Menu) (roles : List Role) (d : List Menu)
    → In x (unique_menus roles d)
    → Assigned x roles ⊎ In x d
unfolding unique_menus
unique_menus-Assigned x [] d h = inr h
unique_menus-Assigned x (role ∷ roles) d h =
    elim (unique_menus-Assigned x roles (put_all role.menus d) h) [
      | inl (other, among, p) ↦ inl (other, inr among, p)
      | inr p ↦ elim (put_all-In x role.menus d p) [
        | inl q ↦ inl (role, inl refl, q)
        | inr q ↦ inr q
      ]
    ]

allow_perms-In :
    (menus : List Menu) (perm : Text)
    → contains (allow_perms menus) perm ≡ true
    → (menu : Menu) × In menu menus × (contains (menu_perms menu) perm ≡ true)
unfolding allow_perms
allow_perms-In [] perm h = cc
allow_perms-In (menu ∷ menus) perm h =
    elim (contains-append (menu_perms menu) (allow_perms menus) perm h) [
      | inl p ↦ (menu, inl refl, p)
      | inr p ↦ let (found, among, q) = allow_perms-In menus perm p in (found, inr among, q)
    ]

-- A condition of a chain of refusals that ended in a grant.
granted :
    (b : Bool) (e : Result (Unit {0})) (m : Result (Unit {0}))
    → e ≢ ok tt
    → (if b then e else m) ≡ ok tt
    → (b ≡ false) × (m ≡ ok tt)
granted true e m refused h = absurd (refused h)
granted false e m refused h = (refl, h)

both_methods :
    (method : Text)
    → (not (text_eq method (codes "GET")) || not (text_eq method (codes "OPTIONS"))) ≡ true
both_methods method = elim (Bool-cases (text_eq method (codes "GET"))) [
  | inl get ↦ rw (text_eq→eq method (codes "GET") get) refl
  | inr other ↦ rw other refl
]

abbrev grant : Result (Unit {0})
grant = ok tt

refused : {e : Error} → err e ≢ grant
refused h = cc

staff_of : (b c : Bool) → c ≡ true → (c && not b) ≡ false → b ≡ true
staff_of true c p h = refl
staff_of false c p h = ground arith

held :
    (b : Bool)
    → (if b then grant else err (authorization_error "Permission Denied")) ≡ ok tt
    → b ≡ true
held true h = refl
held false h = absurd (refused h)

true_is_not_false : true ≡ false → ⊥
true_is_not_false h = cc

not_taken :
    (b : Bool) (m n : Result (Unit {0})) → b ≡ false → (if b then m else n) ≡ grant → n ≡ grant
not_taken true m n e h = absurd (true_is_not_false e)
not_taken false m n e h = h

taken : (b : Bool) (m n : Result (Unit {0})) → b ≡ true → (if b then m else n) ≡ grant → m ≡ grant
taken true m n e h = h
taken false m n e h = absurd (true_is_not_false (sym e))

module _ (settings : RbacSettings) (request : Request) where
  -- The checks that follow the superuser's.
  user_check-ok :
      user_check settings request ≡ ok tt
      → (request.user.is_staff ≡ true)
        × ((if settings.rbac_role_menu_mode
              then menu_check settings request
              else plugin_check settings request)
            ≡ ok tt)
  unfolding user_check
  user_check-ok h =
      let roles = request.user.roles in
      let (roles_held, h₁) = granted (is_empty roles || all role_is_zero roles) _ _ refused h in
      let (menus_held, h₂) =
        granted (not (any (λ (role : Role). ltb 0 (length role.menus)) roles)) _ _ refused h₁ in
      let (staff, h₃) =
        granted
          ((not (text_eq request.method (codes "GET"))
              || not (text_eq request.method (codes "OPTIONS")))
            && not request.user.is_staff)
          _ _ refused h₂ in
      (staff_of request.user.is_staff _ (both_methods request.method) staff, h₃)

  rbac_verify-ok :
      is_excluded settings request.path ≡ false
      → request.user.is_superuser ≡ false
      → rbac_verify settings request ≡ ok tt
      → user_check settings request ≡ ok tt
  unfolding rbac_verify
  rbac_verify-ok listed super h =
      let h₁ = not_taken (is_excluded settings request.path) _ _ listed h in
      let (signed_in, h₂) = granted (is_empty request.scopes) _ _ refused h₁ in
      not_taken request.user.is_superuser _ _ super h₂

  -- Whatever the method, a user that is no superuser and no staff is refused on every path that is
  -- not on the white list.
  rbac_verify_staff :
      is_excluded settings request.path ≡ false
      → request.user.is_superuser ≡ false
      → request.user.is_staff ≡ false
      → rbac_verify settings request ≢ ok tt
  rbac_verify_staff listed super staff h =
      let needed = (user_check-ok (rbac_verify-ok listed super h)).0 in ground arith

  menu_check-ok :
      (c : ℕ) (perm : Text)
      → request.permission ≡ some (c ∷ perm)
      → contains settings.rbac_role_menu_exclude (c ∷ perm) ≡ false
      → menu_check settings request ≡ ok tt
      → contains (allow_perms (unique_menus request.user.roles [])) (c ∷ perm) ≡ true
  unfolding permission_check
  menu_check-ok c perm asked exempt h =
      held (contains (allow_perms (unique_menus request.user.roles [])) (c ∷ perm))
        (rw (asked, exempt) at h)

  -- In the mode of the role menus, if a permission that is not on the white list is granted, on a
  -- path that is not on its white list, to a user that is no superuser, then the user is staff,
  -- and an enabled menu of one of the roles names the permission.
  pub rbac_verify_grants :
      (c : ℕ) (perm : Text)
      → is_excluded settings request.path ≡ false
      → request.user.is_superuser ≡ false
      → settings.rbac_role_menu_mode ≡ true
      → request.permission ≡ some (c ∷ perm)
      → contains settings.rbac_role_menu_exclude (c ∷ perm) ≡ false
      → rbac_verify settings request ≡ ok tt
      → (request.user.is_staff ≡ true)
        × ((menu : Menu) × Assigned menu request.user.roles
            × (contains (menu_perms menu) (c ∷ perm) ≡ true))
  rbac_verify_grants c perm listed super mode asked exempt h =
      let (staff, checked) = user_check-ok (rbac_verify-ok listed super h) in
      let (menu, among, names) =
        allow_perms-In (unique_menus request.user.roles []) (c ∷ perm) (
          menu_check-ok c perm asked exempt
            (taken settings.rbac_role_menu_mode _ _ mode checked)) in
      elim (unique_menus-Assigned menu request.user.roles [] among) [
        | inl assigned ↦ (staff, (menu, assigned, names))
        | inr nothing ↦ absurd nothing
      ]

module _ (f : Role → ℕ) where
  abbrev with_status : Role → Role
  with_status role = record role { status = f role }

  any_menus-map :
      (roles : List Role)
      → any (λ (role : Role). ltb 0 (length role.menus)) (map with_status roles)
        ≡ any (λ (role : Role). ltb 0 (length role.menus)) roles
  any_menus-map [] = refl
  any_menus-map (role ∷ roles) = rw (any_menus-map roles) refl

  no_roles-map :
      (roles : List Role)
      → (is_empty (map with_status roles) || all role_is_zero (map with_status roles))
        ≡ (is_empty roles || all role_is_zero roles)
  no_roles-map [] = refl
  no_roles-map (role ∷ roles) = refl

  unique_menus-map :
      (roles : List Role) (d : List Menu)
      → unique_menus (map with_status roles) d ≡ unique_menus roles d
  unfolding unique_menus
  unique_menus-map [] d = refl
  unique_menus-map (role ∷ roles) d = unique_menus-map roles (put_all role.menus d)

  permission_check-map :
      (settings : RbacSettings) (roles : List Role) (permission : Option Text)
      → permission_check settings (map with_status roles) permission
        ≡ permission_check settings roles permission
  unfolding permission_check
  permission_check-map settings roles none = refl
  permission_check-map settings roles (some []) = refl
  permission_check-map settings roles (some (c ∷ perm)) = rw (unique_menus-map roles []) refl

  -- The status of the roles has no part: in the mode of the role menus, a request is judged alike
  -- whatever status its roles have.
  pub rbac_verify_status :
      (settings : RbacSettings) (request : Request)
      → settings.rbac_role_menu_mode ≡ true
      → rbac_verify settings (record request {
        user = record request.user { roles = map with_status request.user.roles };
      })
        ≡ rbac_verify settings request
  unfolding rbac_verify user_check
  rbac_verify_status settings request mode = rw (
    permission_check-map settings request.user.roles request.permission,
    no_roles-map request.user.roles,
    any_menus-map request.user.roles,
    mode,
  )
