-- ===== src/Auth/Codes/Several.antt =====
-- Menus with several permissions.
use fbapy.Base.{
  ℕ, ◌≡◌, refl, ◌⊎◌, inl, inr, false, Option, none, some, List, [], ◌∷◌, ◌++◌, In, arith, subst,
  ◌≤◌, length,
}
use fbapy.Base.Text.{Text, split_on}
use fbapy.Base.Exec.{Result, ok, err, type_error}
use fbapy.Rbac.{Menu, Role}
use fbapy.Auth.Codes.{add_unpacked, add_menu, add_menus, role_menus, get_codes}

-- The permissions of the menu are two or more, with commas between them.
abbrev pub Several : Menu → Type 0
Several menu =
    (c : ℕ) × (perms : Text) × (menu.perms ≡ some (c ∷ perms))
    × (2 ≤ length (split_on 44 (c ∷ perms)))

abbrev failed : Result (List Text)
failed = err type_error

add_unpacked_several :
    (parts codes : List Text) → 2 ≤ length parts → add_unpacked parts codes ≡ failed
unfolding add_unpacked
add_unpacked_several [] codes h = absurd (omega arith)
add_unpacked_several (p ∷ []) codes h = absurd (omega arith)
add_unpacked_several (p ∷ q ∷ parts) codes h = refl

add_unpacked_ends :
    (parts codes : List Text)
    → ((codes' : List Text) × (add_unpacked parts codes ≡ ok codes'))
      ⊎ (add_unpacked parts codes ≡ failed)
unfolding add_unpacked
add_unpacked_ends [] codes = inr refl
add_unpacked_ends (p ∷ []) codes = inl (_, refl)
add_unpacked_ends (p ∷ q ∷ parts) codes = inr refl

add_menu_ends :
    (perms : Option Text) (codes : List Text)
    → ((codes' : List Text) × (add_menu perms codes ≡ ok codes')) ⊎ (add_menu perms codes ≡ failed)
unfolding add_menu
add_menu_ends none codes = inl (codes, refl)
add_menu_ends (some []) codes = inl (codes, refl)
add_menu_ends (some (c ∷ perms)) codes = add_unpacked_ends (split_on 44 (c ∷ perms)) codes

add_menu-Several :
    (menu : Menu) (codes : List Text) → Several menu → add_menu menu.perms codes ≡ failed
unfolding add_menu
add_menu-Several menu codes (c, perms, e, two) = rw e (add_unpacked_several _ codes two)

add_menus-Several :
    (menu : Menu) (menus : List Menu) (codes : List Text)
    → In menu menus
    → Several menu
    → add_menus menus codes ≡ failed
unfolding add_menus
add_menus-Several menu [] codes h several = absurd h
add_menus-Several menu (m ∷ menus) codes (inl e) several =
    rw
      (
        subst (λ x. add_menu x.perms codes ≡ failed) e (add_menu-Several menu codes several),
        add_menus,
      )
      refl
add_menus-Several menu (m ∷ menus) codes (inr among) several = elim (add_menu_ends m.perms codes) [
  | inl (codes', e) ↦ rw (e, add_menus) (add_menus-Several menu menus codes' among several)
  | inr e ↦ rw (e, add_menus) refl
]

In-append_left : (x : Menu) (xs ys : List Menu) → In x xs → In x (xs ++ ys)
In-append_left x [] ys h = absurd h
In-append_left x (z ∷ xs) ys (inl e) = inl e
In-append_left x (z ∷ xs) ys (inr h) = inr (In-append_left x xs ys h)

In-append_right : (x : Menu) (xs ys : List Menu) → In x ys → In x (xs ++ ys)
In-append_right x [] ys h = h
In-append_right x (z ∷ xs) ys h = inr (In-append_right x xs ys h)

role_menus-In :
    (role : Role) (menu : Menu) (roles : List Role)
    → In role roles
    → In menu role.menus
    → In menu (role_menus roles)
unfolding role_menus
role_menus-In role menu [] h k = absurd h
role_menus-In role menu (x ∷ roles) (inl e) k =
    In-append_left menu x.menus (role_menus roles) (subst (λ y. In menu y.menus) e k)
role_menus-In role menu (x ∷ roles) (inr h) k =
    In-append_right menu x.menus (role_menus roles) (role_menus-In role menu roles h k)

-- For a user that is no superuser, one menu of one of the roles with two or more permissions is
-- enough for `get_codes` to raise a `TypeError`.
get_codes-Several :
    (menus : List Menu) (roles : List Role) (role : Role) (menu : Menu)
    → In role roles
    → In menu role.menus
    → Several menu
    → get_codes false menus roles ≡ err type_error
unfolding get_codes
get_codes-Several menus roles role menu held among several =
    add_menus-Several menu (role_menus roles) [] (role_menus-In role menu roles held among) several
