-- ===== src/Auth/Codes.antt =====
-- `AuthService.get_codes` of backend/app/admin/service/auth_service.py: the permission codes of a user.
pub mod Several
use fbapy.Base.{Bool, true, false, Option, none, some, List, [], ◌∷◌, ◌++◌, if◌then◌else◌}
use fbapy.Base.Text.{Text, split_on}
use fbapy.Base.Exec.{Result, ok, err, type_error}
use fbapy.Rbac.{Menu, Role, contains}

-- A set is a list without repetitions.
abbrev pub add : Text → List Text → List Text
add code codes = if contains codes code then codes else codes ++ code ∷ []

-- `codes.add(*parts)`: `add` takes one argument.
pub add_unpacked : List Text → List Text → Result (List Text)
add_unpacked (code ∷ []) codes = ok (add code codes)
add_unpacked _ codes = err type_error

pub add_menu : Option Text → List Text → Result (List Text)
add_menu none codes = ok codes
add_menu (some []) codes = ok codes
add_menu (some (c ∷ perms)) codes = add_unpacked (split_on 44 (c ∷ perms)) codes

pub add_menus : List Menu → List Text → Result (List Text)
add_menus [] codes = ok codes
add_menus (menu ∷ menus) codes = elim (add_menu menu.perms codes) [
  | ok codes' ↦ add_menus menus codes'
  | err e ↦ err e
]

pub role_menus : List Role → List Menu
role_menus [] = []
role_menus (role ∷ roles) = role.menus ++ role_menus roles

-- A superuser has the codes of all menus.
unfoldable pub get_codes : Bool → List Menu → List Role → Result (List Text)
get_codes is_superuser menus roles =
    if is_superuser then add_menus menus [] else add_menus (role_menus roles) []
