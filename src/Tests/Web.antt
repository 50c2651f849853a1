-- ===== src/Tests/Web.antt =====
-- Tests of the connections, the pages, the permissions and the trees.
use fbapy.Base.{ℕ, ◌<◌, ◌≤◌, ◌≡◌, refl, Bool, true, false, none, some, List, [], ◌∷◌, arith}
use fbapy.Base.Text.{codes, split_from}
use fbapy.Base.Exec.{ok}
use fbapy.Pool.{Connection, Pool, init, empty, add_connection, add_step, start, step}
use fbapy.Pool.Reach.{IsValid, Reachable-IsValid}
use fbapy.Pagination.{PageParams, IsParams, to_raw_params, create}
use fbapy.Pagination.Links.{last_page}
use fbapy.Rbac.{
  Menu, Role, Request, RbacSettings, contains, menu_perms, user_check, permission_check,
  unique_menus, put_all, put, allow_perms, rbac_verify,
}
use fbapy.Rbac.Grants.{Assigned, rbac_verify_grants, rbac_verify_status}
use fbapy.Tree.{Node, traversal_to_tree}
use fbapy.Tree.Placed.{ids_where, is_root, is_child, traversal_to_tree_lem}

abbrev phone : Connection
phone = record { uid = codes "u"; handle = 1 }

opened : init 1 ≡ ok (empty 1)
unfolding init
opened = refl

abbrev one_connection : Pool
one_connection = (add_connection phone (empty 1)).1

Reachable-IsValid_example : IsValid 1 one_connection
Reachable-IsValid_example =
    Reachable-IsValid 1 one_connection
      (step (empty 1) one_connection (start (empty 1) opened) (add_step phone (empty 1)))

abbrev second_page : PageParams
second_page = record { page = 2; size = 10 }

second-IsParams : IsParams second_page
second-IsParams = record {
  page_positive = omega arith;
  size_positive = omega arith;
  size_bounded = omega arith;
}

abbrev no_items : List ℕ
no_items = []

last_page_example :
    ((to_raw_params
        (record { page = (create no_items second_page 25).links.last; size = 10 })).offset
      < 25)
    × (25 ≤ (to_raw_params (record { page = 7; size = 10 })).offset)
unfolding create
last_page_example = last_page no_items second_page 25 second-IsParams (omega arith) 7 (omega arith)

abbrev settings : RbacSettings
settings = record {
  token_request_path_exclude = codes "/login" ∷ [];
  token_request_path_exclude_pattern = [];
  rbac_role_menu_mode = true;
  rbac_role_menu_exclude = [];
  casbin_verify = none;
}

abbrev menu : Menu
menu = record { id = 1; perms = some (codes "add,del"); status = 1 }

abbrev role : Role
role = record { status = 0; menus = menu ∷ [] }

abbrev request : Bool → Request
request staff = record {
  path = codes "/user";
  method = codes "GET";
  scopes = codes "authenticated" ∷ [];
  user = record { is_superuser = false; is_staff = staff; roles = role ∷ [] };
  permission = some (codes "del");
}

granted : rbac_verify settings (request true) ≡ ok tt
unfolding rbac_verify user_check permission_check unique_menus put_all put allow_perms split_from
granted = refl

rbac_verify_grants_example :
    (true ≡ true)
    × ((m : Menu) × Assigned m (role ∷ []) × (contains (menu_perms m) (codes "del") ≡ true))
rbac_verify_grants_example =
    rbac_verify_grants settings (request true) 100 (codes "el") refl refl refl refl refl granted

rbac_verify_status_example :
    rbac_verify settings (record (request true) {
      user = record {
        is_superuser = false;
        is_staff = true;
        roles = record role { status = 1 } ∷ [];
      };
    })
    ≡ rbac_verify settings (request true)
rbac_verify_status_example = rbac_verify_status (λ x. 1) settings (request true) refl

-- A root with one child.
abbrev forest : List Node
forest =
    record { id = 1; parent_id = none; sort = 0 }
    ∷ record { id = 2; parent_id = some 1; sort = 0 }
    ∷ []

traversal_to_tree_lem_example :
    ((traversal_to_tree forest).tree ≡ ids_where (is_root forest) forest)
    × ((q : ℕ) → (traversal_to_tree forest).children q ≡ ids_where (is_child forest q) forest)
traversal_to_tree_lem_example = traversal_to_tree_lem forest ((refl, tt), (tt, tt))
