-- ===== src/Admin/Stale.antt =====
-- The cached users after a menu is deleted.
use fbapy.Base.{ℕ, ◌≡◌, refl, inl, inr, false, [], ◌∷◌, ◌==◌, arith, Bool-cases}
use fbapy.Redis.{Server}
use fbapy.Table.{found}
use fbapy.UserCache.{Pairs, Associations, distinct, partners, clear, clear_by_menu_id}
use fbapy.Admin.{Database, Store, is_key, without_right}
use fbapy.Admin.Menus.{get_menu, child_of, delete_menu}

partners-none : (pairs : Pairs) → partners [] pairs ≡ []
unfolding partners
partners-none [] = refl
partners-none (p ∷ pairs) = partners-none pairs

partners-without : (id : ℕ) (pairs : Pairs) → partners (id ∷ []) (without_right id pairs) ≡ []
unfolding partners
partners-without id [] = refl
partners-without id ((a, b) ∷ pairs) = elim (Bool-cases (b == id)) [
  | inl same ↦ rw same (partners-without id pairs)
  | inr other ↦
      let other' : (id == b) ≡ false = ground arith in
      rw (other, other') (partners-without id pairs)
]

module _ (r : Server) (d : Database) where
  -- Once the pairs of a menu are deleted, there is nobody whose cache is cleared for it.
  cleared_for_nobody :
      (pk : ℕ) (pairs : Associations) (s : r.State)
      → clear_by_menu_id r
          (record pairs { role_menu = without_right pk pairs.role_menu })
          (pk ∷ [])
          s
        ≡ s
  unfolding clear_by_menu_id distinct clear
  cleared_for_nobody pk pairs s =
      rw (partners-without pk pairs.role_menu, partners-none pairs.user_role) refl

  -- Deleting a menu leaves Redis as it was, so whoever is cached with the menu stays cached with it.
  pub delete_menu-redis : (pk : ℕ) (w : Store r d) → (delete_menu r d pk w).1.redis ≡ w.redis
  unfolding delete_menu
  delete_menu-redis pk w = elim (Bool-cases (found (get_menu r d (child_of pk) w))) [
    | inl parent ↦ rw parent refl
    | inr leaf ↦ elim (Bool-cases (found (get_menu r d (is_key pk) w))) [
      | inl there ↦ rw (leaf, there) (cleared_for_nobody pk w.pairs w.redis)
      | inr gone ↦ rw (leaf, gone) refl
    ]
  ]
