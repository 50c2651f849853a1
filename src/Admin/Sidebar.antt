-- ===== src/Admin/Sidebar.antt =====
-- The menus of a user's sidebar.
use fbapy.Base.{
  both, ℕ, ◌≡◌, refl, subst, ◌⊎◌, inl, inr, ◌↔◌, true, false, ◌&&◌, some, List, [], ◌∷◌, ◌==◌, In,
  In-left, In-right, In-append, In-keep, keep-In, keep, arith, Bool-cases,
}
use fbapy.Redis.{Server}
use fbapy.UserCache.{contains}
use fbapy.Admin.{Keyed, MenuParam, Database, Store}
use fbapy.Admin.Menus.{in_sidebar, menu_ids, sidebar_rows, get_sidebar}

-- One of the roles has the menu.
abbrev pub Held : ℕ → List (List ℕ) → Type 0
Held id roles = (menus : List ℕ) × In menus roles × In id menus

menu_ids-Held : (id : ℕ) (roles : List (List ℕ)) → In id (menu_ids roles) ↔ Held id roles
menu_ids-Held id [] = (λ h. absurd h, λ p. absurd p.1)
menu_ids-Held id (menus ∷ roles) =
    let ih = menu_ids-Held id roles in
    (
      λ h. (elim (In-append id menus (menu_ids roles) h) [
        | inl p ↦ (menus, inl refl, p)
        | inr p ↦ (let (found, q, s) = ih.0 p in (found, inr q, s))
      ]),
      λ (found, p, q). (elim p [
        | inl e ↦ In-left id menus (menu_ids roles) (subst (In id) e q)
        | inr p' ↦ In-right id menus (menu_ids roles) (ih.1 (found, p', q))
      ]),
    )

contains_iff : (ids : List ℕ) (id : ℕ) → (contains ids id ≡ true) ↔ In id ids
contains_iff [] id = (λ h. absurd (cc), λ h. absurd h)
contains_iff (i ∷ ids) id =
    let ih = contains_iff ids id in
    elim (Bool-cases (i == id)) [
      | inl same ↦ (λ h. inl (ground arith), λ h. rw same refl)
      | inr other ↦ (
        λ h. inr (ih.0 (rw other at h)),
        λ h. (elim h [ inl e ↦ absurd (ground arith) | inr p ↦ rw other (ih.1 p) ]),
      )
    ]

module _ (r : Server) (d : Database) (w : Store r d) where
  -- The rows that can stand in a sidebar.
  abbrev pub Candidate : Keyed MenuParam → Type 0
  Candidate row = In row (d.menu_table.rows w.menus) × (in_sidebar row ≡ true)

  kept_iff :
      (row : Keyed MenuParam) → In row (keep in_sidebar (d.menu_table.rows w.menus)) ↔ Candidate row
  kept_iff row = (
    keep-In in_sidebar row (d.menu_table.rows w.menus),
    λ (p, q). In-keep in_sidebar row (d.menu_table.rows w.menus) p q,
  )

  by_ids :
      (ids : List ℕ) (row : Keyed MenuParam) (P : Type 0)
      → (In row.id ids ↔ P)
      → In row (sidebar_rows r d (some ids) w) ↔ (Candidate row × (P ⊎ (ids ≡ [])))
  by_ids [] row P h = (λ p. ((kept_iff row).0 p, inr refl), λ p. (kept_iff row).1 p.0)
  by_ids (i ∷ ids) row P h = (
    λ p.
        (let (among, lit) =
            keep-In (λ x. in_sidebar x && contains (i ∷ ids) x.id) row (d.menu_table.rows w.menus)
              p in
          let (shown, held) = both _ _ lit in
          ((among, shown), inl (h.0 ((contains_iff (i ∷ ids) row.id).0 held)))),
    λ ((among, shown), q).
        (In-keep (λ x. in_sidebar x && contains (i ∷ ids) x.id) row (d.menu_table.rows w.menus)
          among
          (elim q [
            | inl held ↦ rw (shown, (contains_iff (i ∷ ids) row.id).1 (h.1 held)) refl
            | inr nothing ↦ absurd (cc)
          ])),
  )

  -- The sidebar of a user who is no superuser and has a role: if a role has a menu, the menus are those of
  -- the roles; if no role has any, they are all menus there are. Buttons are in neither.
  pub get_sidebar_lem :
      (role : List ℕ) (roles : List (List ℕ)) (row : Keyed MenuParam)
      → In row (get_sidebar r d false (role ∷ roles) w)
        ↔ (Candidate row × (Held row.id (role ∷ roles) ⊎ (menu_ids (role ∷ roles) ≡ [])))
  unfolding get_sidebar
  get_sidebar_lem role roles row =
      by_ids (menu_ids (role ∷ roles)) row (Held row.id (role ∷ roles))
        (menu_ids-Held row.id (role ∷ roles))
