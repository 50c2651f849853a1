-- ===== src/Admin/Cleared.antt =====
-- What a new list of menus for a role leaves behind.
use fbapy.Base.{
  ℕ, ◌≡◌, refl, sym, ap, subst, ◌∙◌, ◌≢◌, ◌⊎◌, inl, inr, ◌↔◌, not, none, List, [], ◌∷◌, ◌++◌, ◌==◌,
  In, In-left, In-right, In-append, In-keep, keep-In, all, arith, append-nil,
}
use fbapy.Base.Exec.{
  Result, ok, not_found_error, or_raise-bind-ok, raise_if-bind-ok, lift-bind-ok, ◌>>◌,
}
use fbapy.Conf.{jwt_user_redis_prefix}
use fbapy.Redis.{Server}
use fbapy.Token.{user_key}
use fbapy.Table.{found}
use fbapy.UserCache.{Pairs, Associations, clear_by_role_id}
use fbapy.UserCache.Cleared.{clear_by_role_id_lem}
use fbapy.Admin.{Database, Store, is_key, without_left, pairs_of, insert_pairs, on_redis}
use fbapy.Admin.Roles.{update_role_menu}

pub pairs_of_iff :
    (id : ℕ) (ids : List ℕ) (a b : ℕ) → In (a, b) (pairs_of id ids) ↔ ((a ≡ id) × In b ids)
pairs_of_iff id [] a b = (λ h. absurd h, λ h. absurd h.1)
pairs_of_iff id (i ∷ ids) a b =
    let ih = pairs_of_iff id ids a b in
    (
      λ h. (elim h [
        | inl e ↦ (ap (λ (p : ℕ × ℕ). p.0) e, inl (ap (λ (p : ℕ × ℕ). p.1) e))
        | inr p ↦ (let (q, s) = ih.0 p in (q, inr s))
      ]),
      λ (e, h). (elim h [ inl same ↦ inl (cc) | inr q ↦ inr (ih.1 (e, q)) ]),
    )

-- The pairs after those of one left key are replaced.
pub replaced_iff :
    (id : ℕ) (ids : List ℕ) (pairs : Pairs) (a b : ℕ)
    → In (a, b) (without_left id pairs ++ pairs_of id ids)
      ↔ (((a ≡ id) × In b ids) ⊎ ((a ≢ id) × In (a, b) pairs))
replaced_iff id ids pairs a b =
    let new = pairs_of_iff id ids a b in
    (
      λ h. (elim (In-append (a, b) (without_left id pairs) (pairs_of id ids) h) [
        | inl p ↦
            (let (q, lit) = keep-In (λ (p : ℕ × ℕ). not (p.0 == id)) (a, b) pairs p in
              inr ((ground arith), q))
        | inr q ↦ inl (new.0 q)
      ]),
      λ h. (elim h [
        | inl p ↦ In-right (a, b) (without_left id pairs) (pairs_of id ids) (new.1 p)
        | inr (far, q) ↦
            In-left (a, b) (without_left id pairs) (pairs_of id ids)
              (In-keep (λ (p : ℕ × ℕ). not (p.0 == id)) (a, b) pairs q (ground arith))
      ]),
    )

module _ (r : Server) (d : Database) where
  abbrev insertion : ℕ → List ℕ → Store r d → Result (Unit {0}) × Store r d
  insertion pk menus =
      insert_pairs r d menus
        (λ pairs. record pairs { role_menu = pairs.role_menu ++ pairs_of pk menus })
      >> on_redis r d (λ pairs. clear_by_role_id r pairs (pk ∷ []))

  inserted :
      (pk : ℕ) (menus : List ℕ) (s after : Store r d)
      → insertion pk menus s ≡ (ok tt, after)
      → (after.pairs.role_menu ≡ s.pairs.role_menu ++ pairs_of pk menus)
        × ((p : Associations) × (after.redis ≡ clear_by_role_id r p (pk ∷ []) s.redis)
            × (p.user_role ≡ s.pairs.user_role))
  inserted pk [] s after h =
      let (_, _, done) =
        lift-bind-ok d.insert_no_rows
          (λ _. on_redis r d (λ pairs. clear_by_role_id r pairs (pk ∷ []))) s h in
      let e = ap (λ (x : Result (Unit {0}) × Store r d). x.1) done in
      (
        sym (ap (λ (x : Store r d). x.pairs.role_menu) e) ∙ sym (append-nil s.pairs.role_menu),
        (s.pairs, sym (ap (λ (x : Store r d). x.redis) e), refl),
      )
  inserted pk (m ∷ menus) s after h =
      let e = ap (λ (x : Result (Unit {0}) × Store r d). x.1) h in
      let grown : Associations = record s.pairs {
        role_menu = s.pairs.role_menu ++ pairs_of pk (m ∷ menus);
      } in
      (
        sym (ap (λ (x : Store r d). x.pairs.role_menu) e),
        (grown, sym (ap (λ (x : Store r d). x.redis) e), refl),
      )

  -- If a role's menus are replaced with success: the pairs of the role are those of the listed menus, the
  -- other roles keep theirs, and no user with the role is cached.
  pub update_role_menu_lem :
      (pk : ℕ) (menus : List ℕ) (w after : Store r d)
      → update_role_menu r d pk menus w ≡ (ok tt, after)
      → ((role menu : ℕ)
          → In (role, menu) after.pairs.role_menu
            ↔ (((role ≡ pk) × In menu menus) ⊎ ((role ≢ pk) × In (role, menu) w.pairs.role_menu)))
        × ((user : ℕ)
            → In (user, pk) w.pairs.user_role
            → r.get after.redis (user_key jwt_user_redis_prefix user) ≡ none)
  unfolding update_role_menu
  update_role_menu_lem pk menus w after h =
      let (role, _, h₁) =
        or_raise-bind-ok (d.role_table.first (is_key pk) w.roles) (not_found_error "角色不存在") _ w h in
      let (_, h₂) =
        raise_if-bind-ok
          (not (all (λ (id : ℕ). found (d.menu_table.first (is_key id) w.menus)) menus)) _ _ w h₁ in
      let (pairs, (p, redis, users)) =
        inserted pk menus
          (record w { pairs = record w.pairs { role_menu = without_left pk w.pairs.role_menu } })
          after h₂ in
      (
        λ role menu.
            subst
              (λ x. In (role, menu) x ↔ (
                ((role ≡ pk) × In menu menus) ⊎ ((role ≢ pk) × In (role, menu) w.pairs.role_menu)))
              (sym pairs) (replaced_iff pk menus w.pairs.role_menu role menu),
        λ user has.
            ap (λ x. r.get x (user_key jwt_user_redis_prefix user)) redis
            ∙ clear_by_role_id_lem r p (pk ∷ []) w.redis user pk
                (subst (In (user, pk)) (sym users) has) (inl refl),
      )
