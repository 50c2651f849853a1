-- ===== src/UserCache/Cleared.antt =====
-- Whose cached row is gone.
use fbapy.Base.{
  ℕ, ◌≡◌, refl, ap, ◌∙◌, inl, inr, Bool, true, false, ◌||◌, none, List, [], ◌∷◌, ◌==◌, any, map,
  arith, In, Bool-cases, if_true,
}
use fbapy.Base.Text.{str, text_eq, text_eq_self}
use fbapy.Conf.{jwt_user_redis_prefix}
use fbapy.Redis.{Server}
use fbapy.Redis.Prefix.{get-delete_all}
use fbapy.Token.{user_key}
use fbapy.UserCache.{
  contains, distinct, partners, Pairs, Associations, clear, clear_by_role_id, clear_by_menu_id,
  clear_by_data_rule_id,
}

contains-In : (ids : List ℕ) (id : ℕ) → In id ids → contains ids id ≡ true
contains-In [] id h = absurd h
contains-In (i ∷ ids) id (inl e) = ground arith
contains-In (i ∷ ids) id (inr p) = ground (arith, contains-In ids id p)

contains-distinct : (ids : List ℕ) (id : ℕ) → contains (distinct ids) id ≡ contains ids id
unfolding distinct
contains-distinct [] id = refl
contains-distinct (i ∷ ids) id = ground (arith, contains-distinct ids id, contains-distinct ids i)

partners-In :
    (ids : List ℕ) (pairs : Pairs) (a b : ℕ)
    → In (a, b) pairs
    → contains ids b ≡ true
    → contains (partners ids pairs) a ≡ true
unfolding partners
partners-In ids [] a b h c = absurd h
partners-In ids ((x, y) ∷ pairs) a b (inl e) c =
    let first : a ≡ x = ap (λ (p : ℕ × ℕ). p.0) e in
    let second : b ≡ y = ap (λ (p : ℕ × ℕ). p.1) e in ground arith
partners-In ids ((x, y) ∷ pairs) a b (inr p) c = ground (arith, partners-In ids pairs a b p c)

or_true : (b : Bool) → (b || true) ≡ true
or_true true = refl
or_true false = refl

module _ (r : Server) where
  open r use {State, get}

  key_taken :
      (ids : List ℕ) (id : ℕ)
      → contains ids id ≡ true
      → any (text_eq (user_key jwt_user_redis_prefix id)) (map (user_key jwt_user_redis_prefix) ids)
        ≡ true
  key_taken [] id h = cc
  key_taken (i ∷ ids) id h = elim (Bool-cases (i == id)) [
    | inl same ↦ let here : id ≡ i = ground arith in rw (ap str here, text_eq_self (str i)) refl
    | inr other ↦ rw (key_taken ids id (rw other at h)) (or_true _)
  ]

  get-clear :
      (ids : List ℕ) (s : State) (id : ℕ)
      → contains ids id ≡ true
      → get (clear r ids s) (user_key jwt_user_redis_prefix id) ≡ none
  unfolding clear
  get-clear [] s id h = cc
  get-clear (i ∷ ids) s id h =
      get-delete_all r (map (user_key jwt_user_redis_prefix) (i ∷ ids)) s
        (user_key jwt_user_redis_prefix id)
      ∙ if_true _ _ (key_taken (i ∷ ids) id h)

  -- After the cache is cleared for some roles, no user with one of the roles is cached.
  pub clear_by_role_id_lem :
      (db : Associations) (role_ids : List ℕ) (s : State) (user role : ℕ)
      → In (user, role) db.user_role
      → In role role_ids
      → get (clear_by_role_id r db role_ids s) (user_key jwt_user_redis_prefix user) ≡ none
  unfolding clear_by_role_id
  clear_by_role_id_lem db role_ids s user role has named =
      get-clear (distinct (partners role_ids db.user_role)) s user (
        contains-distinct (partners role_ids db.user_role) user
        ∙ partners-In role_ids db.user_role user role has (contains-In role_ids role named))

  -- After the cache is cleared for some menus, no user with a role that has one of the menus is cached.
  clear_by_menu_id_lem :
      (db : Associations) (menu_ids : List ℕ) (s : State) (user role menu : ℕ)
      → In (user, role) db.user_role
      → In (role, menu) db.role_menu
      → In menu menu_ids
      → get (clear_by_menu_id r db menu_ids s) (user_key jwt_user_redis_prefix user) ≡ none
  unfolding clear_by_menu_id
  clear_by_menu_id_lem db menu_ids s user role menu has grants named =
      let roles =
        partners-In menu_ids db.role_menu role menu grants (contains-In menu_ids menu named) in
      let users = partners-In (partners menu_ids db.role_menu) db.user_role user role has roles in
      get-clear (distinct (partners (partners menu_ids db.role_menu) db.user_role)) s user
        (contains-distinct _ user ∙ users)

  -- After the cache is cleared for some data rules, no user with a role that has a data scope with one
  -- of the rules is cached.
  clear_by_data_rule_id_lem :
      (db : Associations) (rule_ids : List ℕ) (s : State) (user role scope rule : ℕ)
      → In (user, role) db.user_role
      → In (role, scope) db.role_data_scope
      → In (scope, rule) db.data_scope_rule
      → In rule rule_ids
      → get (clear_by_data_rule_id r db rule_ids s) (user_key jwt_user_redis_prefix user) ≡ none
  unfolding clear_by_data_rule_id
  clear_by_data_rule_id_lem db rule_ids s user role scope rule has scoped ruled named =
      let scopes = partners rule_ids db.data_scope_rule in
      let found =
        partners-In rule_ids db.data_scope_rule scope rule ruled
          (contains-In rule_ids rule named) in
      let roles = partners-In scopes db.role_data_scope role scope scoped found in
      let users =
        partners-In (partners scopes db.role_data_scope) db.user_role user role has roles in
      get-clear (distinct (partners (partners scopes db.role_data_scope) db.user_role)) s user
        (contains-distinct _ user ∙ users)
