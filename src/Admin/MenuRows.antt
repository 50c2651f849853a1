-- ===== src/Admin/MenuRows.antt =====
-- Which menus the rows of the menus and the pairs of `role_menu` name.
use fbapy.Base.{
  ℕ, ◌≡◌, refl, sym, ap, ◌∙◌, ◌≢◌, inl, inr, true, false, not, some, List, [], ◌∷◌, ◌++◌, ◌==◌, In,
  In-append, keep-In, all-In, all, arith, Bool-cases,
}
use fbapy.Base.Text.{Text, codes}
use fbapy.Table.{sent-cases, found, found-false, found-true}
use fbapy.UserCache.{Pairs}
use fbapy.Admin.{
  Keyed, KeyedTable, MenuParam, new_row, with_columns, sent_menu, is_key, without_left,
  without_right, pairs_of,
}
use fbapy.Admin.Menus.{child_of}

pairs_of-In : (id : ℕ) (ids : List ℕ) (a b : ℕ) → In (a, b) (pairs_of id ids) → In b ids
pairs_of-In id [] a b h = absurd h
pairs_of-In id (i ∷ ids) a b (inl e) = inl (ap (λ (p : ℕ × ℕ). p.1) e)
pairs_of-In id (i ∷ ids) a b (inr p) = inr (pairs_of-In id ids a b p)

module _ (t : KeyedTable MenuParam) where
  open t use {State, rows, first, insert, update, delete}

  abbrev pub Exists : State → ℕ → Type 0
  Exists s p = (e : Keyed MenuParam) × In e (rows s) × (e.id ≡ p)

  -- The parent of a menu, unless it is 0, is a menu.
  abbrev pub Parents : State → Type 0
  Parents s =
      (m : Keyed MenuParam)
      → In m (rows s)
      → (p : ℕ) → m.columns.parent_id ≡ some p
      → p ≢ 0
      → Exists s p

  -- A menu that a role is given is a menu.
  abbrev pub Granted : State → Pairs → Type 0
  Granted s pairs = (role menu : ℕ) → In (role, menu) pairs → Exists s menu

  pub found-Exists : (s : State) (p : ℕ) → found (first (is_key p) s) ≡ true → Exists s p
  found-Exists s p h =
      let (e, got) = found-true (first (is_key p) s) h in
      let (among, lit) = t.first-some (is_key p) s e got in (e, among, (ground arith))

  Kept-insert :
      (obj : MenuParam) (s : State) (p : ℕ) → Exists s p → Exists (insert (new_row obj) s) p
  Kept-insert obj s p (e, among, same) = (e, (t.rows-insert (new_row obj) s e).1 (inr among), same)

  Kept-update :
      (pk : ℕ) (write : MenuParam → MenuParam) (s : State) (p : ℕ)
      → Exists s p
      → Exists (update (is_key pk) (with_columns write) s) p
  Kept-update pk write s p (e, among, same) = elim (Bool-cases (is_key pk e)) [
    | inl it ↦ (
      with_columns write e,
      (t.rows-update (is_key pk) (with_columns write) s (with_columns write e)).1
          (e, among, rw it refl),
      same,
    )
    | inr other ↦
        (e, (t.rows-update (is_key pk) (with_columns write) s e).1 (e, among, rw other refl), same)
  ]

  pub Parents-insert :
      (obj : MenuParam) (s : State)
      → ((p : ℕ) → obj.parent_id ≡ some p → p ≢ 0 → Exists s p)
      → Parents s
      → Parents (insert (new_row obj) s)
  Parents-insert obj s parent v m at_m p names nonzero =
      Kept-insert obj s p (elim ((t.rows-insert (new_row obj) s m).0 at_m) [
        | inl e ↦
            parent p (sym (ap (λ (z : Keyed MenuParam). z.columns.parent_id) e) ∙ names) nonzero
        | inr q ↦ v m q p names nonzero
      ])

  pub Parents-update :
      (pk : ℕ) (fields_set : List Text) (obj : MenuParam) (s : State)
      → ((p : ℕ) → obj.parent_id ≡ some p → p ≢ 0 → Exists s p)
      → Parents s
      → Parents (update (is_key pk) (with_columns (sent_menu fields_set obj)) s)
  Parents-update pk fields_set obj s parent v m at_m p names nonzero =
      let (y, q, e) =
        (t.rows-update (is_key pk) (with_columns (sent_menu fields_set obj)) s m).0 at_m in
      Kept-update pk (sent_menu fields_set obj) s p (elim (Bool-cases (is_key pk y)) [
        | inl it ↦
            let e' : m ≡ with_columns (sent_menu fields_set obj) y = rw it at e in
            let named = sym (ap (λ (z : Keyed MenuParam). z.columns.parent_id) e') ∙ names in
            (elim (sent-cases fields_set (codes "parent_id") obj.parent_id y.columns.parent_id) [
              | inl given ↦ parent p (sym given ∙ named) nonzero
              | inr absent ↦ v y q p (sym absent ∙ named) nonzero
            ])
        | inr other ↦
            let e' : m ≡ y = rw other at e in
            v y q p (sym (ap (λ (z : Keyed MenuParam). z.columns.parent_id) e') ∙ names) nonzero
      ])

  -- What is left of the menus after one is deleted.
  Kept-delete : (pk : ℕ) (s : State) (p : ℕ) → p ≢ pk → Exists s p → Exists (delete (is_key pk) s) p
  Kept-delete pk s p far (e, among, same) =
      let other : is_key pk e ≡ false = ground arith in
      (e, (t.rows-delete (is_key pk) s e).1 (among, other), same)

  pub Parents-delete :
      (pk : ℕ) (s : State)
      → found (first (child_of pk) s) ≡ false
      → Parents s
      → Parents (delete (is_key pk) s)
  Parents-delete pk s childless v m at_m p names nonzero =
      let among = ((t.rows-delete (is_key pk) s m).0 at_m).0 in
      let missed : child_of pk m ≡ false =
        t.first-none (child_of pk) s m (found-false _ childless) among in
      let far : p ≢ pk =
        λ e. (let lit : child_of pk m ≡ true = rw names (ground arith) in absurd (cc)) in
      Kept-delete pk s p far (v m among p names nonzero)

  pub Granted-insert :
      (obj : MenuParam) (s : State) (pairs : Pairs)
      → Granted s pairs
      → Granted (insert (new_row obj) s) pairs
  Granted-insert obj s pairs g role menu h = Kept-insert obj s menu (g role menu h)

  pub Granted-update :
      (pk : ℕ) (write : MenuParam → MenuParam) (s : State) (pairs : Pairs)
      → Granted s pairs
      → Granted (update (is_key pk) (with_columns write) s) pairs
  Granted-update pk write s pairs g role menu h = Kept-update pk write s menu (g role menu h)

  pub Granted-delete :
      (pk : ℕ) (s : State) (pairs : Pairs)
      → Granted s pairs
      → Granted (delete (is_key pk) s) (without_right pk pairs)
  Granted-delete pk s pairs g role menu h =
      let (among, lit) = keep-In (λ (p : ℕ × ℕ). not (p.1 == pk)) (role, menu) pairs h in
      Kept-delete pk s menu (λ e. ground arith) (g role menu among)

  pub Granted-without :
      (role : ℕ) (s : State) (pairs : Pairs) → Granted s pairs → Granted s (without_left role pairs)
  Granted-without role s pairs g a b h =
      g a b (keep-In (λ (p : ℕ × ℕ). not (p.0 == role)) (a, b) pairs h).0

  pub Granted-replace :
      (role : ℕ) (menus : List ℕ) (s : State) (pairs : Pairs)
      → all (λ (id : ℕ). found (first (is_key id) s)) menus ≡ true
      → Granted s pairs
      → Granted s (without_left role pairs ++ pairs_of role menus)
  Granted-replace role menus s pairs there g a b h =
      elim (In-append (a, b) (without_left role pairs) (pairs_of role menus) h) [
        | inl p ↦ Granted-without role s pairs g a b p
        | inr q ↦ found-Exists s b (
            all-In (λ (id : ℕ). found (first (is_key id) s)) b menus there
              (pairs_of-In role menus a b q))
      ]
