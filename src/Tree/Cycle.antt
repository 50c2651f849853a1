-- ===== src/Tree/Cycle.antt =====
-- What becomes of two nodes each of which is the other's parent.
use fbapy.Base.{
  ℕ, ◌≡◌, refl, sym, ap, subst, ◌∙◌, ◌≢◌, ◌⊎◌, inl, inr, Bool, true, false, ◌&&◌, some, List, [],
  ◌∷◌, ◌==◌, In, All, arith, Bool-cases,
}
use fbapy.Tree.{Node, Built, known, contains, traversal_to_tree}
use fbapy.Tree.Placed.{ids_where, is_root, is_child, Distinct, traversal_to_tree_lem}

-- The nodes that can be met from the roots.
pub data Listed (b : Built) : ℕ → Type 0 where
  root : (id : ℕ) → In id b.tree → Listed b id
  below : (p id : ℕ) → Listed b p → In id (b.children p) → Listed b id

ids_where-In :
    (test : Node → Bool) (id : ℕ) (ns : List Node)
    → In id (ids_where test ns)
    → (n : Node) × In n ns × (n.id ≡ id) × (test n ≡ true)
ids_where-In test id [] h = absurd h
ids_where-In test id (n ∷ ns) h = elim (Bool-cases (test n)) [
  | inl lit ↦ (elim (rw lit at h) [
    | inl e ↦ (n, inl refl, sym e, lit)
    | inr p ↦ (let (m, q, same, lit') = ids_where-In test id ns p in (m, inr q, same, lit'))
  ])
  | inr dark ↦
      (let (m, q, same, lit) = ids_where-In test id ns (rw dark at h) in (m, inr q, same, lit))
]

known-In : (ns : List Node) (n : Node) → In n ns → known ns n.id ≡ true
known-In [] n h = absurd h
known-In (m ∷ ns) n (inl e) = rw e (ground arith)
known-In (m ∷ ns) n (inr p) = ground (arith, known-In ns n p)

All-In : (P : Node → Type 0) (ns : List Node) (n : Node) → All P ns → In n ns → P n
All-In P [] n h p = absurd p
All-In P (m ∷ ns) n h (inl e) = subst P (sym e) h.0
All-In P (m ∷ ns) n h (inr p) = All-In P ns n h.1 p

other_id : (x y : ℕ) → contains (x ∷ []) y ≡ false → x ≢ y
other_id x y h e = ground arith

-- Two nodes with one identifier are the same node.
Distinct-same :
    (ns : List Node) (m n : Node) → Distinct ns → In m ns → In n ns → m.id ≡ n.id → m ≡ n
Distinct-same [] m n d p q e = absurd p
Distinct-same (k ∷ ns) m n d (inl e₁) (inl e₂) e = e₁ ∙ sym e₂
Distinct-same (k ∷ ns) m n d (inl e₁) (inr q) e =
    absurd (other_id k.id n.id (All-In _ ns n d.0 q) (ap (λ (x : Node). x.id) (sym e₁) ∙ e))
Distinct-same (k ∷ ns) m n d (inr p) (inl e₂) e =
    absurd (other_id k.id m.id (All-In _ ns m d.0 p) (ap (λ (x : Node). x.id) (sym e₂) ∙ sym e))
Distinct-same (k ∷ ns) m n d (inr p) (inr q) e = Distinct-same ns m n d.1 p q e

module _ (nodes : List Node) (distinct : Distinct nodes) where
  -- What the tree holds of a node whose parent is among the nodes.
  not_root :
      (n : Node) (q : Node)
      → In n nodes
      → In q nodes
      → n.parent_id ≡ some q.id
      → In n.id (traversal_to_tree nodes).tree
      → ⊥
  not_root n q among parent_among parent h =
      let listed = subst (In n.id) (traversal_to_tree_lem nodes distinct).0 h in
      let (m, p, same, lit) = ids_where-In (is_root nodes) n.id nodes listed in
      let it : m ≡ n = Distinct-same nodes m n distinct p among same in
      let lit' : is_root nodes n ≡ true = subst (λ x. is_root nodes x ≡ true) it lit in
      let there = known-In nodes q parent_among in
      let shut : is_root nodes n ≡ false = rw (parent, there) refl in absurd (cc)

  parent_only :
      (n : Node) (q p : ℕ)
      → In n nodes
      → n.parent_id ≡ some q
      → In n.id ((traversal_to_tree nodes).children p)
      → p ≡ q
  parent_only n q p among parent h =
      let listed = subst (In n.id) ((traversal_to_tree_lem nodes distinct).1 p) h in
      let (m, at_m, same, lit) = ids_where-In (is_child nodes p) n.id nodes listed in
      let it : m ≡ n = Distinct-same nodes m n distinct at_m among same in
      let lit' : is_child nodes p n ≡ true = subst (λ x. is_child nodes p x ≡ true) it lit in
      let named : ((q == p) && known nodes p) ≡ true = rw parent at lit' in ground arith

  module _ (a b : Node) (a_in : In a nodes) (b_in : In b nodes) (a_below : a.parent_id ≡ some b.id)
      (b_below : b.parent_id ≡ some a.id) where
    unlisted : (id : ℕ) → Listed (traversal_to_tree nodes) id → ((id ≡ a.id) ⊎ (id ≡ b.id)) → ⊥
    unlisted id (root _ h) (inl e) =
        not_root a b a_in b_in a_below (subst (λ x. In x (traversal_to_tree nodes).tree) e h)
    unlisted id (root _ h) (inr e) =
        not_root b a b_in a_in b_below (subst (λ x. In x (traversal_to_tree nodes).tree) e h)
    unlisted id (below p _ up h) (inl e) = unlisted p up (
        inr (
          parent_only a b.id p a_in a_below
            (subst (λ x. In x ((traversal_to_tree nodes).children p)) e h)))
    unlisted id (below p _ up h) (inr e) = unlisted p up (
        inl (
          parent_only b a.id p b_in b_below
            (subst (λ x. In x ((traversal_to_tree nodes).children p)) e h)))

    -- Of nodes with distinct identifiers: two of which each is the other's parent cannot be met from the
    -- roots of the tree, so they are not shown.
    pub traversal_to_tree-Listed :
        (Listed (traversal_to_tree nodes) a.id → ⊥) × (Listed (traversal_to_tree nodes) b.id → ⊥)
    traversal_to_tree-Listed = (λ h. unlisted a.id h (inl refl), λ h. unlisted b.id h (inr refl))
