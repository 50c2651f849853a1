-- ===== src/Tree/Placed.antt =====
-- Where `traversal_to_tree` puts each node.
use fbapy.Base.{
  ℕ, ◌≡◌, refl, sym, ap, subst, ◌∙◌, Bool, true, false, not, ◌&&◌, ◌||◌, Option, none, some, List,
  [], ◌∷◌, ◌++◌, ◌==◌, if◌then◌else◌, All, arith, append-nil, append_assoc, Bool-cases, inl, inr,
}
use fbapy.Tree.{Node, Built, contains, known, place, place_all, nothing_built, traversal_to_tree}

-- The nodes that satisfy a test, in their order.
abbrev pub ids_where : (Node → Bool) → List Node → List ℕ
ids_where p [] = []
ids_where p (n ∷ ns) = if p n then n.id ∷ ids_where p ns else ids_where p ns

abbrev root_parent : List Node → Option ℕ → Bool
root_parent nodes none = true
root_parent nodes (some p) = not (known nodes p)

-- A node without a parent, or with a parent that is not among the nodes.
abbrev pub is_root : List Node → Node → Bool
is_root nodes n = root_parent nodes n.parent_id

abbrev child_parent : List Node → ℕ → Option ℕ → Bool
child_parent nodes q none = false
child_parent nodes q (some p) = p == q && known nodes q

-- A node whose parent is `q`, which is among the nodes.
abbrev pub is_child : List Node → ℕ → Node → Bool
is_child nodes q n = child_parent nodes q n.parent_id

abbrev Apart : List ℕ → List Node → Type 0
Apart ids ns = All (λ (n : Node). contains ids n.id ≡ false) ns

-- No two nodes have one `id`.
abbrev pub Distinct : List Node → Type 0
Distinct [] = Unit
Distinct (n ∷ ns) = Apart (n.id ∷ []) ns × Distinct ns

contains-append :
    (ids : List ℕ) (x y : ℕ) → contains (ids ++ x ∷ []) y ≡ (contains ids y || contains (x ∷ []) y)
contains-append [] x y = refl
contains-append (i ∷ ids) x y = ground (arith, contains-append ids x y)

Apart-append :
    (ids : List ℕ) (x : ℕ) (ns : List Node)
    → Apart ids ns
    → Apart (x ∷ []) ns
    → Apart (ids ++ x ∷ []) ns
Apart-append ids x [] p q = tt
Apart-append ids x (n ∷ ns) p q =
    (rw (contains-append ids x n.id, p.0, q.0) refl, Apart-append ids x ns p.1 q.1)

Apart-step :
    (c : Bool) (ids : List ℕ) (x : ℕ) (ns : List Node)
    → Apart ids ns
    → Apart (x ∷ []) ns
    → Apart (if c then ids ++ x ∷ [] else ids) ns
Apart-step true ids x ns p q = Apart-append ids x ns p q
Apart-step false ids x ns p q = p

grown :
    (c : Bool) (ids : List ℕ) (x : ℕ) (rest : List ℕ)
    → (if c then ids ++ x ∷ [] else ids) ++ rest ≡ ids ++ (if c then x ∷ rest else rest)
grown true ids x rest = append_assoc ids (x ∷ []) rest
grown false ids x rest = refl

Apart-nil : (ns : List Node) → Apart [] ns
Apart-nil [] = tt
Apart-nil (n ∷ ns) = (refl, Apart-nil ns)

module _ (nodes : List Node) where
  -- One step, on the roots and on the children of `q`.
  tree-place :
      (x : ℕ) (parent : Option ℕ) (b : Built)
      → contains b.tree x ≡ false
      → (place nodes x parent b).tree
        ≡ (if root_parent nodes parent then b.tree ++ x ∷ [] else b.tree)
  unfolding place
  tree-place x none b h = refl
  tree-place x (some p) b h = ground arith

  children-place :
      (q x : ℕ) (parent : Option ℕ) (b : Built)
      → contains (b.children q) x ≡ false
      → (place nodes x parent b).children q
        ≡ (if child_parent nodes q parent then b.children q ++ x ∷ [] else b.children q)
  unfolding place
  children-place q x none b h = refl
  children-place q x (some p) b h = elim (Bool-cases (p == q)) [
    | inl same ↦
        let here : q ≡ p = ground arith in
        elim (Bool-cases (known nodes p)) [
          | inl there ↦ rw (there, same, ap (known nodes) here ∙ there, h) refl
          | inr missing ↦ rw (missing, same, ap (known nodes) here ∙ missing) refl
        ]
    | inr other ↦ elim (Bool-cases (known nodes p)) [
      | inl there ↦ rw (there, other) refl
      | inr missing ↦ rw (missing, other) refl
    ]
  ]

  tree-place_all :
      (ns : List Node) (b : Built)
      → Distinct ns
      → Apart b.tree ns
      → (place_all nodes ns b).tree ≡ b.tree ++ ids_where (is_root nodes) ns
  unfolding place_all
  tree-place_all [] b d a = sym (append-nil b.tree)
  tree-place_all (n ∷ ns) b d a =
      let root = is_root nodes n in
      let step = tree-place n.id n.parent_id b a.0 in
      let apart = subst (λ t. Apart t ns) (sym step) (Apart-step root b.tree n.id ns a.1 d.0) in
      tree-place_all ns (place nodes n.id n.parent_id b) d.1 apart
      ∙ ap (λ t. t ++ ids_where (is_root nodes) ns) step
      ∙ grown root b.tree n.id (ids_where (is_root nodes) ns)

  children-place_all :
      (q : ℕ) (ns : List Node) (b : Built)
      → Distinct ns
      → Apart (b.children q) ns
      → (place_all nodes ns b).children q ≡ b.children q ++ ids_where (is_child nodes q) ns
  unfolding place_all
  children-place_all q [] b d a = sym (append-nil (b.children q))
  children-place_all q (n ∷ ns) b d a =
      let child = is_child nodes q n in
      let step = children-place q n.id n.parent_id b a.0 in
      let apart =
        subst (λ t. Apart t ns) (sym step) (Apart-step child (b.children q) n.id ns a.1 d.0) in
      children-place_all q ns (place nodes n.id n.parent_id b) d.1 apart
      ∙ ap (λ t. t ++ ids_where (is_child nodes q) ns) step
      ∙ grown child (b.children q) n.id (ids_where (is_child nodes q) ns)

  -- For nodes with distinct identifiers, in their order: the roots are the nodes without a parent, or
  -- with one that is not among the nodes, and the children of each node are the nodes that name it.
  pub traversal_to_tree_lem :
      Distinct nodes
      → ((traversal_to_tree nodes).tree ≡ ids_where (is_root nodes) nodes)
        × ((q : ℕ) → (traversal_to_tree nodes).children q ≡ ids_where (is_child nodes q) nodes)
  unfolding traversal_to_tree
  traversal_to_tree_lem d = (
    tree-place_all nodes nothing_built d (Apart-nil nodes),
    λ q. children-place_all q nodes nothing_built d (Apart-nil nodes),
  )
