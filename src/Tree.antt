-- ===== src/Tree.antt =====
-- `get_tree_nodes` and `traversal_to_tree` of backend/utils/build_tree.py. A node is named by its `id`, the
-- primary key of its row; the lists of children, which the nodes share, are a function of the `id`.
pub mod Placed
pub mod Cycle
use fbapy.Base.{
  ℕ, ◌≡◌, Bool, true, false, not, ◌&&◌, Option, none, some, List, [], ◌∷◌, ◌++◌, ◌==◌, leb,
  if◌then◌else◌, any,
}

pub record Node : Type 0 where
  pub id : ℕ
  pub parent_id : Option ℕ
  pub sort : ℕ

-- A stable sort, as `list.sort` is: of two nodes with one key the earlier stays first.
pub insert_sorted : Node → List Node → List Node
insert_sorted n [] = n ∷ []
insert_sorted n (m ∷ ms) =
    let rest = insert_sorted n ms in if leb n.sort m.sort then n ∷ m ∷ ms else m ∷ rest

pub sort_nodes : List Node → List Node
sort_nodes [] = []
sort_nodes (n ∷ ns) = insert_sorted n (sort_nodes ns)

unfoldable pub get_tree_nodes : List Node → Bool → List Node
unfolding sort_nodes insert_sorted
get_tree_nodes row is_sort = if is_sort then sort_nodes row else row

-- The list of roots, and the `children` of each node.
pub record Built : Type 0 where
  pub tree : List ℕ
  pub children : ℕ → List ℕ

abbrev pub nothing_built : Built
nothing_built = record { tree = []; children = λ p. [] }

-- `node in nodes`
abbrev pub contains : List ℕ → ℕ → Bool
contains ids id = any (λ i. i == id) ids

-- `if node not in xs: xs.append(node)`
abbrev pub append_once : ℕ → List ℕ → List ℕ
append_once id ids = if contains ids id then ids else ids ++ id ∷ []

-- `node_dict.get(parent_id) is not None`
abbrev pub known : List Node → ℕ → Bool
known nodes p = any (λ (n : Node). n.id == p) nodes

-- The body of the loop, on the node `id` with the parent `parent_id`.
pub place : List Node → ℕ → Option ℕ → Built → Built
place nodes id none b = record b { tree = b.tree ++ id ∷ [] }
place nodes id (some p) b =
    if known nodes p
    then record b { children = λ q. if p == q then append_once id (b.children q) else b.children q }
    else record b { tree = append_once id b.tree }

pub place_all : List Node → List Node → Built → Built
place_all nodes [] b = b
place_all nodes (n ∷ ns) b = place_all nodes ns (place nodes n.id n.parent_id b)

unfoldable pub traversal_to_tree : List Node → Built
traversal_to_tree nodes = place_all nodes nodes nothing_built

-- The branch `BuildTreeType.traversal` of `get_tree_data`.
unfoldable pub get_tree_data : List Node → Bool → Built
get_tree_data row is_sort = traversal_to_tree (get_tree_nodes row is_sort)
