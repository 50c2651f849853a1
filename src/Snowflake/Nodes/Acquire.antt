-- ===== src/Snowflake/Nodes/Acquire.antt =====
-- Who gets which node.
use fbapy.Base.{
  ◌≡◌, refl, sym, ap, subst, ◌∙◌, ◌≢◌, inl, inr, Bool, true, false, Option, none, some, List, [],
  ◌∷◌, Bool-cases, Option-cases,
}
use fbapy.Base.Text.{Text, text_eq_self}
use fbapy.Base.Exec.{Result, Error, ok, err}
use fbapy.Conf.{snowflake_node_ttl_seconds}
use fbapy.Redis.{Server}
use fbapy.Snowflake.Nodes.{Node, node_key, contains, register, find_node, acquire_node_id}

abbrev present : Text → Option Text
present v = some v

abbrev found : Node → Result Node
found node = ok node

ok-node : {n m : Node} → found n ≡ found m → n ≡ m
ok-node h = cc

module _ (r : Server) (value : Text) where
  open r use {State, get}

  -- The key was absent before and holds the name of the process after.
  abbrev Taken : Node → State → State → Type 0
  Taken node s s' = (get s (node_key node) ≡ none) × (get s' (node_key node) ≡ some value)

  abbrev failure : Error → State → Result Node × State
  failure e s = (err e, s)

  abbrev success : Node → State → Result Node × State
  success node s = (ok node, s)

  success-node : {n m : Node} {s s' : State} → success n s ≡ success m s' → n ≡ m
  success-node h = ok-node (ap (λ (x : Result Node × State). x.0) h)

  no_node : {e : Error} {node : Node} {s s' : State} → failure e s ≡ success node s' → ⊥
  no_node h = cc

  register_free :
      (node : Node) (s : State)
      → get s (node_key node) ≡ none
      → register r value node s ≡ (true, r.setex (node_key node) snowflake_node_ttl_seconds value s)
  unfolding register
  register_free node s absent = rw (absent, register) refl

  register_held :
      (node : Node) (s : State) (v : Text)
      → get s (node_key node) ≡ some v
      → register r value node s ≡ (false, s)
  unfolding register
  register_held node s v held = rw (held, register) refl

  registered :
      (n node : Node) (s s' : State)
      → get s (node_key n) ≡ none
      → success n (register r value n s).1 ≡ success node s'
      → Taken node s s'
  registered n node s s' absent h =
      let same : n ≡ node = success-node h in
      let stored : r.setex (node_key n) snowflake_node_ttl_seconds value s ≡ s' =
        sym (ap (λ (x : Bool × State). x.1) (register_free n s absent))
        ∙ ap (λ (x : Result Node × State). x.1) h in
      subst (λ m. Taken m s s') same
        (
          absent,
          ap (λ x. get x (node_key n)) (sym stored)
              ∙ rw (r.get-setex _ _ _ _ (node_key n), text_eq_self (node_key n)) refl,
        )

  find_node-Taken :
      (occupied nodes : List Node) (s s' : State) (node : Node)
      → find_node r value occupied nodes s ≡ success node s'
      → Taken node s s'
  unfolding find_node
  find_node-Taken occupied [] s s' node h = absurd (no_node h)
  find_node-Taken occupied (n ∷ nodes) s s' node h = elim (Bool-cases (contains occupied n)) [
    | inl known ↦ find_node-Taken occupied nodes s s' node (rw (known, find_node) at h)
    | inr unknown ↦ elim (Option-cases (get s (node_key n))) [
      | inl absent ↦
          registered n node s s' absent (rw (unknown, find_node, register_free n s absent) at h)
      | inr (v, held) ↦
          let same : (register r value n s).1 ≡ s =
            ap (λ (x : Bool × State). x.1) (register_held n s v held) in
          find_node-Taken occupied nodes s s' node (
            subst (λ x. find_node r value occupied nodes x ≡ success node s') same
              (rw (unknown, find_node, register_held n s v held) at h))
    ]
  ]

  -- A node that a process acquires was free in the state in which it was registered, and is held by the
  -- process from then on.
  acquire_node_id-Taken :
      (s s' : State) (node : Node)
      → acquire_node_id r value s ≡ (ok node, s')
      → (get s (node_key node) ≡ none) × (get s' (node_key node) ≡ some value)
  unfolding acquire_node_id
  acquire_node_id-Taken s s' node h = find_node-Taken _ _ s s' node h

some_not_none : {v : Text} → present v ≡ none → ⊥
some_not_none h = cc

-- After a process has acquired a node, another one that searches in the state that this left, with
-- any list of occupied nodes, also one from before, gets a different node.
pub find_node_other :
    (r : Server) (value other : Text) (occupied nodes : List Node) (s s' s'' : r.State)
    (node node' : Node)
    → acquire_node_id r value s ≡ (ok node, s')
    → find_node r other occupied nodes s' ≡ (ok node', s'')
    → node ≢ node'
find_node_other r value other occupied nodes s s' s'' node node' first second same =
    let held = (acquire_node_id-Taken r value s s' node first).1 in
    let free = (find_node-Taken r other occupied nodes s' s'' node' second).0 in
    some_not_none (sym (subst (λ n. r.get s' (node_key n) ≡ some value) same held) ∙ free)
