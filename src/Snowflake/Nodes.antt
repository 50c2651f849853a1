-- ===== src/Snowflake/Nodes.antt =====
-- `SnowflakeNodeManager` and `Snowflake.init` of backend/utils/snowflake.py: the node of a generator is a
-- key in Redis that one process alone can create. The heartbeat, which keeps the key alive, is
-- outside of the model.
pub mod Acquire
use fbapy.Base.{
  ℕ, zero, suc, ◌≡◌, Bool, true, false, not, ◌&&◌, ◌||◌, Option, none, some, List, [], ◌∷◌, ◌++◌,
  ◌==◌, if◌then◌else◌, any, map, leb, ltb, length,
}
use fbapy.Base.Int.{ℤ, pos, negsuc, leb_ℤ}
use fbapy.Base.Text.{Text, text_eq, str, codes, split_on}
use fbapy.Base.Numerals.{int_of}
use fbapy.Base.Exec.{Result, ok, err, Exec, server_error, pure, raise}
use fbapy.Conf.{snowflake_redis_prefix, snowflake_node_ttl_seconds}
use fbapy.Redis.{Server}
use fbapy.Snowflake.{Snowflake}
use fbapy.Snowflake.Config.{max_worker_id, max_datacenter_id}

-- A datacenter and a worker.
abbrev pub Node : Type 0
Node = ℕ × ℕ

-- `f'{settings.SNOWFLAKE_REDIS_PREFIX}:nodes'`
abbrev pub node_redis_prefix : Text
node_redis_prefix = snowflake_redis_prefix ++ codes ":nodes"

abbrev pub node_key : Node → Text
node_key (d, w) = node_redis_prefix ++ 58 ∷ (str d ++ 58 ∷ str w)

pub last_two : List Text → Option (Text × Text)
last_two [] = none
last_two (a ∷ []) = none
last_two (a ∷ b ∷ []) = some (a, b)
last_two (a ∷ b ∷ c ∷ rest) = last_two (b ∷ c ∷ rest)

both_ints : Option ℕ → Option ℕ → List Node → List Node
both_ints (some d) (some w) nodes = (d, w) ∷ nodes
both_ints _ _ nodes = nodes

-- One key of the scan: fewer than five parts, or a part that is no number, and it is passed over.
pub add_node : Option (Text × Text) → List Node → List Node
unfolding both_ints
add_node none nodes = nodes
add_node (some (d, w)) nodes = both_ints (int_of d) (int_of w) nodes

unfoldable pub occupied_nodes : List Text → List Node
occupied_nodes [] = []
occupied_nodes (key ∷ keys) =
    let rest = occupied_nodes keys in
    let parts = split_on 58 key in
    if leb 5 (length parts) then add_node (last_two parts) rest else rest

abbrev pub contains : List Node → Node → Bool
contains nodes (d, w) = any (λ (n : Node). n.0 == d && n.1 == w) nodes

-- `range(n)`, and the pairs of the two loops in their order
unfoldable pub count_up : ℕ → ℕ → List ℕ
count_up from zero = []
count_up from (suc n) = from ∷ count_up (suc from) n

unfoldable pub candidates : List ℕ → List ℕ → List Node
candidates [] workers = []
candidates (d ∷ ds) workers = map (λ w. (d, w)) workers ++ candidates ds workers

abbrev pub all_nodes : List Node
all_nodes = candidates (count_up 0 (suc max_datacenter_id)) (count_up 0 (suc max_worker_id))

module _ (r : Server) (value : Text) where
  open r use {State, get, setex, scan_iter}

  -- SET with `nx=True` and `ex`: the key is written only if it is absent. `value` names the process.
  unfoldable pub register : Node → State → Bool × State
  register node s = elim (get s (node_key node)) [
    | some held ↦ (false, s)
    | none ↦ (true, setex (node_key node) snowflake_node_ttl_seconds value s)
  ]

  -- The search: the snapshot `occupied` may be older than the state.
  unfoldable pub find_node : List Node → List Node → State → Result Node × State
  find_node occupied [] s = (err (server_error "无可用的雪花算法节点，节点已耗尽"), s)
  find_node occupied (node ∷ nodes) s = elim (contains occupied node) [
    | true ↦ find_node occupied nodes s
    | false ↦
        let (free, s') = register node s in
        elim free [ true ↦ (ok node, s') | false ↦ find_node occupied nodes s' ]
  ]

  unfoldable pub acquire_node_id : Exec State Node
  acquire_node_id s =
      find_node (occupied_nodes (scan_iter (node_redis_prefix ++ 58 ∷ []) s)) all_nodes s

  abbrev pub in_range : ℤ → ℕ → Bool
  in_range n high = leb_ℤ (pos 0) n && leb_ℤ n (pos high)

  -- The two checks, and the flag that ends `init`.
  pub finish_init : ℤ → ℤ → Snowflake → Result (Unit {0}) × Snowflake
  finish_init d w s =
      let s' = record s { datacenter_id = some d; worker_id = some w } in
      if not (in_range d max_datacenter_id)
      then (err (server_error "雪花算法数据中心配置失败，请联系系统管理员"), s')
      else if not (in_range w max_worker_id)
      then (err (server_error "雪花算法工作机器配置失败，请联系系统管理员"), s')
      else (ok tt, record s' { initialized = true })

  pub init_acquired : Result Node × State → Snowflake → Result (Unit {0}) × Snowflake × State
  init_acquired (ok (d, w), s) g =
      let (result, g') = finish_init (pos d) (pos w) (record g { auto_allocated = true }) in
      (result, g', s)
  init_acquired (err e, s) g = (err e, g, s)

  -- `SNOWFLAKE_DATACENTER_ID` and `SNOWFLAKE_WORKER_ID` are both set, or both unset.
  pub init_node : Option ℤ → Option ℤ → Snowflake → State → Result (Unit {0}) × Snowflake × State
  init_node (some d) (some w) g s = let (result, g') = finish_init d w g in (result, g', s)
  init_node none none g s = init_acquired (acquire_node_id s) g
  init_node _ _ g s = (err (server_error "雪花算法配置失败，请联系系统管理员"), g, s)

  unfoldable pub init :
      Option ℤ → Option ℤ → Snowflake → State → Result (Unit {0}) × Snowflake × State
  init datacenter worker g s =
      if g.initialized then (ok tt, g, s) else init_node datacenter worker g s

  -- `release` once the heartbeat is cancelled.
  pub release : Option ℤ → Option ℤ → State → State
  release (some (pos d)) (some (pos w)) s = r.delete (node_key (d, w)) s
  release _ _ s = s

  unfoldable pub shutdown : Snowflake → State → State
  shutdown g s = if g.auto_allocated then release g.datacenter_id g.worker_id s else s
