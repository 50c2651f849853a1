-- ===== src/Tests/Ids.antt =====
-- Tests of the identifiers, the nodes and the prefixes of keys.
use fbapy.Base.Numerals.{int_of}
use fbapy.Base.{
  none, some, refl, ◌≡◌, ℕ, ◌+◌, ◌*◌, ◌≤◌, ◌≢◌, true, false, List, [], ◌∷◌, arith, All, inl,
}
use fbapy.Base.Int.{ℤ, pos, negsuc, int_or, shl, ◌-ℤ◌}
use fbapy.Base.Text.{strip, codes, str}
use fbapy.Base.Exec.{ok}
use fbapy.Redis.Table.{table_server, Table}
use fbapy.Snowflake.{Snowflake, generated, generate, issue, parse}
use fbapy.Snowflake.Config.{epoch}
use fbapy.Snowflake.Compose.{IsValid}
use fbapy.Snowflake.Issue.{Increasing, issue-Increasing}
use fbapy.Snowflake.Returns.{generate_returns}
use fbapy.Snowflake.Parse.{parse-generate, generate_nodes}
use fbapy.Snowflake.Nodes.{
  Node, occupied_nodes, candidates, count_up, register, find_node, acquire_node_id, all_nodes,
}
use fbapy.Snowflake.Nodes.Acquire.{find_node_other}

-- The generator of the node (1, 2), ready to issue.
abbrev ready : Snowflake
ready = record {
  datacenter_id = some (pos 1);
  worker_id = some (pos 2);
  sequence = 0;
  last_timestamp = negsuc 0;
  initialized = true;
  auto_allocated = false;
}

ready-IsValid : IsValid 1 2 ready
ready-IsValid = record {
  ready = refl;
  datacenter = refl;
  worker = refl;
  datacenter_fits = omega arith;
  worker_fits = omega arith;
  sequence_fits = omega arith;
  since_epoch = refl;
}

abbrev at : ℕ
at = epoch + 5

-- Two readings of one millisecond.
abbrev twice : List ℕ
twice = at ∷ at ∷ []

twice-since : All (λ t. epoch ≤ t) twice
twice-since = (omega arith, (omega arith, tt))

issue-Increasing_example : Increasing (issue 2 ready twice)
issue-Increasing_example = issue-Increasing 1 2 2 ready twice ready-IsValid twice-since

generate_returns_example :
    (id : ℤ) × (s' : Snowflake) × (rest : List ℕ) × (generate ready twice ≡ generated id s' rest)
generate_returns_example =
    generate_returns 1 2 ready ready-IsValid at (at ∷ []) at (omega arith) (inl refl) (omega arith)

abbrev after : Snowflake
after = record ready { last_timestamp = pos at }

abbrev first_id : ℤ
first_id = pos (5 * 4194304 + 131072 + 8192)

generated_first : generate ready twice ≡ generated first_id after (at ∷ [])
unfolding generate int_or shl ◌-ℤ◌
generated_first = refl

parse-generate_example :
    parse first_id
    ≡ record { timestamp = pos at; datacenter_id = pos 1; worker_id = pos 2; sequence = pos 0 }
parse-generate_example =
    parse-generate 1 2 ready twice first_id after (at ∷ []) ready-IsValid twice-since
      generated_first

abbrev one : ℕ
one = 1

abbrev two : ℕ
two = 2

generate_nodes_example : (one ≡ one) × (two ≡ two)
generate_nodes_example =
    generate_nodes 1 2 1 2 ready ready twice twice first_id after after (at ∷ []) (at ∷ [])
      ready-IsValid ready-IsValid twice-since twice-since generated_first generated_first

abbrev keys : Table
keys = (codes "a:1:x", codes "p") ∷ (codes "a:1:y", codes "q") ∷ (codes "b:1:x", codes "r") ∷ []

-- The process `p` starts on an empty server and the process `q` with a list from before.
abbrev free : Table
free = []

abbrev held : Table
held = (codes "fba:snowflake:nodes:0:0", codes "p") ∷ []

abbrev both : Table
both = (codes "fba:snowflake:nodes:0:1", codes "q") ∷ held

acquired : acquire_node_id table_server (codes "p") free ≡ (ok (0, 0), held)
unfolding acquire_node_id find_node register occupied_nodes candidates count_up str
acquired = refl

acquired_next : find_node table_server (codes "q") [] all_nodes held ≡ (ok (0, 1), both)
unfolding find_node register candidates count_up str
acquired_next = refl

abbrev node₀ : Node
node₀ = (0, 0)

abbrev node₁ : Node
node₁ = (0, 1)

find_node_other_example : node₀ ≢ node₁
find_node_other_example =
    find_node_other table_server (codes "p") (codes "q") [] all_nodes free held both node₀ node₁
      acquired acquired_next

-- `int` of texts with spaces, a plus and underscores.
read_numbers :
    (int_of (codes " +1_0 ") ≡ some 10)
    × (int_of (codes "1__0") ≡ none)
    × (int_of (codes "_1") ≡ none)
unfolding int_of strip
read_numbers = (refl, refl, refl)
