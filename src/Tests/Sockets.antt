-- ===== src/Tests/Sockets.antt =====
-- Tests of the gateway of the web sockets, and of the memory of a conversation.
use fbapy.Base.{ℕ, ◌≡◌, refl, none, some, List, [], ◌∷◌, ◌++◌, arith}
use fbapy.Base.Text.{codes}
use fbapy.Base.Exec.{ok, err, key_error}
use fbapy.Pool.{Connection, add_connection, get_connection, empty}
use fbapy.Gateway.{
  Command, hset_server, expire, set, Socket, Remote, World, register, finish_register, send_event,
  begin_register, add_and_write, key_connection,
}
use fbapy.Gateway.Registered.{register-get_connection}
use fbapy.Gateway.Raced.{finish_register-get_connection}
use fbapy.Gateway.Unsent.{register-send_event}
use fbapy.Redis.Table.{Table, get, delete}
use fbapy.Redis.Table as RedisTable
use fbapy.MemoryCache.{Turn, Call, add_call, clear_call, retrieve_recent, run}
use fbapy.MemoryCache.History.{since, last, run-last, retrieve_recent-last}

-- A server of the hashes that hold a `server`, with pipelines as lists of commands; a stream keeps its
-- entries.
abbrev run_command : Command → Table → Table
run_command (hset_server k v) t = RedisTable.set k v t
run_command (expire k seconds) t = t
run_command (set k v) t = t

abbrev run_commands : List Command → Table → Table
run_commands [] t = t
run_commands (c ∷ cs) t = run_commands cs (run_command c t)

abbrev hashes : Remote
hashes = record {
  State = Table;
  Pipeline = List Command;
  server_of = λ k t. get t k;
  delete = λ k t. (ok tt, delete k t);
  xadd = λ k e t. (ok tt, (k ++ codes "/" ++ e.0, e.1) ∷ t);
  pipeline = [];
  queue = λ c p. p ++ c ∷ [];
  reset = λ p. [];
  execute = λ p t. (ok tt, run_commands p t);
  reset-pipeline = λ p. refl;
  execute-pipeline = λ t. refl;
  server_of-set = λ k v t j h. refl;
}

abbrev world : World hashes
world = record { server_id = codes "s"; pool = empty 2; remote = []; closed = []; sent = [] }

abbrev socket : Socket
socket = record {
  handle = 7;
  authorization = some (codes "Bearer u");
  real_ip = some (codes "1");
  forwarded_for = none;
  host = codes "h";
}

abbrev conn : Connection
conn = record { uid = codes "u"; handle = 7 }

abbrev taken : World hashes
taken = record world { pool = (add_connection conn (empty 2)).1 }

registered : register hashes (codes "u") socket world ≡ (ok conn, taken)
unfolding register begin_register get_connection add_and_write add_connection
registered = refl

register-get_connection_example :
    (get_connection (codes "u") taken.pool ≡ ok (some conn))
    × (conn ≡ record { uid = codes "u"; handle = 7 })
register-get_connection_example =
    register-get_connection hashes 117 [] socket world taken conn registered

held : get_connection (codes "u") taken.pool ≡ ok (some conn)
held = (register-get_connection hashes 117 [] socket world taken conn registered).0

finish_register-get_connection_example :
    let (result, after) =
      finish_register hashes (codes "u") (record { uid = codes "u"; handle = 8 }) taken in
    (result ≡ err key_error)
    × (get_connection (codes "u") after.pool ≡ ok none)
    × (after.closed ≡ [])
finish_register-get_connection_example =
    finish_register-get_connection hashes 117 [] 8 conn taken held

nobody : get_connection (codes "u") world.pool ≡ ok none
unfolding get_connection
nobody = refl

register-send_event_example :
    (hashes.server_of (key_connection (codes "u")) taken.remote ≡ none)
    × (send_event hashes (codes "u") (codes "e") taken ≡ (ok tt, taken))
register-send_event_example =
    register-send_event hashes (codes "u") (codes "e") socket world taken conn nobody refl
      registered

-- With an entry for the connection, the same event reaches the stream of the server.
abbrev reachable : World hashes
reachable = record world { remote = (key_connection (codes "u"), codes "s") ∷ [] }

sent_event :
    (send_event hashes (codes "u") (codes "e") reachable).1.remote
    ≡ (codes "ws:server:s/u", codes "e") ∷ reachable.remote
unfolding send_event
sent_event = refl

abbrev turn : ℕ → Turn
turn t = record { now = t; time = t; query = codes "q"; response = codes "r"; metadata = none }

abbrev calls : List Call
calls =
    add_call (turn 1) ∷ clear_call ∷ add_call (turn 2) ∷ add_call (turn 3) ∷ add_call (turn 4) ∷ []

run-last_example : run 2 (last 2 []) calls ≡ last 2 (since [] calls)
run-last_example = run-last 2 [] calls

retrieve_recent-last_example : retrieve_recent 1 (run 2 [] calls) ≡ last 1 (since [] calls)
retrieve_recent-last_example =
    retrieve_recent-last 2 1 calls (omega arith) (omega arith)
      ((omega arith, (omega arith, tt)), ((omega arith, tt), (tt, tt)))
