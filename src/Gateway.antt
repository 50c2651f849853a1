-- ===== src/Gateway.antt =====
-- `ConnectionGateway` of backend/common/wscore/gateway.py: the life of a web socket connection over the pool
-- and Redis, and the events that reach it. The services that a connection holds for speech are not part
-- of it.
pub mod Registered
pub mod Raced
pub mod Unsent
pub mod Closed
use fbapy.Base.{
  ℕ, ◌≡◌, Bool, true, false, not, ◌&&◌, Option, none, some, List, [], ◌∷◌, ◌++◌, ◌==◌, is_empty,
  any, if◌then◌else◌,
}
use fbapy.Base.Text.{Text, text_eq, codes, split_on, strip, remove_all}
use fbapy.Base.Exec.{
  Result, ok, err, Error, Exec, value_error, key_error, capacity_error, pure, raise, lift, ◌>>=◌,
  ◌>>◌,
}
use fbapy.Pool.{
  Connection, Pool, Added, added, already_exists, capacity_exceeded, add_connection,
  remove_connection, get_connection,
}

-- What a new web socket brings with it.
pub record Socket : Type 0 where
  pub handle : ℕ
  pub authorization : Option Text
  pub real_ip : Option Text
  pub forwarded_for : Option Text
  pub host : Text

-- A command that a pipeline buffers.
pub data Command : Type 0 where
  hset_server : Text → Text → Command
  expire : Text → ℕ → Command
  set : Text → Text → Command

-- The Redis client, whose requests may fail. A pipeline buffers commands until `execute` sends them;
-- `reset`, which leaving an `async with` calls, empties it, and an empty pipeline sends nothing.
-- `server_of` is the field `server` of the hash of a key.
pub record Remote : Type 1 where
  pub State : Type 0
  pub Pipeline : Type 0
  pub server_of : Text → State → Option Text
  pub delete : Text → State → Result (Unit {0}) × State
  pub xadd : Text → Text × Text → State → Result (Unit {0}) × State
  pub pipeline : Pipeline
  pub queue : Command → Pipeline → Pipeline
  pub reset : Pipeline → Pipeline
  pub execute : Pipeline → State → Result (Unit {0}) × State
  pub reset-pipeline : (p : Pipeline) → reset p ≡ pipeline
  pub execute-pipeline : (s : State) → execute pipeline s ≡ (ok tt, s)
  -- SET changes no hash of another key.
  pub server_of-set :
      (k v : Text) (s : State) (j : Text)
      → text_eq k j ≡ false
      → server_of j (execute (queue (set k v) pipeline) s).1 ≡ server_of j s

abbrev pub key_connection : Text → Text
key_connection uid = codes "ws:connection:" ++ uid

abbrev pub key_server : Text → Text
key_server server_id = codes "ws:server:" ++ server_id

-- `DeviceStateRepository.prefix` and the field `ip`
abbrev pub device_ip_key : Text → Text
device_ip_key uid = codes "device:" ++ uid ++ codes ":ip"

-- `ip or ...`: an empty text counts as none.
abbrev pub or_else : Option Text → Text → Text
or_else none other = other
or_else (some []) other = other
or_else (some (c ∷ t)) other = c ∷ t

abbrev pub first_of : List Text → Text
first_of [] = []
first_of (t ∷ ts) = t

abbrev pub optional_text : Option Text → Text
optional_text none = []
optional_text (some t) = t

abbrev pub client_ip : Socket → Text
client_ip socket = or_else socket.real_ip (
    or_else (some (strip (first_of (split_on 44 (optional_text socket.forwarded_for)))))
      socket.host)

-- `_validate_token`: without a token it is the one for tests, so none is refused.
abbrev pub validate_token : Socket → Text
validate_token socket =
    or_else (some (remove_all (codes "Bearer ") (optional_text socket.authorization)))
      (codes "jiqid_test_123456")

-- `except CapacityExceededError`
abbrev pub is_capacity : Error → Bool
is_capacity e = elim e [ capacity_error ↦ true | _ ↦ false ]

module _ (r : Remote) where
  -- The pool, Redis, the sockets that were closed with their codes, and what was handed to a socket.
  pub record World : Type 0 where
    pub server_id : Text
    pub pool : Pool
    pub remote : r.State
    pub closed : List (ℕ × ℕ)
    pub sent : List (ℕ × Text)

  abbrev pub on_remote : {A : Type 0} → (r.State → Result A × r.State) → Exec World A
  on_remote f w = let (a, s) = f w.remote in (a, record w { remote = s })

  -- `terminate_connection`
  abbrev pub close : ℕ → ℕ → World → World
  close handle code w = record w { closed = w.closed ++ (handle, code) ∷ [] }

  -- A block whose exceptions are suppressed.
  abbrev pub suppress : {A : Type 0} → Exec World A → World → World
  suppress m w = (m w).1

  abbrev pub pool_add : Connection → Exec World (Unit {0})
  pool_add conn w =
      let (outcome, pool) = add_connection conn w.pool in
      (
        elim outcome [
          | added ↦ ok tt
          | already_exists ↦ err key_error
          | capacity_exceeded ↦ err capacity_error
        ],
        record w { pool = pool },
      )

  abbrev pub pool_remove : Text → Exec World (Option Connection)
  pool_remove uid w =
      let (conn, pool) = remove_connection uid w.pool in (conn, record w { pool = pool })

  abbrev pub pool_get : Text → Exec World (Option Connection)
  pool_get uid w = (get_connection uid w.pool, w)

  unfoldable pub safe_cleanup : Text → World → World
  safe_cleanup uid w =
      suppress (on_remote (r.delete (key_connection uid))) (suppress (pool_remove uid) w)

  -- The end of `_remove`: the connection is closed, and its key deleted.
  abbrev pub close_removed : Text → Option Connection → Exec World (Unit {0})
  close_removed uid none w = (ok tt, w)
  close_removed uid (some conn) w =
      (ok tt, suppress (on_remote (r.delete (key_connection uid))) (close conn.handle 1000 w))

  -- `websocket is not None and websocket != conn.websocket`
  abbrev pub is_other : Option ℕ → Connection → Bool
  is_other none conn = false
  is_other (some handle) conn = not (handle == conn.handle)

  abbrev pub remove_known : Text → Option ℕ → Option Connection → Exec World (Unit {0})
  remove_known uid websocket none w = (ok tt, w)
  remove_known uid websocket (some conn) w =
      if is_other websocket conn then (ok tt, w) else (pool_remove uid >>= close_removed uid) w

  unfoldable pub remove : Text → Option ℕ → Exec World (Unit {0})
  remove uid websocket = pool_get uid >>= remove_known uid websocket

  -- `safe_disconnect`: the pool refuses an empty uid with the same error.
  unfoldable pub safe_disconnect : Text → ℕ → Exec World (Unit {0})
  safe_disconnect [] handle = raise value_error
  safe_disconnect (c ∷ uid) handle = remove (c ∷ uid) (some handle)

  abbrev pub remove_old : Text → Option Connection → Exec World (Unit {0})
  remove_old uid none = pure tt
  remove_old uid (some old) = remove uid none

  -- `ClientConnection(uid, websocket)`
  abbrev pub new_connection : Text → ℕ → Result Connection
  new_connection [] handle = err value_error
  new_connection (c ∷ uid) handle = ok (record { uid = c ∷ uid; handle = handle })

  -- `conn.device_repo.set_fields(ip=ip)`: `execute` is called before the pipeline is left.
  abbrev pub set_ip : Text → Text → Exec World (Unit {0})
  set_ip uid ip = on_remote (r.execute (r.queue (set (device_ip_key uid) ip) r.pipeline))

  -- The steps of `_register` before the pool takes the connection.
  unfoldable pub begin_register : Text → Socket → Exec World Connection
  begin_register uid socket = do
    old ← pool_get uid
    remove_old uid old
    conn ← lift (new_connection uid socket.handle)
    set_ip uid (client_ip socket)
    pure conn

  -- The commands are buffered, the `async with` is left, which resets the pipeline, and `execute` follows.
  abbrev pub write_server : Text → Exec World (Unit {0})
  write_server uid w =
      on_remote
        (r.execute (
          r.reset (
            r.queue (expire (key_connection uid) 86400)
              (r.queue (hset_server (key_connection uid) w.server_id) r.pipeline))))
        w

  -- Where Redis fails, the pool lets the connection go again.
  abbrev pub or_rollback : Text → Result (Unit {0}) × World → Result (Unit {0}) × World
  or_rollback uid (ok a, w) = (ok a, w)
  or_rollback uid (err e, w) = (err e, suppress (pool_remove uid) w)

  unfoldable pub add_and_write : Connection → Exec World Connection
  add_and_write conn = do
    pool_add conn
    (λ w. or_rollback conn.uid (write_server conn.uid w))
    pure conn

  -- The handlers of `_register`: a full pool is reported, all else is cleaned up after.
  abbrev pub or_cleanup : Text → Result Connection × World → Result Connection × World
  or_cleanup uid (ok conn, w) = (ok conn, w)
  or_cleanup uid (err e, w) = (err e, if is_capacity e then w else safe_cleanup uid w)

  -- What follows once `begin_register` has returned.
  unfoldable pub finish_register : Text → Connection → Exec World Connection
  finish_register uid conn w = or_cleanup uid (add_and_write conn w)

  unfoldable pub register : Text → Socket → Exec World Connection
  register uid socket w = or_cleanup uid ((begin_register uid socket >>= add_and_write) w)

  -- `connect`: how a refused socket is closed.
  abbrev pub or_terminate : ℕ → Result Connection × World → Result Connection × World
  or_terminate handle (ok conn, w) = (ok conn, w)
  or_terminate handle (err e, w) = (err e, close handle (if is_capacity e then 4002 else 1011) w)

  unfoldable pub connect : Socket → Exec World Connection
  connect socket w = or_terminate socket.handle (register (validate_token socket) socket w)

  abbrev pub send_to : Option Text → Text → Text → Exec World (Unit {0})
  send_to none uid data_json w = (ok tt, w)
  send_to (some server) uid data_json w = on_remote (r.xadd (key_server server) (uid, data_json)) w

  unfoldable pub send_event : Text → Text → Exec World (Unit {0})
  send_event uid data_json w = send_to (r.server_of (key_connection uid) w.remote) uid data_json w
