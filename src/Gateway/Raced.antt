-- ===== src/Gateway/Raced.antt =====
-- Two registrations of one user at the same time.
use fbapy.Base.{ℕ, ◌≡◌, refl, ap, ◌∙◌, true, none, some, List, [], ◌∷◌, arith, if_true}
use fbapy.Base.Text.{Text, text_eq_self}
use fbapy.Base.Exec.{ok, err, key_error, bind-raise}
use fbapy.Pool.{Connection, Pool, contains, find, add_connection, get_connection, remove_connection}
use fbapy.Pool.Lookup.{get_connection-remove_connection}
use fbapy.Gateway.{
  Remote, World, pool_add, or_cleanup, add_and_write, finish_register, safe_cleanup,
}

found_contains :
    (uid : Text) (cs : List Connection) (c : Connection)
    → find uid cs ≡ some c
    → contains cs uid ≡ true
found_contains uid [] c h = absurd (cc)
found_contains uid (d ∷ cs) c h = ground (arith, found_contains uid cs c)

module _ (r : Remote) where
  pool_add-known :
      (conn : Connection) (w : World r)
      → contains w.pool.connection_map conn.uid ≡ true
      → pool_add r conn w ≡ (err key_error, w)
  unfolding add_connection
  pool_add-known conn w known = rw known refl

  finish_known :
      (uid : Text) (conn : Connection) (w : World r)
      → contains w.pool.connection_map conn.uid ≡ true
      → finish_register r uid conn w ≡ (err key_error, safe_cleanup r uid w)
  unfolding finish_register add_and_write
  finish_known uid conn w known =
      ap (or_cleanup r uid) (bind-raise (pool_add r conn) _ w (pool_add-known conn w known))

  cleanup_pool :
      (uid : Text) (w : World r)
      → ((safe_cleanup r uid w).pool ≡ (remove_connection uid w.pool).1)
        × ((safe_cleanup r uid w).closed ≡ w.closed)
  unfolding safe_cleanup
  cleanup_pool uid w = (refl, refl)

  found_known :
      (c : ℕ) (uid : Text) (other : Connection) (p : Pool)
      → get_connection (c ∷ uid) p ≡ ok (some other)
      → contains p.connection_map (c ∷ uid) ≡ true
  unfolding get_connection
  found_known c uid other p h = found_contains (c ∷ uid) p.connection_map other (cc)

  -- If the pool holds a connection of the user when a registration that has begun comes to its end, then
  -- the registration fails, and what it cleans up is the other connection: the pool no longer holds one of the
  -- user, and no socket is closed.
  pub finish_register-get_connection :
      (c : ℕ) (uid : Text) (handle : ℕ) (other : Connection) (w : World r)
      → get_connection (c ∷ uid) w.pool ≡ ok (some other)
      → let (result, after) =
          finish_register r (c ∷ uid) (record { uid = c ∷ uid; handle = handle }) w in
        (result ≡ err key_error)
        × (get_connection (c ∷ uid) after.pool ≡ ok none)
        × (after.closed ≡ w.closed)
  finish_register-get_connection c uid handle other w h =
      let known = found_known c uid other w.pool h in
      let e = finish_known (c ∷ uid) (record { uid = c ∷ uid; handle = handle }) w known in
      let (pool, closed) = cleanup_pool (c ∷ uid) w in
      let gone = (get_connection-remove_connection w.pool c uid c uid).1 in
      (
        ap (λ x. x.0) e,
        ap (λ x. get_connection (c ∷ uid) x.1.pool) e
            ∙ ap (get_connection (c ∷ uid)) pool
            ∙ gone
            ∙ if_true _ _ (text_eq_self (c ∷ uid)),
        ap (λ x. x.1.closed) e ∙ closed,
      )
