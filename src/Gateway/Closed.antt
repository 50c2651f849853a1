-- ===== src/Gateway/Closed.antt =====
-- What a disconnection closes.
use fbapy.Base.{
  ℕ, ◌≡◌, refl, ap, ◌∙◌, ◌≢◌, true, false, none, some, [], ◌∷◌, ◌++◌, ◌==◌, arith, if_true,
  if_false, ==_self,
}
use fbapy.Base.Text.{Text, text_eq_self}
use fbapy.Base.Exec.{ok, bind-pure, ◌>>=◌}
use fbapy.Pool.{Connection, get_connection, remove_connection}
use fbapy.Pool.Lookup.{get_connection-remove_connection}
use fbapy.Gateway.{
  Remote, World, pool_get, pool_remove, is_other, remove_known, close_removed, remove,
  safe_disconnect,
}

module _ (r : Remote) where
  -- A disconnection that finds a connection.
  remove_found :
      (c : ℕ) (uid : Text) (handle : ℕ) (conn : Connection) (w : World r)
      → get_connection (c ∷ uid) w.pool ≡ ok (some conn)
      → safe_disconnect r (c ∷ uid) handle w ≡ remove_known r (c ∷ uid) (some handle) (some conn) w
  unfolding safe_disconnect remove
  remove_found c uid handle conn w h =
      bind-pure (pool_get r (c ∷ uid)) (remove_known r (c ∷ uid) (some handle)) w
        (ap (λ x. (x, w)) h)

  removed :
      (c : ℕ) (uid : Text) (conn : Connection) (w : World r)
      → get_connection (c ∷ uid) w.pool ≡ ok (some conn)
      → (pool_remove r (c ∷ uid) >>= close_removed r (c ∷ uid)) w
        ≡ close_removed r
            (c ∷ uid)
            (some conn)
            (record w { pool = (remove_connection (c ∷ uid) w.pool).1 })
  removed c uid conn w h = bind-pure (pool_remove r (c ∷ uid)) (close_removed r (c ∷ uid)) w (
      ap (λ x. (x, record w { pool = (remove_connection (c ∷ uid) w.pool).1 }))
        ((get_connection-remove_connection w.pool c uid c uid).0 ∙ h))

  -- A disconnection of a user whose connection the pool holds: on another socket than the connection's it
  -- changes nothing; on its own, the pool no longer holds a connection of the user, and the socket is closed.
  safe_disconnect_lem :
      (c : ℕ) (uid : Text) (conn : Connection) (w : World r)
      → get_connection (c ∷ uid) w.pool ≡ ok (some conn)
      → ((handle : ℕ) → handle ≢ conn.handle → safe_disconnect r (c ∷ uid) handle w ≡ (ok tt, w))
        × (let after = (safe_disconnect r (c ∷ uid) conn.handle w).1 in
            (get_connection (c ∷ uid) after.pool ≡ ok none)
            × (after.closed ≡ w.closed ++ (conn.handle, 1000) ∷ []))
  safe_disconnect_lem c uid conn w h = (
    λ handle other.
        (let far : (handle == conn.handle) ≡ false = ground arith in
          remove_found c uid handle conn w h
          ∙ if_true {b = is_other r (some handle) conn} _ _ (rw far refl)),
    (let own : (conn.handle == conn.handle) ≡ true = ==_self conn.handle in
        let e =
          remove_found c uid conn.handle conn w h
          ∙ if_false {b = is_other r (some conn.handle) conn} _ _ (rw own refl)
          ∙ removed c uid conn w h in
        (
          ap (λ x. get_connection (c ∷ uid) x.1.pool) e
              ∙ (get_connection-remove_connection w.pool c uid c uid).1
              ∙ if_true _ _ (text_eq_self (c ∷ uid)),
          ap (λ x. x.1.closed) e,
        )),
  )
