-- ===== src/Gateway/Registered.antt =====
-- What a registration that succeeds leaves in the pool.
use fbapy.Base.{ℕ, ◌≡◌, refl, sym, ap, subst, ◌∙◌, some, ◌∷◌, if◌then◌else◌}
use fbapy.Base.Text.{Text, text_eq, text_eq_self}
use fbapy.Base.Exec.{Result, ok, err, bind-ok, lift, key_error, capacity_error, ◌>>=◌}
use fbapy.Pool.{
  Connection, Added, added, already_exists, capacity_exceeded, add_connection, get_connection,
}
use fbapy.Pool.Lookup.{get_connection-add_connection}
use fbapy.Gateway.{
  Socket, Remote, World, pool_add, pool_get, remove_old, new_connection, set_ip, client_ip,
  begin_register, write_server, or_rollback, add_and_write, or_cleanup, register,
}

module _ (r : Remote) where
  pub or_cleanup-ok :
      (uid : Text) (x : Result Connection × World r) (conn : Connection) (after : World r)
      → or_cleanup r uid x ≡ (ok conn, after)
      → x ≡ (ok conn, after)
  or_cleanup-ok uid (ok c, w) conn after h = h
  or_cleanup-ok uid (err e, w) conn after h = absurd (cc)

  or_rollback-ok :
      (uid : Text) (x : Result (Unit {0}) × World r) (after : World r)
      → or_rollback r uid x ≡ (ok tt, after)
      → x ≡ (ok tt, after)
  or_rollback-ok uid (ok a, w) after h = h
  or_rollback-ok uid (err e, w) after h = absurd (cc)

  -- A pipeline that was reset sends nothing.
  pub write_server_lem : (uid : Text) (w : World r) → write_server r uid w ≡ (ok tt, w)
  write_server_lem uid w = rw (r.reset-pipeline _, r.execute-pipeline w.remote) refl

  added_outcome :
      (outcome : Added)
      → (elim outcome as (λ _. Result (Unit {0})) [
        | added ↦ ok tt
        | already_exists ↦ err key_error
        | capacity_exceeded ↦ err capacity_error
      ])
        ≡ ok tt
      → outcome ≡ added
  added_outcome added h = refl
  added_outcome already_exists h = absurd (cc)
  added_outcome capacity_exceeded h = absurd (cc)

  -- The connection that was begun, and the state that the pool then took it in.
  pub begun :
      (uid : Text) (socket : Socket) (w after : World r) (conn : Connection)
      → begin_register r uid socket w ≡ (ok conn, after)
      → new_connection r uid socket.handle ≡ ok conn
  unfolding begin_register
  begun uid socket w after conn h =
      let (old, w₁, _, h₁) = bind-ok (pool_get r uid) _ w h in
      let (_, w₂, _, h₂) = bind-ok (remove_old r uid old) _ w₁ h₁ in
      let (c, w₃, made, h₃) = bind-ok (lift (new_connection r uid socket.handle)) _ w₂ h₂ in
      let (_, w₄, _, h₄) = bind-ok (set_ip r uid (client_ip socket)) _ w₃ h₃ in
      ap (λ x. x.0) made ∙ ap (λ x. x.0) h₄

  pub taken :
      (conn : Connection) (w after : World r) (answer : Connection)
      → add_and_write r conn w ≡ (ok answer, after)
      → ((add_connection conn w.pool).0 ≡ added)
        × (after ≡ record w { pool = (add_connection conn w.pool).1 })
        × (answer ≡ conn)
  unfolding add_and_write
  taken conn w after answer h =
      let (_, w₁, grown, h₁) = bind-ok (pool_add r conn) _ w h in
      let (_, w₂, written, h₂) =
        bind-ok (λ v. or_rollback r conn.uid (write_server r conn.uid v)) _ w₁ h₁ in
      let sent = or_rollback-ok conn.uid (write_server r conn.uid w₁) w₂ written in
      let nothing = write_server_lem conn.uid w₁ in
      let outcome = added_outcome (add_connection conn w.pool).0 (ap (λ x. x.0) grown) in
      let first : record w { pool = (add_connection conn w.pool).1 } ≡ w₁ = ap (λ x. x.1) grown in
      let second : w₁ ≡ w₂ = ap (λ x. x.1) (sym nothing ∙ sent) in
      let third : w₂ ≡ after = ap (λ x. x.1) h₂ in (outcome, sym (first ∙ second ∙ third), cc)

  -- A registration that succeeds gives a connection of the user on the socket, and the pool then holds that
  -- connection for the user.
  pub register-get_connection :
      (c : ℕ) (uid : Text) (socket : Socket) (w after : World r) (conn : Connection)
      → register r (c ∷ uid) socket w ≡ (ok conn, after)
      → (get_connection (c ∷ uid) after.pool ≡ ok (some conn))
        × (conn ≡ record { uid = c ∷ uid; handle = socket.handle })
  unfolding register
  register-get_connection c uid socket w after conn h =
      let body =
        or_cleanup-ok (c ∷ uid) ((begin_register r (c ∷ uid) socket >>= add_and_write r) w) conn
          after h in
      let (conn', w', begins, ends) =
        bind-ok (begin_register r (c ∷ uid) socket) (add_and_write r) w body in
      let made = begun (c ∷ uid) socket w w' conn' begins in
      let (outcome, grown, same) = taken conn' w' after conn ends in
      let fresh : Connection = record { uid = c ∷ uid; handle = socket.handle } in
      let made' : fresh ≡ conn' = cc in
      let looked = get_connection-add_connection conn' w'.pool c uid outcome in
      let own =
        subst
          (λ (x : Connection).
            (if text_eq x.uid (c ∷ uid) then ok (some x) else get_connection (c ∷ uid) w'.pool)
            ≡ ok (some x))
          made' (rw (text_eq_self (c ∷ uid)) refl) in
      (
        ap (λ (x : World r). get_connection (c ∷ uid) x.pool) grown
            ∙ looked
            ∙ own
            ∙ ap (λ (x : Connection). ok (some x)) (sym same),
        same ∙ sym made',
      )
