-- ===== src/Gateway/Unsent.antt =====
-- What an event finds of a registration in Redis.
use fbapy.Base.{◌≡◌, refl, sym, ap, ◌∙◌, Option, none}
use fbapy.Base.Text.{Text}
use fbapy.Base.Exec.{ok, bind-ok, lift, ◌>>=◌}
use fbapy.Pool.{Connection, get_connection}
use fbapy.Gateway.{
  Socket, Remote, World, pool_get, remove_old, new_connection, set_ip, client_ip, device_ip_key,
  key_connection, begin_register, add_and_write, register, send_event,
}
use fbapy.Gateway.Registered.{or_cleanup-ok, taken}

ok_same : {a b : Option Connection} → ok a ≡ ok b → a ≡ b
ok_same h = cc

module _ (r : Remote) where
  -- The steps before the pool takes the connection leave the key of the connection alone.
  begin_register-server_of :
      (uid : Text) (socket : Socket) (w after : World r) (conn : Connection)
      → get_connection uid w.pool ≡ ok none
      → begin_register r uid socket w ≡ (ok conn, after)
      → r.server_of (key_connection uid) after.remote ≡ r.server_of (key_connection uid) w.remote
  unfolding begin_register
  begin_register-server_of uid socket w after conn empty h =
      let (old, w₁, got, h₁) = bind-ok (pool_get r uid) _ w h in
      let nobody : none ≡ old = ok_same (sym empty ∙ ap (λ x. x.0) got) in
      let at₁ : w ≡ w₁ = ap (λ x. x.1) got in
      let (_, w₂, gone, h₂) = bind-ok (remove_old r uid old) _ w₁ h₁ in
      let at₂ : w₁ ≡ w₂ = ap (λ x. x.1) (ap (λ o. remove_old r uid o w₁) nobody ∙ gone) in
      let (c, w₃, made, h₃) = bind-ok (lift (new_connection r uid socket.handle)) _ w₂ h₂ in
      let at₃ : w₂ ≡ w₃ = ap (λ x. x.1) made in
      let (_, w₄, set, h₄) = bind-ok (set_ip r uid (client_ip socket)) _ w₃ h₃ in
      let at₄ : w₄ ≡ after = ap (λ x. x.1) h₄ in
      sym (ap (λ x. r.server_of (key_connection uid) x.remote) at₄)
      ∙ sym (ap (λ x. r.server_of (key_connection uid) x.1.remote) set)
      ∙ r.server_of-set (device_ip_key uid) (client_ip socket) w₃.remote (key_connection uid) refl
      ∙ sym (ap (λ (x : World r). r.server_of (key_connection uid) x.remote) (at₁ ∙ at₂ ∙ at₃))

  -- If no connection of a user is held and Redis has no entry for them, then after a registration that
  -- succeeds Redis still has none, and an event sent to the user is dropped without an error: nothing changes.
  pub register-send_event :
      (uid data_json : Text) (socket : Socket) (w after : World r) (conn : Connection)
      → get_connection uid w.pool ≡ ok none
      → r.server_of (key_connection uid) w.remote ≡ none
      → register r uid socket w ≡ (ok conn, after)
      → (r.server_of (key_connection uid) after.remote ≡ none)
        × (send_event r uid data_json after ≡ (ok tt, after))
  unfolding register send_event
  register-send_event uid data_json socket w after conn empty unknown h =
      let body =
        or_cleanup-ok r uid ((begin_register r uid socket >>= add_and_write r) w) conn after h in
      let (conn', w', begins, ends) =
        bind-ok (begin_register r uid socket) (add_and_write r) w body in
      let (_, grown, _) = taken r conn' w' after conn ends in
      let kept = begin_register-server_of uid socket w w' conn' empty begins in
      let still : r.server_of (key_connection uid) after.remote ≡ none =
        ap (λ (x : World r). r.server_of (key_connection uid) x.remote) grown ∙ kept ∙ unknown in
      (still, rw still refl)
