-- ===== src/Server/Sends.antt =====
-- src/pool/pool_server.go, the sends to a client: what the bounded channel takes, and that the
-- client is otherwise left as it is.
use business2api.Base.{
  ℕ, zero, suc, ◌+◌, ◌-◌, ◌≤◌, ◌≡◌, refl, [], ◌∷◌, length, length-append, if◌then◌else◌, min, arith,
}
use business2api.Server.{
  WsClient, WsMessage, has_room, try_send, push, send_registers, one_account, send_capacity,
}

-- The client `after` is `before` with further messages in its channel, `sent` of them, and the
-- channel has not grown past its bound.
pub record Sent (sent : ℕ) (before after : WsClient) : Type 0 where
  pub same_id : after.id ≡ before.id
  pub same_life : after.is_alive ≡ before.is_alive
  pub same_threads : after.max_threads ≡ before.max_threads
  pub longer : length after.send ≡ length before.send + sent
  pub bounded : sent ≤ send_capacity - length before.send

pub none-Sent : (client : WsClient) → Sent 0 client client
none-Sent client = record {
  same_id = refl;
  same_life = refl;
  same_threads = refl;
  longer = omega arith;
  bounded = omega arith;
}

pub Sent-trans : (m n : ℕ) (a b c : WsClient) → Sent m a b → Sent n b c → Sent (m + n) a c
Sent-trans m n a b c h k = ground (
  arith, h.same_id, h.same_life, h.same_threads, h.longer, h.bounded, k.same_id, k.same_life,
  k.same_threads, k.longer, k.bounded,
)

pub try_send-Sent :
    (msg : WsMessage) (client : WsClient)
    → Sent (if (try_send msg client).1 then 1 else 0) client (try_send msg client).0
unfolding try_send has_room
try_send-Sent msg client = ground (arith, length-append client.send (msg ∷ []), none-Sent client)

module _ (now : ℕ) where
  pub send_registers-Sent :
      (n : ℕ) (client : WsClient) → let r = send_registers now n client in Sent r.1 client r.0
  unfolding send_registers
  send_registers-Sent zero client = none-Sent client
  send_registers-Sent (suc n) client =
      let msg = one_account now in
      Sent-trans _ _ client (try_send msg client).0 _ (try_send-Sent msg client)
        (send_registers-Sent n (try_send msg client).0)

  -- The channel takes register tasks up to its bound.
  pub send_registers-room :
      (n : ℕ) (client : WsClient)
      → (send_registers now n client).1 ≡ min n (send_capacity - length client.send)
  unfolding send_registers try_send has_room
  send_registers-room zero client = omega arith
  send_registers-room (suc n) client = ground (
    arith,
    send_registers-room n client,
    send_registers-room n (push (one_account now) client),
    length-append client.send (one_account now ∷ []),
  )
