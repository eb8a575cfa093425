-- ===== src/Server/Assign/Shares.antt =====
-- src/pool/pool_server.go, `assignTask`: the tasks of one client, and the deletion of the accounts
-- that have failed.
use business2api.Base.{
  ℕ, zero, suc, ◌+◌, ◌-◌, ◌≤◌, ◌≡◌, refl, List, [], ◌∷◌, ◌++◌, length, if◌then◌else◌, min, arith,
  add_int32, Bool-cases, inl, inr,
}
use business2api.Pool.Account.{Account, Settings}
use business2api.Pool.Worker.{Outside}
use business2api.Server.{
  PoolServer, WsClient, WsMessage, Payload, task_register, has_room, one_account, send_registers,
  need_count, shortage, send_capacity, threads, try_send,
}
use business2api.Server.Sends.{
  Sent, none-Sent, Sent-trans, try_send-Sent, send_registers-Sent, send_registers-room,
}
use business2api.Server.Assign.{
  send_refreshes, refresh_accounts, refresh_message, assign_registers, assign_task, purge,
}

-- How many messages of a channel are register tasks.
abbrev pub weight : Payload → ℕ
weight (task_register count) = 1
weight _ = 0

abbrev pub registers_in : List WsMessage → ℕ
registers_in [] = 0
registers_in (msg ∷ msgs) = weight msg.payload + registers_in msgs

registers_in-append :
    (xs ys : List WsMessage) → registers_in (xs ++ ys) ≡ registers_in xs + registers_in ys
registers_in-append [] ys = omega arith
registers_in-append (x ∷ xs) ys = omega (arith, registers_in-append xs ys)

try_send-registers :
    (msg : WsMessage) (client : WsClient)
    → let r = try_send msg client in
      registers_in r.0.send ≡ registers_in client.send + (if r.1 then weight msg.payload else 0)
unfolding try_send has_room
try_send-registers msg client = ground (arith, registers_in-append client.send (msg ∷ []))

send_registers-registers :
    (now n : ℕ) (client : WsClient)
    → let r = send_registers now n client in registers_in r.0.send ≡ registers_in client.send + r.1
unfolding send_registers
send_registers-registers now zero client = omega arith
send_registers-registers now (suc n) client =
    let msg = one_account now in
    omega
      (arith, try_send-registers msg client, send_registers-registers now n (try_send msg client).0)

-- The tasks that took a client from `before` to `after`: at most `limit` of them, of which at most
-- `need` are register tasks. Those are the register tasks that its channel holds more than before,
-- and the counter has been moved on by their number.
pub record Given (limit need counter counter' : ℕ) (before after : WsClient) : Type 0 where
  pub registers : ℕ
  pub grown : length before.send ≤ length after.send
  pub within : length after.send ≤ length before.send + limit
  pub needed : registers ≤ need
  pub sent : registers_in after.send ≡ registers_in before.send + registers
  pub queued : length before.send + registers ≤ length after.send
  pub counted : counter' ≡ add_int32 counter registers

module _ (s : Settings) (out : Outside) (now : ℕ) where
  send_refreshes-Sent :
      (heap : ℕ → Account) (ps : List ℕ) (client : WsClient)
      → let r = send_refreshes s out now heap ps client in Sent r.1 client r.0 × (r.1 ≤ length ps)
  unfolding send_refreshes
  send_refreshes-Sent heap [] client = (none-Sent client, omega arith)
  send_refreshes-Sent heap (p ∷ ps) client =
      let sent = try_send (refresh_message now (heap p)) client in
      let rest = send_refreshes-Sent heap ps sent.0 in
      (
        Sent-trans _ _ client sent.0 _ (try_send-Sent (refresh_message now (heap p)) client) rest.0,
        ground (arith, rest.1),
      )

  send_refreshes-registers :
      (heap : ℕ → Account) (ps : List ℕ) (client : WsClient)
      → registers_in (send_refreshes s out now heap ps client).0.send ≡ registers_in client.send
  unfolding send_refreshes
  send_refreshes-registers heap [] client = refl
  send_refreshes-registers heap (p ∷ ps) client =
      let msg = refresh_message now (heap p) in
      ground (
        arith,
        try_send-registers msg client,
        send_refreshes-registers heap ps (try_send msg client).0,
      )

  refresh_accounts-le :
      (heap : ℕ → Account) (n : ℕ) (ps : List ℕ) → length (refresh_accounts s out now heap n ps) ≤ n
  unfolding refresh_accounts
  refresh_accounts-le heap zero ps = omega arith
  refresh_accounts-le heap (suc n) [] = omega arith
  refresh_accounts-le heap (suc n) (p ∷ ps) =
      ground (arith, refresh_accounts-le heap n ps, refresh_accounts-le heap (suc n) ps)

  assign_registers-Sent :
      (slots : ℕ) (client : WsClient) (ps : PoolServer)
      → let r = assign_registers s out now slots client ps in
        let sent =
          min (min slots (shortage (need_count ps))) (send_capacity - length client.send) in
        Sent sent client r.0
        × (registers_in r.0.send ≡ registers_in client.send + sent)
        × (r.1.pending_register_count ≡ add_int32 ps.pending_register_count sent)
        × (r.1.pool ≡ ps.pool)
  unfolding assign_registers
  assign_registers-Sent slots client ps =
      let n = min slots (shortage (need_count ps)) in
      ground (
        arith,
        send_registers-Sent now n client,
        send_registers-registers now n client,
        send_registers-room now n client,
      )

  abbrev pub assign_base : PoolServer → PoolServer
  assign_base ps = if s.auto_delete_401 then purge s out now ps else ps

  purge-counter :
      (ps : PoolServer) → (purge s out now ps).pending_register_count ≡ ps.pending_register_count
  unfolding purge
  purge-counter ps = refl

  -- Of the threads that the refresh tasks leave, register tasks take no more than are missing.
  registers-Given :
      (sent slots : ℕ) (client refreshed : WsClient) (ps : PoolServer)
      → Sent sent client refreshed
      → registers_in refreshed.send ≡ registers_in client.send
      → sent + slots ≡ threads client
      → let r = assign_registers s out now slots refreshed ps in
        Given
          (threads client)
          (shortage (need_count ps))
          ps.pending_register_count
          r.1.pending_register_count
          client
          r.0
  registers-Given sent slots client refreshed ps h same small =
      let given = assign_registers-Sent slots refreshed ps in
      record {
        registers = _;
        grown = omega (arith, h.longer, given.0.longer);
        within = omega (arith, h.longer, given.0.longer);
        needed = omega arith;
        queued = omega (arith, h.longer, given.0.longer);
        sent = omega (arith, same, given.1);
        counted = given.2;
      }

  -- A client is never given more tasks than it has threads. The register tasks that its channel holds
  -- more than before are no more than the accounts that are missing, after the failed ones are deleted
  -- if that is asked for, and the counter of those in progress is moved on by exactly their number.
  pub assign_task-Given :
      (client : WsClient) (ps : PoolServer)
      → let r = assign_task s out now client ps in
        Given
          (threads client)
          (shortage (need_count (assign_base ps)))
          ps.pending_register_count
          r.1.pending_register_count
          client
          r.0
  unfolding assign_task
  assign_task-Given client ps =
      let heap = ps.pool.heap in
      let picked = refresh_accounts s out now heap (threads client) ps.pool.pending_accounts in
      let refreshed = send_refreshes s out now heap picked client in
      let sent = send_refreshes-Sent heap picked client in
      elim (Bool-cases s.auto_delete_401) [
        | inl on ↦
            let given =
              registers-Given 0 (threads client) client client (purge s out now ps)
                (none-Sent client) refl (omega arith) in
            simp on (rw (purge-counter ps) at given)
        | inr off ↦ simp off (
            registers-Given refreshed.1 (threads client - refreshed.1) client refreshed.0 ps sent.0
              (send_refreshes-registers heap picked client)
              (omega (
                arith,
                sent.1,
                refresh_accounts-le heap (threads client) ps.pool.pending_accounts,
              )))
      ]
