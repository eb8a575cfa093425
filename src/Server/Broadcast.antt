-- ===== src/Server/Broadcast.antt =====
-- src/pool/pool_server.go, `broadcastRegisterTasks` and `poolMaintainer`: the missing accounts are
-- shared out as register tasks, client after client.
pub mod Need
use business2api.Base.{
  ℕ, zero, suc, ◌+◌, ◌-◌, ◌*◌, ◌≤◌, ◌<◌, ◌≡◌, refl, ap, Bool, true, false, not, ◌&&◌, List, [], ◌∷◌,
  ◌++◌, ◌==◌, ltb, leb, if◌then◌else◌, length, min, max, arith, add_int32, Bool-cases, inl, inr,
}
use business2api.Server.{
  PoolServer, WsClient, WsMessage, has_room, try_send, push, send_registers, threads, one_account,
  need_count, shortage, send_capacity,
}
use business2api.Server.Sends.{Sent, none-Sent, send_registers-Sent, send_registers-room}

-- One client's turn: up to its threads, and no more than `need`. A dead client gets none.
unfoldable pub offer : ℕ → ℕ → WsClient → WsClient × ℕ
offer now need client =
    if client.is_alive then send_registers now (min (threads client) need) client else (client, 0)

-- The loop of the broadcast, with `assigned` tasks handed out so far.
unfoldable pub broadcast_loop : ℕ → ℕ → ℕ → List WsClient → List WsClient × ℕ
unfolding offer
broadcast_loop now need assigned [] = ([], 0)
broadcast_loop now need assigned (c ∷ cs) =
    let (c', n) = offer now (need - assigned) c in
    let (cs', more) = broadcast_loop now need (assigned + n) cs in
    if c.is_alive && leb need assigned then (c ∷ cs, 0) else (c' ∷ cs', n + more)

unfoldable pub broadcast_register_tasks : ℕ → PoolServer → PoolServer
unfolding need_count shortage broadcast_loop
broadcast_register_tasks now ps =
    let need = shortage (need_count ps) in
    let (clients, sent) = broadcast_loop now need 0 ps.clients in
    if need == 0 then ps else record ps {
      clients = clients;
      pending_register_count = add_int32 ps.pending_register_count sent;
    }

-- The loop of the maintenance, which counts the need down and leaves off once it is met.
unfoldable pub maintain_loop : ℕ → ℕ → List WsClient → List WsClient × ℕ
unfolding offer
maintain_loop now need [] = ([], 0)
maintain_loop now need (c ∷ cs) =
    let (c', n) = offer now need c in
    let (cs', more) = maintain_loop now (need - n) cs in
    if c.is_alive && leb need n then (c' ∷ cs, n) else (c' ∷ cs', n + more)

unfoldable pub pool_maintainer : ℕ → PoolServer → PoolServer
unfolding need_count shortage maintain_loop
pool_maintainer now ps =
    let need = shortage (need_count ps) in
    let (clients, sent) = maintain_loop now need ps.clients in
    if need == 0 then ps else record ps {
      clients = clients;
      pending_register_count = add_int32 ps.pending_register_count sent;
    }

-- How many messages the channels hold.
abbrev pub waiting : List WsClient → ℕ
waiting [] = 0
waiting (c ∷ cs) = length c.send + waiting cs

-- How many register tasks the live clients can take by their threads, and by their channels.
abbrev pub live_room : List WsClient → ℕ
live_room [] = 0
live_room (c ∷ cs) =
    (if c.is_alive then min (threads c) (send_capacity - length c.send) else 0) + live_room cs

pub offer-room :
    (now need : ℕ) (client : WsClient)
    → let room = send_capacity - length client.send in
      (offer now need client).1
      ≡ (if client.is_alive then min (min (threads client) room) need else 0)
unfolding offer
offer-room now need client =
    ground (arith, send_registers-room now (min (threads client) need) client)

pub offer-Sent :
    (now need : ℕ) (client : WsClient) → let r = offer now need client in Sent r.1 client r.0
unfolding offer
offer-Sent now need client =
    ground (arith, send_registers-Sent now (min (threads client) need) client, none-Sent client)

offer-met : (now need : ℕ) (client : WsClient) → need ≡ 0 → offer now need client ≡ (client, 0)
unfolding offer send_registers
offer-met now need client h = ground arith

-- With nothing left to hand out, the loop changes nothing.
pub broadcast_loop-met :
    (now need assigned : ℕ) (cs : List WsClient)
    → need ≤ assigned
    → broadcast_loop now need assigned cs ≡ (cs, 0)
unfolding broadcast_loop offer
broadcast_loop-met now need assigned [] h = refl
broadcast_loop-met now need assigned (c ∷ cs) h =
    ground (arith, broadcast_loop-met now need assigned cs h)

-- The two loops hand out the same tasks to the same clients.
pub broadcast_loop-maintain_loop :
    (now need assigned : ℕ) (cs : List WsClient)
    → broadcast_loop now need assigned cs ≡ maintain_loop now (need - assigned) cs
unfolding broadcast_loop maintain_loop
broadcast_loop-maintain_loop now need assigned [] = refl
broadcast_loop-maintain_loop now need assigned (c ∷ cs) =
    let n = (offer now (need - assigned) c).1 in
    let shorter : need - assigned - n ≡ need - (assigned + n) = omega arith in
    let ih = broadcast_loop-maintain_loop now need (assigned + n) cs in
    ground (
      arith,
      rw (← shorter) at ih,
      broadcast_loop-met now need (assigned + n) cs,
      offer-met now (need - assigned) c,
    )
