-- ===== src/Server/Dispatch.antt =====
-- src/pool/pool_server.go, `taskDispatcher` and `assignTaskRoundRobin`: queued tasks go to the live
-- clients in turn.
pub mod RoundRobin
use business2api.Base.{
  ℕ, zero, suc, ◌+◌, ◌%◌, Bool, true, false, List, [], ◌∷◌, ◌++◌, Option, none, some, ltb, ◌==◌,
  if◌then◌else◌, length, get_elem?, keep, null, max, add_int32,
}
use business2api.Text.{Text, eqb}
use business2api.Pool.Account.{Account}
use business2api.Pool.State.{AccountPool}
use business2api.Pool.Upload.{find_email}
use business2api.Server.{
  PoolServer, WsClient, WsMessage, task_register, task_refresh, has_room, push, need_count,
  shortage, queue_capacity,
}
use business2api.Server.Assign.{refresh_message}

-- The clients are tried in turn, at most `k` of them. The index is taken modulo their number before
-- it is read, so the read is in range.
unfoldable pub try_clients : ℕ → List WsClient → ℕ → Option WsClient × ℕ
unfolding has_room
try_clients zero alive idx = (none, idx)
try_clients (suc k) alive idx =
    let i = idx % length alive in
    let rest = try_clients k alive (i + 1) in
    elim (get_elem? alive i) [
      | none ↦ rest
      | some client ↦ if has_room client then (some client, i + 1) else rest
    ]

-- The message is put into the channel of the client of this name.
unfoldable pub deliver : Text → WsMessage → List WsClient → List WsClient
deliver id msg [] = []
deliver id msg (c ∷ cs) = if eqb c.id id then push msg c ∷ cs else c ∷ deliver id msg cs

abbrev pub alive_of : List WsClient → List WsClient
alive_of = keep (λ c. c.is_alive)

-- With whether the task was assigned. `order` lists the clients as this call's iteration over the map
-- of them does, which Go leaves open and may change from call to call.
unfoldable pub assign_task_round_robin : List WsClient → WsMessage → PoolServer → PoolServer × Bool
unfolding try_clients deliver
assign_task_round_robin order msg ps =
    let alive = alive_of order in
    let (found, idx) = try_clients (length alive) alive ps.next_client_idx in
    if null alive then (ps, false) else elim found [
      | none ↦ (record ps { next_client_idx = idx }, false)
      | some client ↦
          (record ps { next_client_idx = idx; clients = deliver client.id msg ps.clients }, true)
    ]

abbrev pub register_message : ℕ → ℕ → WsMessage
register_message now count = record { timestamp = now; payload = task_register count }

-- `case count := <-ps.registerQueue`.
unfoldable pub dispatch_register : List WsClient → ℕ → ℕ → PoolServer → PoolServer
unfolding need_count shortage assign_task_round_robin
dispatch_register order now count ps =
    let (ps', assigned) = assign_task_round_robin order (register_message now count) ps in
    if shortage (need_count ps) == 0
    then ps
    else if assigned
    then record ps' { pending_register_count = add_int32 ps'.pending_register_count 1 }
    else ps'

-- `case acc := <-ps.refreshQueue`.
unfoldable pub dispatch_refresh : List WsClient → ℕ → ℕ → PoolServer → PoolServer
unfolding assign_task_round_robin
dispatch_refresh order now p ps =
    (assign_task_round_robin order (refresh_message now (ps.pool.heap p)) ps).0

-- One turn of `taskDispatcher`: `select` takes from a queue that is not empty, and `register` says
-- which one where both hold something.
unfoldable pub task_dispatcher : List WsClient → ℕ → Bool → PoolServer → PoolServer
unfolding dispatch_register dispatch_refresh
task_dispatcher order now register ps =
    let take_register = λ (count : ℕ) (rest : List ℕ).
      dispatch_register order now count (record ps { register_queue = rest }) in
    let take_refresh = λ (p : ℕ) (rest : List ℕ).
      dispatch_refresh order now p (record ps { refresh_queue = rest }) in
    elim ps.register_queue [
      | [] ↦ elim ps.refresh_queue [ [] ↦ ps | p ∷ rest ↦ take_refresh p rest ]
      | count ∷ counts ↦ elim ps.refresh_queue [
        | [] ↦ take_register count counts
        | p ∷ rest ↦ if register then take_register count counts else take_refresh p rest
      ]
    ]

-- The request's count, of which anything but a positive number stands for 1, with whether the queue
-- had room for it.
unfoldable pub handle_queue_register : ℕ → PoolServer → PoolServer × Bool
handle_queue_register count ps =
    if ltb (length ps.register_queue) queue_capacity
    then (record ps { register_queue = ps.register_queue ++ max 1 count ∷ [] }, true)
    else (ps, false)

-- `none` is the answer that no account was found.
unfoldable pub handle_queue_refresh : Text → PoolServer → PoolServer × Option Bool
unfolding find_email
handle_queue_refresh email ps = elim (find_email ps.pool.heap email ps.pool.ready_accounts) [
  | none ↦ (ps, none)
  | some p ↦
      if ltb (length ps.refresh_queue) queue_capacity
      then (record ps { refresh_queue = ps.refresh_queue ++ p ∷ [] }, some true)
      else (ps, some false)
]
