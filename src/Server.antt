-- ===== src/Server.antt =====
-- src/pool/pool_server.go, the pool server: its state, the messages that it sends, and the steps of
-- a connected client. The bounded channel of a client is a list, in the order of the sends.
pub mod Assign
pub mod Broadcast
pub mod Dispatch
pub mod Heartbeat
pub mod Messages
pub mod Results
pub mod Sends
mod Tests
use business2api.Base.{
  ℕ, zero, suc, ◌+◌, Bool, true, false, List, [], ◌∷◌, ◌++◌, Option, none, some, ltb, if◌then◌else◌,
  length, ℤ, pos, negsuc, int32, difference, max,
}
use business2api.Text.{Text, eqb}
use business2api.Pool.Account.{Account, Cookie, second}
use business2api.Pool.State.{AccountPool, total_count}
use business2api.Pool.Worker.{Disk}

-- What a refresh task tells the client of the account.
pub record RefreshTask : Type 0 where
  pub email : Text
  pub cookies : List Cookie
  pub authorization : Text
  pub mail_provider : Text
  pub mail_password : Text
  pub config_id : Text
  pub csesidx : Text

pub data Payload : Type 0 where
  task_register : ℕ → Payload
  task_refresh : RefreshTask → Payload
  status : ℕ → ℤ → ℕ → ℤ → Payload

-- `timestamp` is the time of the message in nanoseconds, which the program cuts to seconds.
pub record WsMessage : Type 0 where
  pub timestamp : ℕ
  pub payload : Payload

pub record WsClient : Type 0 where
  pub id : Text
  pub send : List WsMessage
  pub is_alive : Bool
  pub last_ping : ℕ
  pub max_threads : ℕ
  pub client_version : Text

-- `target_count` is positive where main.go starts the server.
pub record PoolServerConfig : Type 0 where
  pub target_count : ℕ
  pub expired_action : Text

-- `clients` lists the map of clients in the order of an iteration, which Go leaves open, and
-- `pending_register_count` is the bit pattern of an `int32`.
pub record PoolServer : Type 0 where
  pub pool : AccountPool
  pub disk : Disk
  pub config : PoolServerConfig
  pub clients : List WsClient
  pub register_queue : List ℕ
  pub refresh_queue : List ℕ
  pub next_client_idx : ℕ
  pub pending_register_count : ℕ

abbrev pub send_capacity : ℕ
send_capacity = 256

abbrev pub queue_capacity : ℕ
queue_capacity = 100

unfoldable pub has_room : WsClient → Bool
has_room client = ltb (length client.send) send_capacity

abbrev pub push : WsMessage → WsClient → WsClient
push msg client = record client { send = client.send ++ msg ∷ [] }

-- `select { case client.Send <- msg: ... default: }`, with whether the message was taken.
unfoldable pub try_send : WsMessage → WsClient → WsClient × Bool
unfolding has_room
try_send msg client = if has_room client then (push msg client, true) else (client, false)

-- The writer takes the oldest message of the channel.
unfoldable pub write_pump : WsClient → WsClient × Option WsMessage
write_pump client = elim client.send [
  | [] ↦ (client, none)
  | msg ∷ msgs ↦ (record client { send = msgs }, some msg)
]

unfoldable pub new_client : Text → ℕ → WsClient
new_client id now = record {
  id = id;
  send = [];
  is_alive = true;
  last_ping = now;
  max_threads = 0;
  client_version = [];
}

unfoldable pub handle_web_socket : Text → ℕ → PoolServer → PoolServer
unfolding new_client
handle_web_socket id now ps = record ps { clients = ps.clients ++ new_client id now ∷ [] }

-- The clients without the first of this name: identifiers are keys of the map.
unfoldable pub without_client : Text → List WsClient → List WsClient
without_client id [] = []
without_client id (c ∷ cs) = if eqb c.id id then cs else c ∷ without_client id cs

unfoldable pub remove_client : Text → PoolServer → PoolServer
unfolding without_client
remove_client id ps = record ps { clients = without_client id ps.clients }

-- `TargetCount - currentCount - pendingCount`.
unfoldable pub need_count : PoolServer → ℤ
need_count ps =
    let current = total_count ps.pool in
    let target = ps.config.target_count in
    elim (int32 ps.pending_register_count) [
      | pos pending ↦ difference target (current + pending)
      | negsuc pending ↦ difference (target + (pending + 1)) current
    ]

-- What is left of a need that `needCount <= 0` has been asked of: nothing, or a positive number.
unfoldable pub shortage : ℤ → ℕ
shortage (pos n) = n
shortage (negsuc n) = 0

-- `if threads <= 0 { threads = 1 }`.
abbrev pub threads : WsClient → ℕ
threads client = max 1 client.max_threads

abbrev pub one_account : ℕ → WsMessage
one_account now = record { timestamp = now; payload = task_register 1 }

-- `n` register tasks are offered to the client, with how many it took.
unfoldable pub send_registers : ℕ → ℕ → WsClient → WsClient × ℕ
send_registers now zero client = (client, 0)
send_registers now (suc n) client =
    let (client', taken) = try_send (one_account now) client in
    let (client'', more) = send_registers now n client' in
    (client'', (if taken then 1 else 0) + more)
