-- ===== src/Server/Heartbeat.antt =====
-- src/pool/pool_server.go, `heartbeatChecker`: the clients that fell silent, and the counter of the
-- registrations in progress, which each beat brings down.
use business2api.Base.{
  ℕ, ◌+◌, ◌-◌, ◌*◌, ◌%◌, ◌^◌, ◌≤◌, ◌<◌, ◌≡◌, refl, ◌∙◌, false, List, [], ◌∷◌, ltb, ◌==◌,
  if◌then◌else◌, length, max, arith, pos, negsuc, int32,
}
use business2api.Pool.Account.{second}
use business2api.Server.{PoolServer, WsClient}

-- `time.Since(client.LastPing) > 180*time.Second`.
unfoldable pub check_client : ℕ → WsClient → WsClient
check_client now client =
    if ltb (client.last_ping + 180 * second) now then record client { is_alive = false } else client

abbrev pub check_clients : ℕ → List WsClient → List WsClient
check_clients now [] = []
check_clients now (c ∷ cs) = check_client now c ∷ check_clients now cs

-- The live clients after the check, and their threads.
abbrev pub alive_clients : List WsClient → ℕ
alive_clients [] = 0
alive_clients (c ∷ cs) = (if c.is_alive then 1 else 0) + alive_clients cs

abbrev pub total_threads : List WsClient → ℕ
total_threads [] = 0
total_threads (c ∷ cs) = (if c.is_alive then c.max_threads else 0) + total_threads cs

-- `int32(totalThreads * 2)`, at least 10.
unfoldable pub max_reasonable : ℕ → ℕ
max_reasonable threads = elim (int32 (threads * 2 % 2 ^ 32)) [ pos n ↦ max 10 n | negsuc n ↦ 10 ]

-- The counter after a beat. There are fewer than 2 ^ 31 connections.
unfoldable pub decayed : ℕ → ℕ → ℕ → ℕ
unfolding max_reasonable
decayed alive threads pending = elim (int32 pending) [
  | negsuc n ↦ pending
  | pos n ↦ if alive == 0 then 0 else if ltb (max_reasonable threads) n then 0 else n - alive
]

unfoldable pub heartbeat : ℕ → PoolServer → PoolServer
unfolding check_client decayed
heartbeat now ps =
    let clients = check_clients now ps.clients in
    record ps {
      clients = clients;
      pending_register_count =
          decayed (alive_clients clients) (total_threads clients) ps.pending_register_count;
    }

-- The beats at these times, with no message in between.
abbrev pub heartbeats : List ℕ → PoolServer → PoolServer
heartbeats [] ps = ps
heartbeats (now ∷ times) ps = heartbeats times (heartbeat now ps)

-- A counter that is not negative goes down with every beat, until it is 0.
decayed-le :
    (alive threads pending : ℕ) → pending < 2 ^ 31 → decayed alive threads pending ≤ pending - 1
unfolding decayed int32
decayed-le alive threads pending h = ground arith

-- A counter that is not negative is 0 after as many beats as it counts, whatever the clients are, so
-- tasks that no client answers for do not hold registrations back for ever.
pub heartbeats-pending :
    (times : List ℕ) (ps : PoolServer)
    → ps.pending_register_count ≤ length times
    → ps.pending_register_count < 2 ^ 31
    → (heartbeats times ps).pending_register_count ≡ 0
unfolding heartbeat
heartbeats-pending [] ps h small = omega arith
heartbeats-pending (now ∷ times) ps h small =
    let clients = check_clients now ps.clients in
    let down =
      decayed-le (alive_clients clients) (total_threads clients) ps.pending_register_count small in
    heartbeats-pending times (heartbeat now ps) (omega arith) (omega arith)

decayed-negative :
    (alive threads pending : ℕ) → 2 ^ 31 ≤ pending → decayed alive threads pending ≡ pending
unfolding decayed int32
decayed-negative alive threads pending h = ground arith

-- A counter below 0 stays where it is under any number of beats.
pub heartbeats-negative :
    (times : List ℕ) (ps : PoolServer)
    → 2 ^ 31 ≤ ps.pending_register_count
    → (heartbeats times ps).pending_register_count ≡ ps.pending_register_count
unfolding heartbeat
heartbeats-negative [] ps h = refl
heartbeats-negative (now ∷ times) ps h =
    let clients = check_clients now ps.clients in
    let same =
      decayed-negative (alive_clients clients) (total_threads clients) ps.pending_register_count
        h in
    heartbeats-negative times (heartbeat now ps) (omega arith) ∙ same
