-- ===== src/Server/Tests.antt =====
-- The pool server of src/pool/pool_server.go on small pools, and the theorems at concrete inputs.
use business2api.Base.{
  ℕ, ◌*◌, ◌≡◌, refl, Bool, true, false, List, [], ◌∷◌, none, some, arith, pos, add_int32, int32,
  difference, count, keep, not, ◌==◌, if◌then◌else◌,
}
use business2api.Text.{Text, codes, eqb}
use business2api.Pool.Account.{Settings, pending_external, second}
use business2api.Pool.State.{AccountPool, total_count}
use business2api.Pool.Worker.{Outside}
use business2api.Pool.Samples.{settings, pool_of, data_of, codecs, account}
use business2api.Server.{
  PoolServer, WsClient, need_count, shortage, has_room, try_send, send_registers,
}
use business2api.Server.Broadcast.{broadcast_register_tasks, pool_maintainer, offer, broadcast_loop}
use business2api.Server.Broadcast.Need.{broadcast_register_tasks-pool_maintainer}
use business2api.Server.Assign.{assign_task, purge, has_failed}
use business2api.Server.Assign.Shares.{Given, assign_base, assign_task-Given}
use business2api.Server.Assign.Purge.{purge-deletes}
use business2api.Server.Heartbeat.{heartbeats, heartbeats-pending}
use business2api.Server.Results.{object, handle_register_result, CookieEntry}
use business2api.Server.Results.Overshoot.{handle_register_result-overshoot}

abbrev client : Text → Bool → ℕ → WsClient
client name alive n = record {
  id = name;
  send = [];
  is_alive = alive;
  last_ping = 200 * second;
  max_threads = n;
  client_version = [];
}

-- Account 3 waits for an external refresh and counts a failure.
abbrev pool : AccountPool
pool =
    let sample = pool_of (0 ∷ 1 ∷ []) (3 ∷ []) in
    record sample {
      heap = λ p.
          (let acc = account (codes "e") pending_external 0 0 in
            if p == 3 then record acc { refreshed = false; fail_count = 1 } else sample.heap p);
    }

abbrev server : ℕ → PoolServer
server pending = record {
  pool = pool;
  disk = λ path. some (data_of path);
  config = record { target_count = 8; expired_action = [] };
  clients = client (codes "a") true 2 ∷ client (codes "b") false 4 ∷ client (codes "c") true 0 ∷ [];
  register_queue = [];
  refresh_queue = [];
  next_client_idx = 5;
  pending_register_count = pending;
}

abbrev outside : Outside
outside = record {
  browser = none;
  can_write = λ path. true;
  can_remove = λ path. true;
  rfc3339 = λ t. [];
}

abbrev deleting : Settings
deleting = record settings { auto_delete_401 = true }

broadcasts : (broadcast_register_tasks 7 (server 1)).pending_register_count ≡ 4
unfolding broadcast_register_tasks broadcast_loop offer send_registers try_send has_room need_count
    shortage int32 add_int32 difference total_count
broadcasts = refl

broadcast_register_tasks-pool_maintainer_example :
    broadcast_register_tasks 7 (server 1) ≡ pool_maintainer 7 (server 1)
broadcast_register_tasks-pool_maintainer_example =
    broadcast_register_tasks-pool_maintainer 7 (server 1)

assign_task-Given_example :
    let worker = client (codes "a") true 2 in
    let r = assign_task deleting outside 7 worker (server 1) in
    Given 2
      (shortage (need_count (assign_base deleting outside 7 (server 1))))
      1
      r.1.pending_register_count
      worker
      r.0
assign_task-Given_example =
    assign_task-Given deleting outside 7 (client (codes "a") true 2) (server 1)

purge-deletes_example :
    let after = purge deleting outside 7 (server 1) in
    (count 3 after.pool.pending_accounts ≡ 0)
    × (after.disk (codes "e") ≡ none)
    × (after.pool.pending_accounts
        ≡ keep (λ q. not (has_failed ((server 1).pool.heap q))) pool.pending_accounts)
    × (after.pool.ready_accounts ≡ 0 ∷ 1 ∷ [])
    × (after.disk (codes "z") ≡ some (data_of (codes "z")))
unfolding has_failed eqb
purge-deletes_example =
    purge-deletes deleting outside 7 (server 1) 3 (codes "z") refl refl refl (refl, tt)

-- The clients in another order.
abbrev swapped : List WsClient
swapped = client (codes "b") false 4 ∷ client (codes "a") true 2 ∷ client (codes "c") true 0 ∷ []

heartbeats-pending_example :
    (heartbeats (60 * second ∷ 120 * second ∷ 400 * second ∷ []) (server 2)).pending_register_count
    ≡ 0
heartbeats-pending_example =
    heartbeats-pending (60 * second ∷ 120 * second ∷ 400 * second ∷ []) (server 2) (omega arith)
      (omega arith)

abbrev nameless : List CookieEntry
nameless = object none (some (codes "v")) (some (codes "d")) ∷ []

handle_register_result-overshoot_example :
    need_count (
      heartbeats
        (60 * second ∷ [])
        (handle_register_result codecs settings outside 7 [] false (server 0)))
    ≡ pos 6
unfolding total_count
handle_register_result-overshoot_example =
    handle_register_result-overshoot codecs settings outside 7 [] (60 * second ∷ []) (server 0) refl
      (omega arith)
