-- ===== src/Server/Results/Overshoot.antt =====
-- src/pool/pool_server.go, `handleRegisterResult` and `heartbeatChecker`: the results of registrations
-- that the server has not counted, as those that a client starts by itself.
use business2api.Base.{
  ℕ, ◌+◌, ◌-◌, ◌^◌, ◌≤◌, ◌≡◌, refl, ◌∙◌, false, List, [], ◌∷◌, arith, pos, int32, difference,
  decrement_int32,
}
use business2api.Text.{Text}
use business2api.Pool.Account.{Settings}
use business2api.Pool.Worker.{Outside}
use business2api.Pool.State.{total_count}
use business2api.Pool.Jwt.{Codecs}
use business2api.Server.{PoolServer, need_count}
use business2api.Server.Heartbeat.{heartbeats, heartbeat, heartbeats-negative}
use business2api.Server.Results.{handle_register_result}

heartbeats-pool :
    (times : List ℕ) (ps : PoolServer)
    → ((heartbeats times ps).pool ≡ ps.pool) × ((heartbeats times ps).config ≡ ps.config)
unfolding heartbeat
heartbeats-pool [] ps = (refl, refl)
heartbeats-pool (now ∷ times) ps = heartbeats-pool times (heartbeat now ps)

need_count-below :
    (ps : PoolServer)
    → ps.pending_register_count ≡ 2 ^ 32 - 1
    → total_count ps.pool ≤ ps.config.target_count
    → need_count ps ≡ pos (ps.config.target_count + 1 - total_count ps.pool)
unfolding need_count int32 difference
need_count-below ps h room = ground arith

-- The report of a failed registration that was not counted takes the counter below 0, no heartbeat
-- brings it back, and from then on the server asks for one account more than its target.
pub handle_register_result-overshoot :
    (codecs : Codecs) (s : Settings) (out : Outside) (now : ℕ) (files : List Text) (times : List ℕ)
    (ps : PoolServer)
    → ps.pending_register_count ≡ 0
    → total_count ps.pool ≤ ps.config.target_count
    → need_count (heartbeats times (handle_register_result codecs s out now files false ps))
      ≡ pos (ps.config.target_count + 1 - total_count ps.pool)
unfolding handle_register_result decrement_int32
handle_register_result-overshoot codecs s out now files times ps h room =
    let after = handle_register_result codecs s out now files false ps in
    let low : after.pending_register_count ≡ 2 ^ 32 - 1 = ground arith in
    let final = heartbeats times after in
    let kept = heartbeats-pool times after in
    let stays = heartbeats-negative times after (omega arith) in
    let pools : total_count final.pool ≡ total_count ps.pool = rw kept.0 refl in
    let targets : final.config.target_count ≡ ps.config.target_count = rw kept.1 refl in
    need_count-below final (stays ∙ low) (omega arith) ∙ rw (pools, targets) refl
