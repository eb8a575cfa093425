-- ===== src/Server/Assign.antt =====
-- src/pool/pool_server.go, `assignTask`: what a client gets that is ready or asks for work.
pub mod Shares
pub mod Purge
use business2api.Base.{
  ℕ, zero, suc, ◌+◌, ◌-◌, ◌*◌, Bool, true, false, not, ◌&&◌, List, [], ◌∷◌, ltb, leb, if◌then◌else◌,
  min, max, keep, add_int32,
}
use business2api.Text.{Text, eqb}
use business2api.Pool.Account.{Account, AccountData, Settings}
use business2api.Pool.State.{AccountPool}
use business2api.Pool.Worker.{Outside, Disk, remove_account, is_last_strike}
use business2api.Server.{
  PoolServer, WsClient, WsMessage, RefreshTask, task_refresh, try_send, send_registers, threads,
  need_count, shortage,
}

-- `!acc.Refreshed && acc.FailCount > 0`.
unfoldable pub has_failed : Account → Bool
has_failed acc = not acc.refreshed && ltb 0 acc.fail_count

unfoldable pub task_of : Account → RefreshTask
task_of acc =
    let d = acc.account_data in
    record {
      email = d.email;
      cookies = d.cookies;
      authorization = d.authorization;
      mail_provider = d.mail_provider;
      mail_password = d.mail_password;
      config_id = acc.config_id;
      csesidx = acc.csesidx;
    }

abbrev pub refresh_message : ℕ → Account → WsMessage
refresh_message now acc = record { timestamp = now; payload = task_refresh (task_of acc) }

module _ (s : Settings) (out : Outside) (now : ℕ) where
  unfoldable pub remove_accounts : AccountPool × Disk → List ℕ → AccountPool × Disk
  unfolding remove_account
  remove_accounts w [] = w
  remove_accounts w (p ∷ ps) = remove_accounts (remove_account s out now w p) ps

  -- The failed accounts leave the pending queue, and their files are removed.
  unfoldable pub purge : PoolServer → PoolServer
  unfolding has_failed remove_accounts
  purge ps =
      let pool = ps.pool in
      let failed = λ (p : ℕ). has_failed (pool.heap p) in
      let (pool', disk) =
        remove_accounts
          (
            record pool { pending_accounts = keep (λ p. not (failed p)) pool.pending_accounts },
            ps.disk,
          )
          (keep failed pool.pending_accounts) in
      record ps { pool = pool'; disk = disk }

  -- The first `n` failed accounts that have a further attempt left.
  unfoldable pub refresh_accounts : (ℕ → Account) → ℕ → List ℕ → List ℕ
  unfolding has_failed is_last_strike
  refresh_accounts heap zero ps = []
  refresh_accounts heap (suc n) [] = []
  refresh_accounts heap (suc n) (p ∷ ps) =
      let taken = refresh_accounts heap n ps in
      let skipped = refresh_accounts heap (suc n) ps in
      if has_failed (heap p) && not (is_last_strike s out now (heap p)) then p ∷ taken else skipped

  -- The refresh tasks are offered in turn, with how many the channel took.
  unfoldable pub send_refreshes : (ℕ → Account) → List ℕ → WsClient → WsClient × ℕ
  unfolding try_send task_of
  send_refreshes heap [] client = (client, 0)
  send_refreshes heap (p ∷ ps) client =
      let (client', taken) = try_send (refresh_message now (heap p)) client in
      let (client'', more) = send_refreshes heap ps client' in
      (client'', (if taken then 1 else 0) + more)

  -- The threads that are left get register tasks, no more than accounts are missing.
  unfoldable pub assign_registers : ℕ → WsClient → PoolServer → WsClient × PoolServer
  unfolding need_count shortage send_registers
  assign_registers slots client ps =
      let (client', sent) = send_registers now (min slots (shortage (need_count ps))) client in
      (client', record ps { pending_register_count = add_int32 ps.pending_register_count sent })

  unfoldable pub assign_task : WsClient → PoolServer → WsClient × PoolServer
  unfolding purge refresh_accounts send_refreshes assign_registers
  assign_task client ps =
      let pool = ps.pool in
      let (client', assigned) =
        send_refreshes pool.heap (refresh_accounts pool.heap (threads client) pool.pending_accounts)
          client in
      if s.auto_delete_401
      then assign_registers (threads client) client (purge ps)
      else assign_registers (threads client - assigned) client' ps
