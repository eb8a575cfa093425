-- ===== src/Server/Results/Deleted.antt =====
-- src/pool/pool_server.go, `deleteAccount`: which account leaves the queues.
use business2api.Base.{
  ℕ, ◌+◌, ◌≡◌, refl, List, [], ◌∷◌, Option, none, some, ◌==◌, if◌then◌else◌, count, arith,
}
use business2api.Text.{Text}
use business2api.Pool.Account.{Account, Settings}
use business2api.Pool.Worker.{Outside}
use business2api.Pool.Jwt.{Codecs}
use business2api.Pool.Upload.{find_email}
use business2api.Pool.Queues.Moves.{queued}
use business2api.Server.{PoolServer}
use business2api.Server.Results.{delete_account, without_email}

abbrev pub found_at : ℕ → Option ℕ → ℕ
found_at q none = 0
found_at q (some p) = if p == q then 1 else 0

count-without_email :
    (heap : ℕ → Account) (email : Text) (q : ℕ) (ps : List ℕ)
    → count q (without_email heap email ps) + found_at q (find_email heap email ps) ≡ count q ps
unfolding without_email find_email
count-without_email heap email q [] = refl
count-without_email heap email q (p ∷ ps) = ground (arith, count-without_email heap email q ps)

-- The account that the deletion finds: the first of this email, a pending one before a ready one.
abbrev pub doomed : Text → PoolServer → Option ℕ
doomed email ps = elim (find_email ps.pool.heap email ps.pool.pending_accounts) [
  | some p ↦ some p
  | none ↦ find_email ps.pool.heap email ps.pool.ready_accounts
]

-- A deletion takes one occurrence of the account that it finds out of the queues, and no other
-- account; it finds none if no queued account has the email.
pub delete_account-queued :
    (codecs : Codecs) (s : Settings) (out : Outside) (now : ℕ) (email : Text) (ps : PoolServer)
    (q : ℕ)
    → queued q (delete_account codecs s out now email ps).pool + found_at q (doomed email ps)
      ≡ queued q ps.pool
unfolding delete_account
delete_account-queued codecs s out now email ps q =
    let pool = ps.pool in
    ground (
      arith,
      count-without_email pool.heap email q pool.pending_accounts,
      count-without_email pool.heap email q pool.ready_accounts,
    )
