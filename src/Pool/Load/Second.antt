-- ===== src/Pool/Load/Second.antt =====
-- src/pool/pool.go, `Load` while a refresh worker holds an account.
use business2api.Base.{ℕ, ◌<◌, ◌≡◌, ◌≢◌, false, [], ◌∷◌, none, some, arith, null}
use business2api.Pool.Account.{AccountData, Settings}
use business2api.Pool.State.{AccountPool}
use business2api.Pool.Jwt.{Codecs}
use business2api.Pool.Worker.{Disk}
use business2api.Pool.Queues.Moves.{queued}
use business2api.Pool.Load.{
  load, load_files, load_file, read_file, add_new, account_of_data, csesidx_of,
  should_skip_account_file, known_in,
}

module _ (lib : Codecs) (s : Settings) where
  -- When no queued account has the path of the account `p`, as while a worker holds `p`, `Load` makes
  -- a second account for its file and queues it, besides `p`, which the worker still returns.
  pub load-second_account :
      (disk : Disk) (pool : AccountPool) (p : ℕ) (d : AccountData)
      → p < pool.next_pointer
      → known_in lib s pool (pool.heap p).file_path ≡ none
      → should_skip_account_file (pool.heap p).file_path ≡ false
      → disk (pool.heap p).file_path ≡ some d
      → null (csesidx_of lib s d) ≡ false
      → let loaded = load lib s disk ((pool.heap p).file_path ∷ []) pool in
        (queued pool.next_pointer loaded ≡ 1)
        × ((loaded.heap pool.next_pointer).file_path ≡ (loaded.heap p).file_path)
        × (pool.next_pointer ≢ p)
  unfolding load load_files load_file read_file add_new account_of_data
  load-second_account disk pool p d below unknown reads content named =
      rw (reads, unknown, content, named) (ground arith, ground arith, λ e. omega arith)
