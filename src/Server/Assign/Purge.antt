-- ===== src/Server/Assign/Purge.antt =====
-- src/pool/pool_server.go, `assignTask` under `AutoDelete401`: which accounts it deletes.
use business2api.Base.{
  ℕ, ◌≡◌, refl, ◌∙◌, Bool, true, not, List, [], ◌∷◌, none, ◌==◌, if◌then◌else◌, keep, All, false,
  elem, count, arith, Bool-cases, inl, inr,
}
use business2api.Text.{Text, eqb, eqb_refl}
use business2api.Pool.Account.{Settings}
use business2api.Pool.State.{AccountPool}
use business2api.Pool.Worker.{Outside, Disk, remove_account}
use business2api.Pool.Worker.Endings.{remove_account-pool}
use business2api.Server.{PoolServer}
use business2api.Server.Assign.{purge, remove_accounts, has_failed}

count-keep :
    (p : ℕ) (test : ℕ → Bool) (xs : List ℕ)
    → count p (keep test xs) ≡ (if test p then count p xs else 0)
count-keep p test [] = ground arith
count-keep p test (x ∷ xs) = ground (arith, count-keep p test xs)

elem-keep :
    (p : ℕ) (test : ℕ → Bool) (xs : List ℕ)
    → test p ≡ true
    → elem p xs ≡ true
    → elem p (keep test xs) ≡ true
elem-keep p test [] t e = cc
elem-keep p test (x ∷ xs) t e = ground (arith, elem-keep p test xs t)

module _ (s : Settings) (out : Outside) (now : ℕ) where
  remove_account-none :
      (w : AccountPool × Disk) (q : ℕ) (path : Text)
      → w.1 path ≡ none
      → (remove_account s out now w q).1 path ≡ none
  unfolding remove_account
  remove_account-none (pool, disk) q path h = ground arith

  remove_accounts-none :
      (w : AccountPool × Disk) (qs : List ℕ) (path : Text)
      → w.1 path ≡ none
      → (remove_accounts s out now w qs).1 path ≡ none
  unfolding remove_accounts
  remove_accounts-none w [] path h = h
  remove_accounts-none w (q ∷ qs) path h =
      remove_accounts-none (remove_account s out now w q) qs path (remove_account-none w q path h)

  remove_account-gone :
      (w : AccountPool × Disk) (p : ℕ) (path : Text)
      → (w.0.heap p).file_path ≡ path
      → out.can_remove path ≡ true
      → (remove_account s out now w p).1 path ≡ none
  unfolding remove_account
  remove_account-gone (pool, disk) p path at can = ground (arith, eqb_refl path)

  remove_accounts-gone :
      (w : AccountPool × Disk) (qs : List ℕ) (p : ℕ) (path : Text)
      → (w.0.heap p).file_path ≡ path
      → out.can_remove path ≡ true
      → elem p qs ≡ true
      → (remove_accounts s out now w qs).1 path ≡ none
  unfolding remove_accounts
  remove_accounts-gone w [] p path at can e = cc
  remove_accounts-gone w (q ∷ qs) p path at can e =
      let w' = remove_account s out now w q in
      let same : w'.0 ≡ w.0 = remove_account-pool s out now w q in
      let at' : (w'.0.heap p).file_path ≡ path = rw same at in
      elim (Bool-cases (q == p)) [
        | inl here ↦
            let hit : q ≡ p = ground arith in
            remove_accounts-none w' qs path (remove_account-gone w q path (rw hit at) can)
        | inr other ↦ remove_accounts-gone w' qs p path at' can (ground arith)
      ]

  remove_accounts-pool :
      (w : AccountPool × Disk) (qs : List ℕ) → (remove_accounts s out now w qs).0 ≡ w.0
  unfolding remove_accounts
  remove_accounts-pool w [] = refl
  remove_accounts-pool w (q ∷ qs) =
      remove_accounts-pool (remove_account s out now w q) qs ∙ remove_account-pool s out now w q

  remove_account-frame :
      (w : AccountPool × Disk) (q : ℕ) (path : Text)
      → eqb (w.0.heap q).file_path path ≡ false
      → (remove_account s out now w q).1 path ≡ w.1 path
  unfolding remove_account
  remove_account-frame (pool, disk) q path other = ground arith

  -- A file that is of none of the accounts stays as it is.
  remove_accounts-frame :
      (w : AccountPool × Disk) (qs : List ℕ) (path : Text)
      → All (λ q. eqb (w.0.heap q).file_path path ≡ false) qs
      → (remove_accounts s out now w qs).1 path ≡ w.1 path
  unfolding remove_accounts
  remove_accounts-frame w [] path others = refl
  remove_accounts-frame w (q ∷ qs) path (other, others) =
      let w' = remove_account s out now w q in
      let same : w'.0 ≡ w.0 = remove_account-pool s out now w q in
      remove_accounts-frame w' qs path (rw same others) ∙ remove_account-frame w q path other

  -- `AutoDelete401` deletes every pending account that counts a failure, of whatever kind: it stands
  -- in no place of the pending queue any more, and its file is gone if the system lets it be removed.
  -- The accounts of the pending queue without a failure stay there in their order, the ready queue is
  -- as it was, and so is every file that is of no deleted account.
  pub purge-deletes :
      (ps : PoolServer) (p : ℕ) (path : Text)
      → elem p ps.pool.pending_accounts ≡ true
      → has_failed (ps.pool.heap p) ≡ true
      → out.can_remove (ps.pool.heap p).file_path ≡ true
      → All
          (λ q. eqb (ps.pool.heap q).file_path path ≡ false)
          (keep (λ q. has_failed (ps.pool.heap q)) ps.pool.pending_accounts)
      → let after = purge s out now ps in
        (count p after.pool.pending_accounts ≡ 0)
        × (after.disk (ps.pool.heap p).file_path ≡ none)
        × (after.pool.pending_accounts
            ≡ keep (λ q. not (has_failed (ps.pool.heap q))) ps.pool.pending_accounts)
        × (after.pool.ready_accounts ≡ ps.pool.ready_accounts)
        × (after.disk path ≡ ps.disk path)
  unfolding purge
  purge-deletes ps p path e failed can others =
      let pool = ps.pool in
      let test = λ (q : ℕ). has_failed (pool.heap q) in
      let w : AccountPool × Disk = (
        record pool { pending_accounts = keep (λ q. not (test q)) pool.pending_accounts },
        ps.disk,
      ) in
      let qs = keep test pool.pending_accounts in
      let gone =
        remove_accounts-gone w qs p (pool.heap p).file_path refl can
          (elem-keep p test pool.pending_accounts failed e) in
      rw (remove_accounts-pool w qs) (
        ground (arith, count-keep p (λ q. not (test q)) pool.pending_accounts),
        gone,
        refl,
        refl,
        remove_accounts-frame w qs path others,
      )
