-- ===== src/Pool/Next/Alone.antt =====
-- src/pool/pool.go, `AccountPool.Next`: a call that no other call interrupts.
use business2api.Base.{ℕ, zero, suc, List, [], ◌∷◌, Option, none, some}
use business2api.Pool.Account.{Account, Settings}
use business2api.Pool.State.{AccountPool}
use business2api.Pool.Next.Calls.{Call, advance}

-- The steps of a call in a row, at most `n`, up to the one that returns an account.
unfoldable pub finish_call : Settings → ℕ → ℕ → AccountPool → Call → AccountPool × Option ℕ
unfolding advance
finish_call s later zero pool call = (pool, none)
finish_call s later (suc n) pool call =
    let (after, call', result) = advance s later pool call in
    let rest = finish_call s later n after call' in
    elim result [ some p ↦ (after, some p) | none ↦ rest ]

-- The best account with the use of it that was read, while no other call marks it.
abbrev reading : (ℕ → Account) → Option ℕ → Option (ℕ × ℕ)
reading heap none = none
reading heap (some b) = some (b, (heap b).last_used)

-- One step for each account, and two to end.
unfoldable pub turns : List ℕ → ℕ
turns [] = 2
turns (p ∷ ps) = suc (turns ps)
