-- ===== src/Pool/Next/Choice.antt =====
-- src/pool/pool.go, `AccountPool.Next`: which account the loop picks, against a description that
-- does not mention the loop.
use business2api.Base.{
  ℕ, ◌≤◌, ◌≡◌, refl, ◌⊎◌, inl, inr, Bool, true, false, List, [], ◌∷◌, Option, none, some, arith,
  All, elem, Bool-cases, null, nil_of_null,
}
use business2api.Pool.Account.{Account, Settings}
use business2api.Pool.State.{AccountPool}
use business2api.Pool.Next.{
  Scan, found, ended, older, scan, exceeded_daily, in_use_cooldown, visits, finish, next,
}

module _ (s : Settings) (now : ℕ) (heap : ℕ → Account) where
  abbrev pub IsExceeded : ℕ → Type 0
  IsExceeded p = exceeded_daily s now (heap p) ≡ true

  abbrev pub IsEligible : ℕ → Type 0
  IsEligible p = exceeded_daily s now (heap p) ≡ false

  abbrev pub IsResting : ℕ → Type 0
  IsResting p = in_use_cooldown s now (heap p) ≡ true

  -- The account cannot be handed out at once.
  abbrev pub IsBlocked : ℕ → Type 0
  IsBlocked p = IsExceeded p ⊎ IsResting p

  -- `p` is the first of the accounts that is neither exceeded nor resting.
  abbrev pub IsFirstFree : List ℕ → ℕ → Type 0
  IsFirstFree [] p = ⊥
  IsFirstFree (q ∷ ps) p =
      ((q ≡ p) × IsEligible q × (in_use_cooldown s now (heap q) ≡ false))
      ⊎ (IsBlocked q × IsFirstFree ps p)

  abbrev pub IsNoYounger : ℕ → ℕ → Type 0
  IsNoYounger p q = IsEligible q → (heap p).last_used ≤ (heap q).last_used

  pub record IsOldest (ps : List ℕ) (p : ℕ) : Type 0 where
    pub blocked : All IsBlocked ps
    pub listed : elem p ps ≡ true
    pub eligible : IsEligible p
    pub oldest : All (IsNoYounger p) ps

  -- The specification of `Next` over the order of the visits.
  abbrev pub Choice : List ℕ → Option ℕ → Type 0
  Choice ps none = All IsExceeded ps
  Choice ps (some p) = IsFirstFree ps p ⊎ IsOldest ps p

  scan-IsFirstFree :
      (ps : List ℕ) (best : Option ℕ) (all : Bool) (p : ℕ)
      → scan s now heap ps best all ≡ found p
      → IsFirstFree ps p
  unfolding scan
  scan-IsFirstFree [] best all p e = cc
  scan-IsFirstFree (q ∷ ps) best all p e =
      ground
        (arith, scan-IsFirstFree ps best all p, scan-IsFirstFree ps (older heap best q) false p)

  scan-IsBlocked :
      (ps : List ℕ) (best b : Option ℕ) (all a : Bool)
      → scan s now heap ps best all ≡ ended b a
      → All IsBlocked ps
  unfolding scan
  scan-IsBlocked [] best b all a e = tt
  scan-IsBlocked (q ∷ ps) best b all a e =
      ground
        (arith, scan-IsBlocked ps best b all a, scan-IsBlocked ps (older heap best q) b false a)

  scan-IsExceeded :
      (ps : List ℕ) (best b : Option ℕ) (all : Bool)
      → scan s now heap ps best all ≡ ended b true
      → (all ≡ true) × All IsExceeded ps
  unfolding scan
  scan-IsExceeded [] best b all e = (ground arith, tt)
  scan-IsExceeded (q ∷ ps) best b all e =
      ground (arith, scan-IsExceeded ps best b all, scan-IsExceeded ps (older heap best q) b false)

  -- The loop ends without a candidate only if it had none and met no eligible account.
  scan-none :
      (ps : List ℕ) (best : Option ℕ) (all a : Bool)
      → scan s now heap ps best all ≡ ended none a
      → (best ≡ none) × All IsExceeded ps
  unfolding scan
  scan-none [] best all a e = (ground arith, tt)
  scan-none (q ∷ ps) best all a e =
      ground (arith, scan-none ps best all a, scan-none ps (older heap best q) false a)

  -- What the candidate `p` is, when the loop started with the candidate `best`.
  record IsBest (best : Option ℕ) (ps : List ℕ) (p : ℕ) : Type 0 where
    source : (best ≡ some p) ⊎ ((elem p ps ≡ true) × IsEligible p)
    oldest : All (IsNoYounger p) ps
    no_younger : (c : ℕ) → best ≡ some c → (heap p).last_used ≤ (heap c).last_used

  IsBest-skip :
      (best : Option ℕ) (q : ℕ) (ps : List ℕ) (p : ℕ)
      → IsExceeded q
      → IsBest best ps p
      → IsBest best (q ∷ ps) p
  IsBest-skip best q ps p x b = record {
    source = elim b.source [ inl e ↦ inl e | inr (m, e) ↦ inr (ground arith, e) ];
    oldest = (λ e. cc, b.oldest);
    no_younger = b.no_younger;
  }

  IsBest-older :
      (best : Option ℕ) (q : ℕ) (ps : List ℕ) (p : ℕ)
      → IsEligible q
      → IsBest (older heap best q) ps p
      → IsBest best (q ∷ ps) p
  unfolding older
  IsBest-older none q ps p x b = record {
    source = ground arith;
    oldest = (λ _. b.no_younger q refl, b.oldest);
    no_younger = λ c e. cc;
  }
  IsBest-older (some c) q ps p x b = record {
    source = ground arith;
    oldest = (λ _. ground (arith, b.no_younger q, b.no_younger c), b.oldest);
    no_younger = λ c' e. ground (arith, b.no_younger q, b.no_younger c);
  }

  scan-IsBest :
      (ps : List ℕ) (best : Option ℕ) (all a : Bool) (p : ℕ)
      → scan s now heap ps best all ≡ ended (some p) a
      → IsBest best ps p
  unfolding scan
  scan-IsBest [] best all a p e = record {
    source = inl (ground arith);
    oldest = tt;
    no_younger = λ c e'. ground arith;
  }
  scan-IsBest (q ∷ ps) best all a p e = elim (Bool-cases (exceeded_daily s now (heap q))) [
    | inl x ↦ IsBest-skip best q ps p x (scan-IsBest ps best all a p (rw x at e))
    | inr x ↦
        IsBest-older best q ps p x (scan-IsBest ps (older heap best q) false a p (ground arith))
  ]

  finish-Choice :
      (later : ℕ) (pool : AccountPool) (ps : List ℕ) (r : Scan)
      → scan s now heap ps none true ≡ r
      → Choice ps (finish s now later pool r).1
  unfolding finish
  finish-Choice later pool ps (found p) e = inl (scan-IsFirstFree ps none true p e)
  finish-Choice later pool ps (ended none true) e = (scan-none ps none true true e).1
  finish-Choice later pool ps (ended none false) e = (scan-none ps none true false e).1
  finish-Choice later pool ps (ended (some p) true) e = (scan-IsExceeded ps none (some p) true e).1
  finish-Choice later pool ps (ended (some p) false) e =
      inr (of_best (scan-IsBest ps none true false p e))
    where
      of_best : IsBest none ps p → IsOldest ps p
      of_best b = record {
        blocked = scan-IsBlocked ps none (some p) true false e;
        listed = elim b.source [ inl e' ↦ cc | inr (m, _) ↦ m ];
        eligible = elim b.source [ inl e' ↦ cc | inr (_, x) ↦ x ];
        oldest = b.oldest;
      }

module _ (s : Settings) (now later : ℕ) where
  -- Over the order in which the round visits the ready accounts, `Next` hands out the first account
  -- that is under its day's limit and not in its use cooldown; with no such account, one that is
  -- under its limit and was used no later than any other that is; and none exactly when all
  -- accounts are at their limit.
  pub next-Choice :
      (pool : AccountPool)
      → Choice s now pool.heap (visits pool.ready_accounts pool.index) (next s now later pool).1
  unfolding next
  next-Choice pool = elim (Bool-cases (null pool.ready_accounts)) [
    | inl e ↦ rw (e, next) (rw (nil_of_null pool.ready_accounts e) tt)
    | inr e ↦ rw (e, next) (finish-Choice s now pool.heap later _ _ _ refl)
  ]
