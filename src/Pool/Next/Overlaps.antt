-- ===== src/Pool/Next/Overlaps.antt =====
-- src/pool/pool.go, `AccountPool.Next`: the limit of a day where calls overlap.
use business2api.Base.{
  ℕ, zero, suc, ◌+◌, ◌≤◌, ◌<◌, ◌≡◌, refl, ap, subst, ◌-◌, ◌⊎◌, Bool, true, false, List, [], ◌∷◌,
  Option, none, some, arith, ◌==◌, leb, if◌then◌else◌, min, All, Bool-cases, inl, inr, null,
}
use business2api.Text.{Text, eqb_refl}
use business2api.Pool.Account.{Account, Settings, check_and_update_daily_count}
use business2api.Pool.State.{AccountPool}
use business2api.Pool.Next.{exceeded_daily, in_use_cooldown, touch, hand_out}
use business2api.Pool.Next.Limit.{used_on, handed, times_handed, exceeded_daily-lt}
use business2api.Pool.Next.Calls.{
  Call, idle, looking, chosen, older_read, look, settle, begin, advance, set_call, is_idle, Event,
  starts, steps, Calls, happen, happenings,
}

-- Whether a call has found the account `p` under its limit and may hand it out yet.
abbrev pub armed : ℕ → Call → ℕ
armed p idle = 0
armed p (looking now rest none all_exceeded) = 0
armed p (looking now rest (some (b, oldest)) all_exceeded) = if b == p then 1 else 0
armed p (chosen now q) = if q == p then 1 else 0

armed-le_one : (p : ℕ) (call : Call) → armed p call ≤ 1
armed-le_one p idle = omega arith
armed-le_one p (looking now rest none all_exceeded) = omega arith
armed-le_one p (looking now rest (some (b, oldest)) all_exceeded) = ground arith
armed-le_one p (chosen now q) = ground arith

-- How many of the first `k` callers are so far.
abbrev pub all_armed : ℕ → ℕ → (ℕ → Call) → ℕ
all_armed p zero calls = 0
all_armed p (suc k) calls = armed p (calls k) + all_armed p k calls

all_armed-le : (p k : ℕ) (calls : ℕ → Call) → all_armed p k calls ≤ k
all_armed-le p zero calls = omega arith
all_armed-le p (suc k) calls = omega (arith, armed-le_one p (calls k), all_armed-le p k calls)

all_armed-outside :
    (p k : ℕ) (calls : ℕ → Call) (i : ℕ) (call : Call)
    → k ≤ i
    → all_armed p k (set_call calls i call) ≡ all_armed p k calls
all_armed-outside p zero calls i call h = refl
all_armed-outside p (suc k) calls i call h =
    let other : (i == k) ≡ false = ground (arith, h) in
    rw other (omega (arith, all_armed-outside p k calls i call (omega (arith, h))))

all_armed-set_call :
    (p k : ℕ) (calls : ℕ → Call) (i : ℕ) (call : Call)
    → i < k
    → all_armed p k (set_call calls i call) + armed p (calls i) ≡ all_armed p k calls + armed p call
all_armed-set_call p zero calls i call h = absurd (omega arith)
all_armed-set_call p (suc k) calls i call h = elim (Bool-cases (i == k)) [
  | inl last ↦
      let same : i ≡ k = ground arith in
      rw last (rw same (omega (arith, all_armed-outside p k calls k call (omega arith))))
  | inr other ↦
      rw other (omega (arith, all_armed-set_call p k calls i call (ground (arith, h, other))))
]

same_best :
    (now p q : ℕ) (rest : List ℕ) (best : Option (ℕ × ℕ)) (all : Bool)
    → armed p (looking now rest best all) ≤ armed p (looking now (q ∷ rest) best all)
same_best now p q rest none all = omega arith
same_best now p q rest (some (b, oldest)) all = omega arith

settle-armed :
    (now p : ℕ) (best : Option (ℕ × ℕ)) (all : Bool)
    → armed p (settle now best all) ≤ armed p (looking now [] best all)
unfolding settle
settle-armed now p none true = omega arith
settle-armed now p none false = omega arith
settle-armed now p (some (b, oldest)) true = ground arith
settle-armed now p (some (b, oldest)) false = omega arith

module _ (s : Settings) (p : ℕ) where
  abbrev Arms : ℕ → Call → Call → Type 0
  Arms used before after = (armed p after ≤ armed p before) ⊎ (used < s.daily_limit)

  older_read-armed :
      (now q used t : ℕ) (rest rest' : List ℕ) (best : Option (ℕ × ℕ)) (all all' : Bool)
      → (q == p ≡ true → used < s.daily_limit)
      → Arms used (looking now rest' best all') (looking now rest (older_read best q t) all)
  unfolding older_read
  older_read-armed now q used t rest rest' none all all' few = elim (Bool-cases (q == p)) [
    | inl here ↦ inr (few here)
    | inr other ↦ inl (rw other (omega arith))
  ]
  older_read-armed now q used t rest rest' (some (b, oldest)) all all' few =
      elim (Bool-cases (q == p)) [
        | inl here ↦ inr (few here)
        | inr other ↦ inl (ground (arith, other))
      ]

  -- A round of the loop arms a call only where the account is under its limit.
  look-armed :
      (d : Text) (now : ℕ) (heap : ℕ → Account) (q : ℕ) (rest : List ℕ) (best : Option (ℕ × ℕ))
      (all : Bool)
      → s.date now ≡ d
      → 0 < s.daily_limit
      → Arms
          (used_on d (heap p))
          (looking now (q ∷ rest) best all)
          (look s now (heap q) q rest best all)
  unfolding look
  look-armed d now heap q rest best all today pos =
      elim (Bool-cases (exceeded_daily s now (heap q))) [
        | inl over ↦ rw (over, look) (inl (same_best now p q rest best all))
        | inr under ↦
            let few : q == p ≡ true → used_on d (heap p) < s.daily_limit = λ here.
              let same : q ≡ p = ground arith in
              exceeded_daily-lt s now today (heap p) pos (rw same at under) in
            elim (Bool-cases (in_use_cooldown s now (heap q))) [
              | inl rests ↦
                  rw (under, look)
                    (rw (rests, look)
                      (older_read-armed now q _ (heap q).last_used rest (q ∷ rest) best false all
                        few))
              | inr free ↦
                  rw (under, look)
                    (rw (free, look)
                      (elim (Bool-cases (q == p)) [
                        | inl here ↦ inr (few here)
                        | inr other ↦ inl (rw other (omega arith))
                      ]))
            ]
      ]

  -- A call that looks at the accounts started on the day.
  abbrev pub IsOn : Text → Call → Type 0
  IsOn d (looking now rest best all) = s.date now ≡ d
  IsOn d _ = Unit

  set_call-IsOn :
      (d : Text) (calls : ℕ → Call) (i : ℕ) (call : Call)
      → ((j : ℕ) → IsOn d (calls j))
      → IsOn d call
      → (j : ℕ) → IsOn d (set_call calls i call j)
  set_call-IsOn d calls i call all on j = elim (Bool-cases (i == j)) [
    | inl here ↦ rw here on
    | inr other ↦ rw other (all j)
  ]

  settle-IsOn :
      (d : Text) (now : ℕ) (best : Option (ℕ × ℕ)) (all : Bool) → IsOn d (settle now best all)
  unfolding settle
  settle-IsOn d now none true = tt
  settle-IsOn d now none false = tt
  settle-IsOn d now (some (b, oldest)) true = tt
  settle-IsOn d now (some (b, oldest)) false = tt

  look-IsOn :
      (d : Text) (now : ℕ) (acc : Account) (q : ℕ) (rest : List ℕ) (best : Option (ℕ × ℕ))
      (all : Bool)
      → s.date now ≡ d
      → IsOn d (look s now acc q rest best all)
  unfolding look
  look-IsOn d now acc q rest best all on = elim (Bool-cases (exceeded_daily s now acc)) [
    | inl over ↦ rw (over, look) on
    | inr under ↦ elim (Bool-cases (in_use_cooldown s now acc)) [
      | inl rests ↦ rw (under, look) (rw (rests, look) on)
      | inr free ↦ rw (under, look) (rw (free, look) tt)
    ]
  ]

  -- After `n` times in all that the account was handed out on the day, its count is `n` up to the
  -- limit, and those who may hand it out yet are few enough.
  record IsBounded (d : Text) (k n : ℕ) (c : Calls) : Type 0 where
    pub started : (i : ℕ) → IsOn d (c.1 i)
    pub counted : used_on d (c.0.heap p) ≡ min n s.daily_limit
    pub few : n + all_armed p k c.1 + 1 ≤ s.daily_limit + k

  touch-count :
      (d : Text) (now later : ℕ) (acc : Account)
      → s.date later ≡ d
      → 0 < s.daily_limit
      → used_on d (touch s now later acc)
        ≡ (if leb s.daily_limit (used_on d acc) then used_on d acc else used_on d acc + 1)
  unfolding touch check_and_update_daily_count
  touch-count d now later acc today pos = ground (arith, eqb_refl d)

  -- A call takes the place of another of the caller `i`, which is armed only under the limit.
  replace-IsBounded :
      (d : Text) (k n i : ℕ) (pool pool' : AccountPool) (calls : ℕ → Call) (call : Call)
      → i < k
      → pool'.heap ≡ pool.heap
      → IsOn d call
      → Arms (used_on d (pool.heap p)) (calls i) call
      → IsBounded d k n (pool, calls)
      → IsBounded d k n (pool', set_call calls i call)
  replace-IsBounded d k n i pool pool' calls call hi same on (inl less) h = record {
    started = set_call-IsOn d calls i call h.started on;
    counted = rw same h.counted;
    few = omega (arith, h.few, less, all_armed-set_call p k calls i call hi);
  }
  replace-IsBounded d k n i pool pool' calls call hi same on (inr under) h = record {
    started = set_call-IsOn d calls i call h.started on;
    counted = rw same h.counted;
    few = omega (arith, h.counted, under, all_armed-le p k (set_call calls i call));
  }

  begin-IsBounded :
      (d : Text) (k n i now : ℕ) (pool : AccountPool) (calls : ℕ → Call)
      → i < k
      → s.date now ≡ d
      → IsBounded d k n (pool, calls)
      → let r = begin now pool in IsBounded d k n (r.0, set_call calls i r.1)
  unfolding begin
  begin-IsBounded d k n i now pool calls hi today h = elim (Bool-cases (null pool.ready_accounts)) [
    | inl empty ↦
        rw (empty, begin)
          (replace-IsBounded d k n i pool pool calls idle hi refl tt (inl (omega arith)) h)
    | inr some_ready ↦
        rw (some_ready, begin)
          (replace-IsBounded d k n i pool _ calls _ hi refl today (inl (omega arith)) h)
  ]

  hand_out-IsBounded :
      (d : Text) (k n i now later q : ℕ) (pool : AccountPool) (calls : ℕ → Call)
      → i < k
      → s.date later ≡ d
      → 0 < s.daily_limit
      → calls i ≡ chosen now q
      → IsBounded d k n (pool, calls)
      → IsBounded d k (n + handed p (some q)) (hand_out s now later pool q, set_call calls i idle)
  unfolding hand_out
  hand_out-IsBounded d k n i now later q pool calls hi today pos at h = elim (Bool-cases (q == p)) [
    | inl here ↦
        let same : q ≡ p = ground arith in
        record {
          started = set_call-IsOn d calls i idle h.started tt;
          counted =
              ground (arith, touch-count d now later (pool.heap p) today pos, h.counted, same);
          few =
              ground (arith, h.few, all_armed-set_call p k calls i idle hi, ap (armed p) at, here);
        }
    | inr other ↦ record {
      started = set_call-IsOn d calls i idle h.started tt;
      counted = ground (arith, h.counted, other);
      few = ground (arith, h.few, all_armed-set_call p k calls i idle hi, ap (armed p) at, other);
    }
  ]

  none-IsBounded : (d : Text) (k n : ℕ) (c : Calls) → IsBounded d k n c → IsBounded d k (n + 0) c
  none-IsBounded d k n c h = record {
    started = h.started;
    counted = omega (arith, h.counted);
    few = omega (arith, h.few);
  }

  advance-IsBounded :
      (d : Text) (k n i later : ℕ) (pool : AccountPool) (calls : ℕ → Call) (call : Call)
      → i < k
      → s.date later ≡ d
      → 0 < s.daily_limit
      → calls i ≡ call
      → IsBounded d k n (pool, calls)
      → let r = advance s later pool call in
        IsBounded d k (n + handed p r.2) (r.0, set_call calls i r.1)
  unfolding advance
  advance-IsBounded d k n i later pool calls idle hi today pos at h =
      none-IsBounded d k n _
        (replace-IsBounded d k n i pool pool calls idle hi refl tt (inl (omega arith)) h)
  advance-IsBounded d k n i later pool calls (looking now [] best all) hi today pos at h =
      let call = settle now best all in
      let less : armed p call ≤ armed p (calls i) = rw at (settle-armed now p best all) in
      none-IsBounded d k n _ (
        replace-IsBounded d k n i pool pool calls call hi refl (settle-IsOn d now best all)
          (inl less) h)
  advance-IsBounded d k n i later pool calls (looking now (q ∷ rest) best all) hi today pos at h =
      let on : s.date now ≡ d = subst (IsOn d) at (h.started i) in
      let arms = look-armed d now pool.heap q rest best all on pos in
      none-IsBounded d k n _ (
        replace-IsBounded d k n i pool pool calls (look s now (pool.heap q) q rest best all) hi refl
          (look-IsOn d now (pool.heap q) q rest best all on) (rw at arms) h)
  advance-IsBounded d k n i later pool calls (chosen now q) hi today pos at h =
      hand_out-IsBounded d k n i now later q pool calls hi today pos at h

  -- The event is one of the first `k` callers, on the day.
  abbrev pub IsWithin : Text → ℕ → Event → Type 0
  IsWithin d k (starts i now) = (i < k) × (s.date now ≡ d)
  IsWithin d k (steps i later) = (i < k) × (s.date later ≡ d)

  happen-IsBounded :
      (d : Text) (k n : ℕ) (event : Event) (c : Calls)
      → 0 < s.daily_limit
      → IsWithin d k event
      → IsBounded d k n c
      → let r = happen s event c in IsBounded d k (n + handed p r.1) r.0
  unfolding happen
  happen-IsBounded d k n (starts i now) (pool, calls) pos (hi, on) h =
      elim (Bool-cases (is_idle (calls i))) [
        | inl free ↦
            rw (free, happen)
              (none-IsBounded d k n _ (begin-IsBounded d k n i now pool calls hi on h))
        | inr busy ↦ rw (busy, happen) (none-IsBounded d k n _ h)
      ]
  happen-IsBounded d k n (steps i later) (pool, calls) pos (hi, on) h =
      advance-IsBounded d k n i later pool calls (calls i) hi on pos refl h

  happenings-few :
      (d : Text) (k n : ℕ) (events : List Event) (c : Calls)
      → 0 < s.daily_limit
      → All (IsWithin d k) events
      → IsBounded d k n c
      → n + times_handed p (happenings s events c) + 1 ≤ s.daily_limit + k
  unfolding happenings
  happenings-few d k n [] c pos on h = omega (arith, h.few)
  happenings-few d k n (event ∷ events) c pos (first, on) h = omega (
    arith,
    happenings-few d k (n + handed p (happen s event c).1) events (happen s event c).0 pos on
        (happen-IsBounded d k n event c pos first h),
  )

all_armed-idle : (p k : ℕ) → all_armed p k (λ i. idle) ≡ 0
all_armed-idle p zero = refl
all_armed-idle p (suc k) = omega (arith, all_armed-idle p k)

-- With a limit above 0, on one day and however the steps of the calls of `k` callers interleave, as
-- long as nothing else changes the accounts, an account that starts within its limit is handed out at
-- most `k` - 1 times more than its limit; so where there is one caller, never beyond it.
pub happenings-le_limit :
    (s : Settings) (d : Text) (p k : ℕ) (events : List Event) (pool : AccountPool)
    → 0 < s.daily_limit
    → 0 < k
    → All (IsWithin s p d k) events
    → used_on d (pool.heap p) ≤ s.daily_limit
    → used_on d (pool.heap p) + times_handed p (happenings s events (pool, λ i. idle))
      ≤ s.daily_limit + (k - 1)
happenings-le_limit s d p k events pool pos some_caller on start =
    let before : IsBounded s p d k (used_on d (pool.heap p)) (pool, λ i. idle) = record {
      started = λ i. tt;
      counted = omega (arith, start);
      few = omega (arith, all_armed-idle p k, start);
    } in
    omega (
      arith,
      happenings-few s p d k (used_on d (pool.heap p)) events (pool, λ i. idle) pos on before,
    )
