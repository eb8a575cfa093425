-- ===== src/Api/Stats/Rate.antt =====
-- src/main.go, `GetRPM`: the requests of the last minute.
use mathlib.Core.List.{reverse-reverse, reverse-cons}
use business2api.Base.{
  ℕ, zero, suc, ◌+◌, ◌-◌, ◌≤◌, ◌≡◌, refl, sym, ap, ◌∙◌, Bool, List, [], ◌∷◌, ◌++◌, arith,
  if◌then◌else◌, min, length, length-append, take, drop, reverse,
}
use business2api.Text.{Text}
use business2api.Api.Stats.{
  ApiStats, Usage, record_request_with_model, keep_last, is_recent, recent_run, get_rpm,
}

drop-append : (k : ℕ) (xs ys : List ℕ) → k ≤ length xs → drop k (xs ++ ys) ≡ drop k xs ++ ys
drop-append zero xs ys h = refl
drop-append (suc k) [] ys h = absurd (omega arith)
drop-append (suc k) (x ∷ xs) ys h = drop-append k xs ys (omega arith)

drop_all : (k : ℕ) (xs : List ℕ) → length xs ≤ k → drop k xs ≡ []
drop_all zero [] h = refl
drop_all zero (x ∷ xs) h = absurd (omega arith)
drop_all (suc k) [] h = refl
drop_all (suc k) (x ∷ xs) h = drop_all k xs (omega arith)

length-reverse : (xs : List ℕ) → length (reverse xs) ≡ length xs
length-reverse [] = refl
length-reverse (x ∷ xs) =
    rw (reverse-cons x xs) (omega (arith, length-append (reverse xs) (x ∷ []), length-reverse xs))

-- The last `n` of a list are the first `n` of its reverse.
keep_last-reverse : (n : ℕ) (xs : List ℕ) → keep_last n (reverse xs) ≡ reverse (take n xs)
unfolding keep_last
keep_last-reverse zero xs = drop_all _ (reverse xs) (omega arith)
keep_last-reverse (suc n) [] = drop_all _ [] (omega arith)
keep_last-reverse (suc n) (x ∷ xs) =
    let k = length (reverse xs ++ x ∷ []) - suc n in
    let same : k ≡ length (reverse xs) - n = omega (arith, length-append (reverse xs) (x ∷ [])) in
    rw (reverse-cons x xs, reverse-cons x (take n xs))
      (drop-append k (reverse xs) (x ∷ []) (omega arith)
        ∙ ap (λ ys. ys ++ x ∷ []) (ap (λ j. drop j (reverse xs)) same ∙ keep_last-reverse n xs))

-- One request. A history lists them with the newest first.
pub record Request : Type 0 where
  pub now : ℕ
  pub hour : ℕ
  pub model : Text
  pub success : Bool
  pub usage : Usage

unfoldable pub history : List Request → ApiStats → ApiStats
unfolding record_request_with_model
history [] s = s
history (r ∷ older) s =
    record_request_with_model r.now r.hour r.model r.success r.usage (history older s)

abbrev pub times_of : List Request → List ℕ
times_of [] = []
times_of (r ∷ older) = r.now ∷ times_of older

-- The clock does not go back: no time is before an older one.
abbrev pub IsChronicle : List ℕ → Type 0
IsChronicle [] = Unit
IsChronicle (t ∷ []) = Unit
IsChronicle (t ∷ u ∷ ts) = (u ≤ t) × IsChronicle (u ∷ ts)

abbrev pub recent_count : ℕ → List ℕ → ℕ
recent_count now [] = 0
recent_count now (t ∷ ts) = (if is_recent now t then 1 else 0) + recent_count now ts

recent_run-take : (now n : ℕ) (ts : List ℕ) → recent_run now (take n ts) ≡ min n (recent_run now ts)
unfolding recent_run
recent_run-take now zero ts = omega arith
recent_run-take now (suc n) [] = omega arith
recent_run-take now (suc n) (t ∷ ts) = ground (arith, recent_run-take now n ts)

recent_run-recent_count :
    (now : ℕ) (ts : List ℕ) → IsChronicle ts → recent_run now ts ≡ recent_count now ts
unfolding recent_run is_recent
recent_run-recent_count now [] h = refl
recent_run-recent_count now (t ∷ []) h = ground arith
recent_run-recent_count now (t ∷ u ∷ ts) (le, h) =
    ground (arith, recent_run-recent_count now (u ∷ ts) h)

take-take_le : (m n : ℕ) (ts : List ℕ) → m ≤ n → take m (take n ts) ≡ take m ts
take-take_le zero n ts h = refl
take-take_le (suc m) zero ts h = absurd (omega arith)
take-take_le (suc m) (suc n) [] h = refl
take-take_le (suc m) (suc n) (t ∷ ts) h = ap (◌∷◌ t) (take-take_le m n ts (omega arith))

take-cons-take : (n : ℕ) (t : ℕ) (ts : List ℕ) → take n (t ∷ take n ts) ≡ take n (t ∷ ts)
take-cons-take zero t ts = refl
take-cons-take (suc n) t ts = ap (◌∷◌ t) (take-take_le n (suc n) ts (omega arith))

-- What the server keeps of the times, after a history that starts with none.
history-times :
    (rs : List Request) (s : ApiStats)
    → s.request_times ≡ []
    → (history rs s).request_times ≡ reverse (take 1000 (times_of rs))
unfolding history record_request_with_model
history-times [] s h = h
history-times (r ∷ older) s h =
    let ih = history-times older s h in
    let kept = take 1000 (times_of older) in
    ap (λ ts. keep_last 1000 (ts ++ r.now ∷ [])) ih
    ∙ (ap (keep_last 1000) (sym (reverse-cons r.now kept))
        ∙ (keep_last-reverse 1000 (r.now ∷ kept)
            ∙ ap reverse (take-cons-take 1000 r.now (times_of older))))

-- After any history of requests, in which the clock does not go back, the rate that is shown is the
-- number of requests of the last minute, up to 1000.
pub get_rpm-history :
    (now : ℕ) (rs : List Request) (s : ApiStats)
    → s.request_times ≡ []
    → IsChronicle (times_of rs)
    → get_rpm now (history rs s).request_times ≡ min 1000 (recent_count now (times_of rs))
unfolding get_rpm
get_rpm-history now rs s empty chronicle =
    let ts = times_of rs in
    ap (λ ys. recent_run now (reverse ys)) (history-times rs s empty)
    ∙ (ap (recent_run now) (reverse-reverse (take 1000 ts))
        ∙ (recent_run-take now 1000 ts ∙ ap (min 1000) (recent_run-recent_count now ts chronicle)))
