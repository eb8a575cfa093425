-- ===== src/Logger/Bounds.antt =====
-- src/logger/store.go: how many lines the store keeps, and their numbers.
use business2api.Base.{
  ℕ, ◌+◌, ◌-◌, ◌≤◌, ◌<◌, ◌≡◌, refl, List, [], ◌∷◌, ◌++◌, arith, length, length-append, leb, leb→le,
  Bool-cases, inl, inr, null, ℤ, pos, negsuc,
}
use business2api.Text.{Text}
use business2api.Logger.Store.{
  LogEntry, RingStore, new_ring_store, push_entry, append_raw, clean_line, detect_level, rest_of,
}

-- The entries carry the numbers from `n` on, one after the other.
abbrev pub Numbered : ℕ → List LogEntry → Type 0
Numbered n [] = Unit {0}
Numbered n (e ∷ es) = (e.id ≡ n) × Numbered (n + 1) es

-- The store has room for an entry and keeps no more than it has room for, and the entries carry the
-- last numbers that were given out.
pub record IsSound (store : RingStore) : Type 0 where
  pub room : 0 < store.capacity
  pub bounded : length store.entries ≤ store.capacity
  pub given : length store.entries ≤ store.next_id
  pub numbered : Numbered (store.next_id + 1 - length store.entries) store.entries

pub new_ring_store-IsSound : (capacity : ℤ) → IsSound (new_ring_store capacity)
unfolding new_ring_store
new_ring_store-IsSound (negsuc n) = record {
  room = omega arith;
  bounded = omega arith;
  given = omega arith;
  numbered = tt;
}
new_ring_store-IsSound (pos n) = record {
  room = ground arith;
  bounded = omega arith;
  given = omega arith;
  numbered = tt;
}

Numbered-snoc :
    (n : ℕ) (es : List LogEntry) (e : LogEntry)
    → Numbered n es
    → e.id ≡ n + length es
    → Numbered n (es ++ e ∷ [])
Numbered-snoc n [] e v same = (omega arith, tt)
Numbered-snoc n (x ∷ es) e (here, v) same = (here, Numbered-snoc (n + 1) es e v (omega arith))

renumbered : (m n : ℕ) (es : List LogEntry) → m ≡ n → Numbered m es → Numbered n es
renumbered m n es e v = rw e at v

length-rest_of : (es : List LogEntry) → 0 < length es → length (rest_of es) + 1 ≡ length es
length-rest_of [] h = absurd (omega arith)
length-rest_of (e ∷ es) h = omega arith

Numbered-rest_of :
    (n : ℕ) (es : List LogEntry) → 0 < length es → Numbered n es → Numbered (n + 1) (rest_of es)
Numbered-rest_of n [] h v = absurd (omega arith)
Numbered-rest_of n (e ∷ es) h v = v.1

-- The entries `es`, numbered up to `last`, and the next one behind them.
snoc-IsSound :
    (capacity last : ℕ) (es : List LogEntry) (e : LogEntry)
    → length es + 1 ≤ capacity
    → length es ≤ last
    → Numbered (last + 1 - length es) es
    → e.id ≡ last + 1
    → IsSound (record { capacity = capacity; next_id = last + 1; entries = es ++ e ∷ [] })
snoc-IsSound capacity last es e fits enough v same = record {
  room = omega arith;
  bounded = omega (arith, length-append es (e ∷ []));
  given = omega (arith, length-append es (e ∷ []));
  numbered =
      renumbered (last + 1 - length es) _ (es ++ e ∷ []) (omega (arith, length-append es (e ∷ [])))
        (Numbered-snoc (last + 1 - length es) es e v (omega arith));
}

push_entry-IsSound :
    (entry : LogEntry) (store : RingStore) → IsSound store → IsSound (push_entry entry store)
unfolding push_entry
push_entry-IsSound entry store v =
    let numbered : LogEntry = record entry { id = store.next_id + 1 } in
    let es = store.entries in
    let b = v.bounded in
    let g = v.given in
    let r = v.room in
    elim (Bool-cases (leb store.capacity (length es))) [
      | inl full ↦
          let some_entry : 0 < length es = omega (arith, leb→le _ _ full) in
          let one_less = length-rest_of es some_entry in
          rw full (
            snoc-IsSound store.capacity store.next_id (rest_of es) numbered (omega arith)
              (omega arith)
              (renumbered (store.next_id + 1 - length es + 1) _ (rest_of es) (omega arith)
                (Numbered-rest_of (store.next_id + 1 - length es) es some_entry v.numbered))
              refl)
      | inr free ↦
          let fits : length es + 1 ≤ store.capacity = ground arith in
          rw free (
            snoc-IsSound store.capacity store.next_id es numbered fits (omega arith) v.numbered
              refl)
    ]

-- Appending a line, whatever it holds, keeps the store within its room and its numbers without a
-- gap.
pub append_raw-IsSound :
    (ts source line : Text) (store : RingStore)
    → IsSound store
    → IsSound (append_raw ts source line store)
unfolding append_raw
append_raw-IsSound ts source line store v = elim (Bool-cases (null (clean_line line))) [
  | inl blank ↦ rw blank v
  | inr full ↦ rw full (
      push_entry-IsSound
        (record {
          id = 0;
          source = _;
          ts = ts;
          level = detect_level (clean_line line);
          message = clean_line line;
        })
        store v)
]
