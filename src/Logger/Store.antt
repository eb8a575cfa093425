-- ===== src/Logger/Store.antt =====
-- src/logger/store.go, `RingStore`: the last log lines, numbered, and the two ways to read them. The
-- mutex makes each operation one step.
use business2api.Base.{
  ℕ, ◌+◌, ◌-◌, Bool, not, ◌&&◌, ◌||◌, List, [], ◌∷◌, ◌++◌, map, reverse, ltb, leb, ◌==◌,
  if◌then◌else◌, null, length, ℤ, pos, negsuc,
}
use business2api.Text.{Text, codes, eqb, trim_space, drop_prefix, contains, lower_ascii}

pub record LogEntry : Type 0 where
  pub id : ℕ
  pub source : Text
  pub ts : Text
  pub level : Text
  pub message : Text

pub record RingStore : Type 0 where
  pub capacity : ℕ
  pub next_id : ℕ
  pub entries : List LogEntry

unfoldable pub new_ring_store : ℤ → RingStore
new_ring_store (negsuc n) = record { capacity = 5000; next_id = 0; entries = [] }
new_ring_store (pos n) = record { capacity = if n == 0 then 5000 else n; next_id = 0; entries = [] }

-- `strings.TrimSuffix`.
unfoldable pub drop_suffix : Text → Text → Text
drop_suffix s p = reverse (drop_prefix (reverse s) (reverse p))

-- `unicode.ToUpper` on ASCII: no other rune becomes a letter that `detect_level` looks for.
unfoldable pub upper : ℕ → ℕ
upper c = if leb b'a' c && leb c b'z' then c - 32 else c

unfoldable pub detect_level : Text → Text
unfolding upper contains
detect_level line =
    let up = map upper line in
    if contains up (codes "[ERROR]") || contains up (codes "❌")
    then codes "error"
    else if contains up (codes "[WARN]") || contains up (0x26a0 ∷ 0xfe0f ∷ [])
    then codes "warn"
    else if contains up (codes "[DEBUG]")
    then codes "debug"
    else codes "info"

-- `unicode.ToLower` on ASCII and on the two other runes that become an ASCII letter.
unfoldable pub lower : ℕ → ℕ
unfolding lower_ascii
lower c = if c == 0x130 then b'i' else if c == 0x212a then b'k' else lower_ascii c

abbrev pub all : Text
all = codes "all"

-- The word, in lower case and trimmed, if it is one of the list, else "all".
unfoldable pub one_of : List Text → Text → Text
one_of [] word = all
one_of (w ∷ ws) word = let rest = one_of ws word in if eqb word w then w else rest

unfoldable pub normalize_source : Text → Text
unfolding lower one_of
normalize_source source =
    one_of (codes "business2api" ∷ codes "registrar" ∷ all ∷ []) (map lower (trim_space source))

unfoldable pub normalize_level : Text → Text
unfolding lower one_of
normalize_level level =
    one_of (codes "error" ∷ codes "warn" ∷ codes "info" ∷ codes "debug" ∷ all ∷ [])
      (map lower (trim_space level))

unfoldable pub match_source : Text → Text → Bool
unfolding normalize_source
match_source filter source = eqb filter all || eqb (normalize_source source) filter

unfoldable pub match_level : Text → Text → Bool
unfolding normalize_level
match_level filter level = eqb filter all || eqb (normalize_level level) filter

unfoldable pub clean_line : Text → Text
unfolding drop_suffix
clean_line line = trim_space (drop_suffix (drop_suffix line (codes "\n")) (codes "\r"))

-- `entries[1:]`: the oldest entry is left out.
abbrev pub rest_of : List LogEntry → List LogEntry
rest_of [] = []
rest_of (e ∷ es) = es

unfoldable pub push_entry : LogEntry → RingStore → RingStore
push_entry entry store =
    let id = store.next_id + 1 in
    let numbered : LogEntry = record entry { id = id } in
    record store {
      next_id = id;
      entries =
          (if leb store.capacity (length store.entries)
            then rest_of store.entries
            else store.entries)
          ++ numbered ∷ [];
    }

-- `AppendRaw` at the time that prints as `ts`; an empty line is no entry. The
-- entry that the function also returns is the last one of the store.
unfoldable pub append_raw : Text → Text → Text → RingStore → RingStore
unfolding clean_line detect_level push_entry
append_raw ts source line store =
    let clean = clean_line line in
    if null clean
    then store
    else push_entry
        (record {
          id = 0;
          source = if null (trim_space source) then codes "business2api" else source;
          ts = ts;
          level = detect_level clean;
          message = clean;
        })
        store

unfoldable pub read_limit : ℤ → ℕ
read_limit (negsuc n) = 200
read_limit (pos n) = if n == 0 then 200 else if ltb 1000 n then 1000 else n

abbrev pub wanted : Text → Text → LogEntry → Bool
wanted source level entry =
    match_source (normalize_source source) entry.source
    && match_level (normalize_level level) entry.level

-- The loop from the newest entry on.
unfoldable pub recent_loop : (LogEntry → Bool) → ℕ → ℕ → List LogEntry → List LogEntry
recent_loop wants limit taken [] = []
recent_loop wants limit taken (e ∷ es) =
    let skip = recent_loop wants limit taken es in
    let more = recent_loop wants limit (taken + 1) es in
    if not (wants e) then skip else if leb limit (taken + 1) then e ∷ [] else e ∷ more

unfoldable pub recent : ℤ → Text → Text → RingStore → List LogEntry
unfolding read_limit recent_loop
recent limit source level store =
    reverse (recent_loop (wanted source level) (read_limit limit) 0 (reverse store.entries))

-- The loop from the oldest entry on, with the largest number given out so far.
unfoldable pub after_loop : (LogEntry → Bool) → ℕ → ℕ → ℕ → ℕ → List LogEntry → List LogEntry × ℕ
after_loop wants limit after taken next [] = ([], next)
after_loop wants limit after taken next (e ∷ es) =
    let skip = after_loop wants limit after taken next es in
    let next' = if ltb next e.id then e.id else next in
    let more = after_loop wants limit after (taken + 1) next' es in
    if leb e.id after || not (wants e)
    then skip
    else if leb limit (taken + 1)
    then (e ∷ [], next')
    else (e ∷ more.0, more.1)

-- `After` for a number that is not negative.
unfoldable pub after : ℕ → ℤ → Text → Text → RingStore → List LogEntry × ℕ
unfolding read_limit after_loop
after after_id limit source level store =
    after_loop (wanted source level) (read_limit limit) after_id 0 after_id store.entries
