-- ===== src/Logger/Tests.antt =====
-- Runs of the log store, src/logger/store.go, and the theorems at concrete inputs.
use business2api.Base.{◌≡◌, refl, [], ◌++◌, take, keep, pos}
use business2api.Text.{
  codes, trim_space, drop_space, is_space, drop_prefix, has_prefix, contains, lower_ascii, eqb,
}
use business2api.Logger.Store.{
  RingStore, new_ring_store, append_raw, clean_line, drop_suffix, detect_level, upper, push_entry,
  recent, recent_loop, read_limit, after, wanted, match_source, match_level, normalize_source,
  normalize_level, lower, one_of,
}
use business2api.Logger.Bounds.{IsSound, new_ring_store-IsSound, append_raw-IsSound}
use business2api.Logger.Paging.{newer, after-keep}

-- A store for two lines.
abbrev small : RingStore
small = new_ring_store (pos 2)

abbrev two_lines : RingStore
two_lines = append_raw [] [] (codes "b") (append_raw [] [] (codes "[error] a") small)

two_levels : (recent (pos 9) (codes "all") (codes " Error") two_lines) ≡ take 1 two_lines.entries
unfolding new_ring_store append_raw clean_line drop_suffix drop_prefix has_prefix trim_space
    drop_space is_space detect_level upper contains push_entry recent recent_loop read_limit
    match_source match_level normalize_source normalize_level lower lower_ascii one_of eqb
two_levels = refl

small-IsSound : IsSound two_lines
small-IsSound =
    append_raw-IsSound [] [] (codes "b") (append_raw [] [] (codes "[error] a") small)
      (append_raw-IsSound [] [] (codes "[error] a") small (new_ring_store-IsSound (pos 2)))

append_raw-IsSound_example : IsSound (append_raw [] [] (codes "c") two_lines)
append_raw-IsSound_example = append_raw-IsSound [] [] (codes "c") two_lines small-IsSound

after-keep_example :
    keep (newer (wanted [] []) 0) two_lines.entries
    ≡ (after 0 (pos 1) [] [] two_lines).0
      ++ keep (newer (wanted [] []) (after 0 (pos 1) [] [] two_lines).1) two_lines.entries
after-keep_example = after-keep 0 (pos 1) [] [] two_lines small-IsSound
