-- ===== src/Pool/Load/Once.antt =====
-- src/pool/pool.go, `Load`: it queues no account twice.
use native.Mathlib.Decide.{dec_lt}
use business2api.Base.{
  ℕ, ◌≤◌, ◌<◌, ◌≡◌, refl, true, List, [], ◌∷◌, ◌++◌, Option, arith, inl, inr, Bool-cases,
  Option-cases, elem, count-append, null,
}
use business2api.Text.{Text}
use business2api.Pool.Account.{AccountData, Settings}
use business2api.Pool.State.{AccountPool}
use business2api.Pool.Jwt.{Codecs}
use business2api.Pool.Worker.{Disk}
use business2api.Pool.Queues.Moves.{queued, elem-pos}
use business2api.Pool.Load.{
  load, load_files, load_file, read_file, account_of_data, csesidx_of, should_skip_account_file,
  known_in, forget,
}
use business2api.Pool.Load.Known.{known_of-path}
use business2api.Pool.Load.Halfway.{Halfway, forget-Halfway, keep_known-Halfway, add_new-Halfway}

module _ (lib : Codecs) (s : Settings) where
  read_file-Halfway :
      (path : Text) (d : AccountData) (known : Text → Option ℕ) (pool : AccountPool)
      → Halfway known pool
      → Halfway known (read_file lib s path d pool)
  unfolding read_file
  read_file-Halfway path d known pool v = elim (Bool-cases (null (csesidx_of lib s d))) [
    | inl nameless ↦ rw nameless v
    | inr named ↦ rw named (add_new-Halfway lib s (account_of_data lib s path d) known pool v)
  ]

  load_file-Halfway :
      (disk : Disk) (path : Text) (known : Text → Option ℕ) (pool : AccountPool)
      → Halfway known pool
      → Halfway (forget path known) (load_file lib s disk path known pool)
  unfolding load_file
  load_file-Halfway disk path known pool v = elim (Bool-cases (should_skip_account_file path)) [
    | inl skips ↦ rw skips (forget-Halfway path known pool v)
    | inr reads ↦ elim (Option-cases (known path)) [
      | inr (p, found) ↦ rw (reads, found) (keep_known-Halfway lib s path p known pool found v)
      | inl unknown ↦ elim (Option-cases (disk path)) [
        | inl missing ↦ rw (reads, unknown, missing) (forget-Halfway path known pool v)
        | inr (d, content) ↦
            rw (reads, unknown, content)
              (forget-Halfway path known _ (read_file-Halfway path d known pool v))
      ]
    ]
  ]

  load_files-Halfway :
      (disk : Disk) (paths : List Text) (known : Text → Option ℕ) (pool : AccountPool)
      → Halfway known pool
      → (q : ℕ) → queued q (load_files lib s disk paths known pool) ≤ 1
  unfolding load_files
  load_files-Halfway disk [] known pool v = v.once
  load_files-Halfway disk (path ∷ paths) known pool v =
      load_files-Halfway disk paths (forget path known) (load_file lib s disk path known pool)
        (load_file-Halfway disk path known pool v)

  -- However often accounts were queued before, `Load` queues no account twice, where the pointers
  -- in use are below the next one.
  pub load-queued :
      (disk : Disk) (files : List Text) (pool : AccountPool)
      → ((p : ℕ) → pool.next_pointer ≤ p → queued p pool ≡ 0)
      → (q : ℕ) → queued q (load lib s disk files pool) ≤ 1
  unfolding load
  load-queued disk files pool used =
      load_files-Halfway disk files (known_in lib s pool)
        (record pool { ready_accounts = []; pending_accounts = [] })
        (record {
          fresh = λ p h. refl;
          path = λ path p e.
              (known_of-path pool.heap (pool.ready_accounts ++ pool.pending_accounts) path p e).0;
          old = λ path p e.
              old path p
                (known_of-path pool.heap (pool.ready_accounts ++ pool.pending_accounts) path p e).1;
          absent = λ path p e. refl;
          once = λ p. omega arith;
        })
    where
      old :
          (path : Text) (p : ℕ)
          → elem p (pool.ready_accounts ++ pool.pending_accounts) ≡ true
          → p < pool.next_pointer
      old path p m = elim (dec_lt p pool.next_pointer) [
        | yes below ↦ below
        | no above ↦ absurd (
            omega (
              arith,
              used p (omega arith),
              elem-pos p (pool.ready_accounts ++ pool.pending_accounts) m,
              count-append p pool.ready_accounts pool.pending_accounts,
            ))
      ]
