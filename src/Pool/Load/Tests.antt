-- ===== src/Pool/Load/Tests.antt =====
-- `Load` of src/pool/pool.go on small directories, and the theorems at concrete inputs.
use business2api.Base.{◌≤◌, ◌≡◌, refl, List, [], ◌∷◌, some, arith}
use business2api.Text.{Text, codes, eqb, split_on, lower_ascii}
use business2api.Pool.Worker.{Disk}
use business2api.Pool.Queues.Moves.{queued}
use business2api.Pool.Load.{
  load, load_files, load_file, keep_known, read_file, add_new, csesidx_of, should_skip_account_file,
  known_of, base_name, fold,
}
use business2api.Pool.Load.Once.{load-queued}
use business2api.Pool.Samples.{settings, pool_of, data_of, codecs}

-- Two files: the first belongs to account 0, the second to no account yet.
abbrev files : List Text
files = codes "a" ∷ codes "n" ∷ codes "Admin_Panel_Auth.json" ∷ []

abbrev disk : Disk
disk path = some (data_of path)

loaded_new : (load codecs settings disk files (pool_of (0 ∷ []) [])).pending_accounts ≡ 9 ∷ []
unfolding load load_files load_file keep_known read_file add_new csesidx_of should_skip_account_file
    known_of base_name fold lower_ascii split_on eqb
loaded_new = refl

load-queued_example : queued 1 (load codecs settings disk files (pool_of (1 ∷ 2 ∷ []) (1 ∷ []))) ≤ 1
load-queued_example =
    load-queued codecs settings disk files (pool_of (1 ∷ 2 ∷ []) (1 ∷ [])) (λ p h. ground arith) 1
