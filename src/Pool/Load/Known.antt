-- ===== src/Pool/Load/Known.antt =====
-- src/pool/pool.go, `Load`: what the map of known accounts holds.
use business2api.Base.{
  ℕ, ◌≡◌, ◌≢◌, true, List, [], ◌∷◌, Option, some, arith, inl, inr, Bool-cases, Option-cases, elem,
}
use business2api.Text.{Text, eqb, eqb_iff}
use business2api.Pool.Account.{Account}
use business2api.Pool.Load.{known_of, forget}

-- A known account has the path under which it is known, and is one of the list.
pub known_of-path :
    (heap : ℕ → Account) (ps : List ℕ) (path : Text) (p : ℕ)
    → known_of heap ps path ≡ some p
    → ((heap p).file_path ≡ path) × (elem p ps ≡ true)
unfolding known_of
known_of-path heap [] path p e = cc
known_of-path heap (q ∷ ps) path p e = elim (Option-cases (known_of heap ps path)) [
  | inl absent ↦ elim (Bool-cases (eqb (heap q).file_path path)) [
    | inl same ↦ ground (arith, (eqb_iff (heap q).file_path path).0 same)
    | inr other ↦ ground arith
  ]
  | inr (r, found) ↦ ground (arith, known_of-path heap ps path r found)
]

pub forget-other :
    (path other : Text) (known : Text → Option ℕ) (p : ℕ)
    → forget path known other ≡ some p
    → (path ≢ other) × (known other ≡ some p)
forget-other path other known p e = elim (Bool-cases (eqb path other)) [
  | inl same ↦ ground arith
  | inr apart ↦ (λ x. ground (arith, (eqb_iff path other).1 x), ground arith)
]
