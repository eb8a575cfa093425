-- ===== src/Text/Entries.antt =====
-- Go maps keyed by strings, as lists of entries in the order of an iteration, and a string's length
-- in bytes.
use business2api.Base.{
  ℕ, ◌+◌, ◌≡◌, refl, List, [], ◌∷◌, Option, none, some, arith, ltb, if◌then◌else◌,
}
use business2api.Text.Defs.{Text, eqb, eqb_iff}

-- `len(s)`, by the widths of the runes in UTF-8.
unfoldable pub byte_length : Text → ℕ
byte_length [] = 0
byte_length (c ∷ s) =
    (if ltb c 0x80 then 1 else if ltb c 0x800 then 2 else if ltb c 0x10000 then 3 else 4)
    + byte_length s

abbrev pub StringMap {ℓ} : Type ℓ → Type ℓ
StringMap V = List (Text × V)

module _ {ℓ} {V : Type ℓ} where
  unfoldable pub find_entry : Text → StringMap V → Option V
  find_entry k [] = none
  find_entry k ((q, v) ∷ es) = if eqb q k then some v else find_entry k es

  -- `m[k] = v`.
  unfoldable pub set_entry : Text → V → StringMap V → StringMap V
  set_entry k v [] = (k, v) ∷ []
  set_entry k v ((q, w) ∷ es) = if eqb q k then (k, v) ∷ es else (q, w) ∷ set_entry k v es

  -- `delete(m, k)`.
  unfoldable pub delete_entry : Text → StringMap V → StringMap V
  delete_entry k [] = []
  delete_entry k ((q, v) ∷ es) = if eqb q k then delete_entry k es else (q, v) ∷ delete_entry k es

  -- A function on the keys, changed at one key.
  abbrev pub at_key : Text → Option V → (Text → Option V) → Text → Option V
  at_key k v f q = if eqb k q then v else f q

  pub find_entry-set_entry :
      (k : Text) (v : V) (es : StringMap V) (q : Text)
      → find_entry q (set_entry k v es) ≡ at_key k (some v) (λ p. find_entry p es) q
  unfolding find_entry set_entry
  find_entry-set_entry k v [] q = refl
  find_entry-set_entry k v ((p, w) ∷ es) q =
      ground (arith, find_entry-set_entry k v es q, eqb_iff p k, eqb_iff k q, eqb_iff p q)

  pub find_entry-delete_entry :
      (k : Text) (es : StringMap V) (q : Text)
      → find_entry q (delete_entry k es) ≡ at_key k none (λ p. find_entry p es) q
  unfolding find_entry delete_entry
  find_entry-delete_entry k [] q = ground arith
  find_entry-delete_entry k ((p, w) ∷ es) q =
      ground (arith, find_entry-delete_entry k es q, eqb_iff p k, eqb_iff k q, eqb_iff p q)
