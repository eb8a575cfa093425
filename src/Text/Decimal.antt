-- ===== src/Text/Decimal.antt =====
-- Decimal printing, `%d` of package `fmt`, and reading back.
use business2api.Base.{
  ℕ, zero, suc, ◌+◌, ◌-◌, ◌*◌, ◌/◌, ◌%◌, ◌<◌, ◌≡◌, refl, ap, sym, ◌∙◌, [], ◌∷◌, refl, ◌++◌, arith,
  ltb, ltb→lt, reverse, false, if◌then◌else◌, Bool-cases, inl, inr,
}
use mathlib.Core.List.{append_assoc, reverse-append}
use business2api.Text.Defs.{Text, is_space, StartsSolid}

unfoldable pub decimal_fuel : ℕ → ℕ → Text
decimal_fuel zero n = []
decimal_fuel (suc fuel) n =
    let rest = decimal_fuel fuel (n / 10) in
    if ltb n 10 then (b'0' + n) ∷ [] else rest ++ (b'0' + n % 10) ∷ []

-- A number has no more digits than one more than its value.
unfoldable pub decimal : ℕ → Text
unfolding decimal_fuel
decimal n = decimal_fuel (suc n) n

unfoldable pub read_decimal : ℕ → Text → ℕ
read_decimal acc [] = acc
read_decimal acc (c ∷ s) = read_decimal (acc * 10 + (c - b'0')) s

read_decimal-append :
    (acc : ℕ) (s t : Text) → read_decimal acc (s ++ t) ≡ read_decimal (read_decimal acc s) t
unfolding read_decimal
read_decimal-append acc [] t = refl
read_decimal-append acc (c ∷ s) t = read_decimal-append (acc * 10 + (c - b'0')) s t

read_decimal-decimal_fuel : (fuel n : ℕ) → n < fuel → read_decimal 0 (decimal_fuel fuel n) ≡ n
unfolding read_decimal decimal_fuel
read_decimal-decimal_fuel zero n h = elim h [ ]
read_decimal-decimal_fuel (suc fuel) n h = elim (Bool-cases (ltb n 10)) [
  | inl small ↦ rw small (omega arith)
  | inr large ↦ rw large (
      rw (read_decimal-append 0 (decimal_fuel fuel (n / 10)) ((b'0' + n % 10) ∷ []))
        (rw (read_decimal-decimal_fuel fuel (n / 10) (ground arith)) (omega arith)))
]

pub read_decimal-decimal : (n : ℕ) → read_decimal 0 (decimal n) ≡ n
unfolding decimal
read_decimal-decimal n = read_decimal-decimal_fuel (suc n) n (omega arith)

-- Two numbers that print alike are the same.
pub decimal-injective : (m n : ℕ) → decimal m ≡ decimal n → m ≡ n
decimal-injective m n e =
    sym (read_decimal-decimal m) ∙ (ap (read_decimal 0) e ∙ read_decimal-decimal n)

-- The last digit is no white space.
decimal-last : (n : ℕ) → (s : Text) × (d : ℕ) × (d < 10) × (decimal n ≡ s ++ (b'0' + d) ∷ [])
unfolding decimal decimal_fuel
decimal-last n = elim (Bool-cases (ltb n 10)) [
  | inl small ↦ rw small ([], n, ltb→lt n 10 small, refl)
  | inr large ↦ rw large (decimal_fuel n (n / 10), n % 10, omega arith, refl)
]

digit-solid : (d : ℕ) → d < 10 → is_space (b'0' + d) ≡ false
unfolding is_space
digit-solid d h = ground arith

-- A text that ends in a number ends in no white space.
pub append-decimal-StartsSolid : (s : Text) (n : ℕ) → StartsSolid (reverse (s ++ decimal n))
append-decimal-StartsSolid s n =
    let (t, d, h, e) = decimal-last n in
    rw (e, ← append_assoc s t ((b'0' + d) ∷ []))
      (rw (reverse-append (s ++ t) ((b'0' + d) ∷ [])) (digit-solid d h))
