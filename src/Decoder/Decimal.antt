-- ===== src/Decoder/Decimal.antt =====
-- `Display` of a `usize`, which the hex dump of src/decoder/hexdump.rs prints.
use rosetta_mq.Prelude.{
  ℕ, zero, suc, ◌+◌, ◌-◌, ◌*◌, ◌/◌, ◌%◌, ◌<◌, ◌≡◌, refl, ◌∙◌, [], ◌∷◌, ltb, if◌then◌else◌, arith,
}
use rosetta_mq.Text.{Text}

-- A number below the fuel has fewer digits than the fuel.
digits_from : ℕ → ℕ → Text → Text
digits_from zero n out = out
digits_from (suc fuel) n out =
    let rest = digits_from fuel (n / 10) ((48 + n % 10) ∷ out) in
    if ltb n 10 then (48 + n) ∷ out else rest

unfoldable pub decimal : ℕ → Text
unfolding digits_from
decimal n = digits_from (suc n) n []

-- The number that a row of digits stands for, behind the digits already read.
unfoldable pub value_from : ℕ → Text → ℕ
value_from acc [] = acc
value_from acc (c ∷ s) = value_from (acc * 10 + (c - 48)) s

digits_from_lem :
    (fuel n : ℕ) (out : Text) → n < fuel → value_from 0 (digits_from fuel n out) ≡ value_from n out
unfolding digits_from value_from
digits_from_lem zero n out h = elim h [ ]
digits_from_lem (suc fuel) n out h =
    ground (arith, digits_from_lem fuel (n / 10) ((48 + n % 10) ∷ out))

-- The printed digits read back as the number.
pub value-decimal : (n : ℕ) → value_from 0 (decimal n) ≡ n
value-decimal n =
    unfold decimal in digits_from_lem (suc n) n [] (omega arith) ∙ unfold value_from in refl
