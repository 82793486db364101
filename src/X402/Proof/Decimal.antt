-- ===== src/X402/Proof/Decimal.antt =====
-- Amounts as decimal texts: what is written is read back.
use vela_sdk.Prelude.{
  ℕ, zero, suc, ◌+◌, ◌/◌, ◌%◌, ◌<◌, ◌≡◌, refl, ap, ◌∙◌, true, [], ◌∷◌, pos, arith, ltb, all, inl,
  inr, Bool-cases,
}
use vela_sdk.Prelude.Result.{ok}
use vela_sdk.X402.Proof.{
  Text, string, is_digit, is_digits, read_digits, write_digits, decimal, parse_raw_amount,
}

read_digits-write_digits :
    (fuel n : ℕ) (text : Text)
    → n < fuel
    → read_digits 0 (write_digits fuel n text) ≡ read_digits n text
unfolding read_digits write_digits
read_digits-write_digits zero n text h = absurd (omega arith)
read_digits-write_digits (suc fuel) n text h =
    let rest = read_digits-write_digits fuel (n / 10) ((b'0' + n % 10) ∷ text) in
    elim (Bool-cases (ltb n 10)) [
      | inl small ↦ rw small (ap (λ m. read_digits m text) (omega arith))
      | inr large ↦ rw large (rest (ground arith) ∙ ap (λ m. read_digits m text) (omega arith))
    ]

is_digits-write_digits :
    (fuel n : ℕ) (text : Text)
    → n < fuel
    → all is_digit text ≡ true
    → is_digits (write_digits fuel n text) ≡ true
unfolding is_digits write_digits
is_digits-write_digits zero n text h k = absurd (omega arith)
is_digits-write_digits (suc fuel) n text h k =
    let rest = is_digits-write_digits fuel (n / 10) ((b'0' + n % 10) ∷ text) in
    elim (Bool-cases (ltb n 10)) [
      | inl small ↦ rw small (ground arith)
      | inr large ↦ rw large (rest (ground arith) (ground arith))
    ]

-- The text of any amount is a text of digits, which is parsed as that amount.
pub parse_raw_amount-decimal : (n : ℕ) → parse_raw_amount (string (decimal n)) ≡ ok (pos n)
unfolding parse_raw_amount decimal read_digits
parse_raw_amount-decimal n =
    rw (is_digits-write_digits (suc n) n [] (omega arith) refl)
      (ap (λ m. ok (pos m)) (read_digits-write_digits (suc n) n [] (omega arith)))

pub read_digits-decimal : (n : ℕ) → read_digits 0 (decimal n) ≡ n
unfolding decimal read_digits
read_digits-decimal n = read_digits-write_digits (suc n) n [] (omega arith)

pub is_digits-decimal : (n : ℕ) → is_digits (decimal n) ≡ true
unfolding decimal
is_digits-decimal n = is_digits-write_digits (suc n) n [] (omega arith) refl
