-- ===== src/X402/Base58.antt =====
-- `decodeBase58` of src/x402/server.ts, on the codes of the text's characters.
use vela_sdk.Prelude.{
  ℕ, zero, suc, ◌+◌, ◌*◌, ◌/◌, ◌%◌, ◌≤◌, ◌≡◌, refl, ap, ◌∙◌, Option, none, some, List, [], ◌∷◌,
  ◌++◌, ltb, ◌==◌, if◌then◌else◌, arith, Option-cases, inl, inr,
}
use mathlib.Core.List.{reverse}
use mathlib.Mathlib.Data.List.Basic.{reverse-Involutive}
use vela_sdk.Bytes.{codes, of_le_bytes}

abbrev pub base58_alphabet : List ℕ
base58_alphabet = codes "123456789ABCDEFGHJKLMNPQRSTUVWXYZabcdefghijkmnopqrstuvwxyz"

-- `indexOf`, from `index` on.
unfoldable pub index_from : ℕ → ℕ → List ℕ → Option ℕ
index_from index c [] = none
index_from index c (a ∷ alphabet) = if a == c then some index else index_from (suc index) c alphabet

-- `while (carry > 0) { digits.push(carry & 0xff); carry >>= 8; }`, with the fuel `carry`.
unfoldable pub push_carry : ℕ → ℕ → List ℕ
push_carry zero carry = []
push_carry (suc fuel) carry =
    let more = push_carry fuel (carry / 256) in if ltb 0 carry then (carry % 256) ∷ more else []

-- Every digit times 58, with the carry.
unfoldable pub multiply_add : List ℕ → ℕ → List ℕ
multiply_add [] carry = push_carry carry carry
multiply_add (digit ∷ digits) carry =
    let next = digit * 58 + carry in (next % 256) ∷ multiply_add digits (next / 256)

-- The digits, least first, after the characters of a text.
unfoldable pub read_base58 : List ℕ → List ℕ → Option (List ℕ)
read_base58 digits [] = some digits
read_base58 digits (c ∷ text) = elim (index_from 0 c base58_alphabet) [
  | none ↦ none
  | some carry ↦ read_base58 (multiply_add digits carry) text
]

-- One zero for each `1` at the front.
unfoldable pub leading_zeros : List ℕ → List ℕ
leading_zeros [] = []
leading_zeros (c ∷ text) = if c == b'1' then 0 ∷ leading_zeros text else []

unfoldable pub decode_base58 : List ℕ → Option (List ℕ)
decode_base58 text = elim (read_base58 (0 ∷ []) text) [
  | none ↦ none
  | some digits ↦ some (reverse (digits ++ leading_zeros text))
]

of_le_bytes-push_carry :
    (fuel carry : ℕ) → carry ≤ fuel → of_le_bytes (push_carry fuel carry) ≡ carry
unfolding push_carry of_le_bytes
of_le_bytes-push_carry zero carry h = omega arith
of_le_bytes-push_carry (suc fuel) carry h =
    let rest = of_le_bytes-push_carry fuel (carry / 256) (omega arith) in ground arith

-- One step multiplies the value of the digits by 58 and adds the character's index.
pub of_le_bytes-multiply_add :
    (digits : List ℕ) (carry : ℕ)
    → of_le_bytes (multiply_add digits carry) ≡ of_le_bytes digits * 58 + carry
unfolding multiply_add of_le_bytes
of_le_bytes-multiply_add [] carry = of_le_bytes-push_carry carry carry (omega arith) ∙ omega arith
of_le_bytes-multiply_add (digit ∷ digits) carry =
    omega (arith, of_le_bytes-multiply_add digits ((digit * 58 + carry) / 256))

-- The number that a text means in base 58, after characters of value `n`.
unfoldable pub base58_value : ℕ → List ℕ → Option ℕ
base58_value n [] = some n
base58_value n (c ∷ text) = elim (index_from 0 c base58_alphabet) [
  | none ↦ none
  | some index ↦ base58_value (n * 58 + index) text
]

abbrev pub map_value : Option (List ℕ) → Option ℕ
map_value none = none
map_value (some digits) = some (of_le_bytes digits)

read_base58-base58_value :
    (digits text : List ℕ)
    → map_value (read_base58 digits text) ≡ base58_value (of_le_bytes digits) text
unfolding read_base58 base58_value
read_base58-base58_value digits [] = refl
read_base58-base58_value digits (c ∷ text) = elim (Option-cases (index_from 0 c base58_alphabet)) [
  | inl missing ↦ rw (missing, map_value, base58_value) refl
  | inr (index, e) ↦
      rw (e, map_value, base58_value)
        (read_base58-base58_value (multiply_add digits index) text
          ∙ ap (λ n. base58_value n text) (of_le_bytes-multiply_add digits index))
]

of_le_bytes-leading_zeros :
    (digits text : List ℕ) → of_le_bytes (digits ++ leading_zeros text) ≡ of_le_bytes digits
unfolding of_le_bytes leading_zeros
of_le_bytes-leading_zeros [] [] = refl
of_le_bytes-leading_zeros [] (c ∷ text) =
    let rest = of_le_bytes-leading_zeros [] text in ground arith
of_le_bytes-leading_zeros (digit ∷ digits) text =
    ap (λ n. digit + 256 * n) (of_le_bytes-leading_zeros digits text)

-- A text decodes exactly when every character is in the alphabet, and the bytes, the most
-- significant first, are then the number that the text means in base 58.
pub decode_base58-base58_value :
    (text : List ℕ)
    → elim (decode_base58 text) [ none ↦ none | some bytes ↦ some (of_le_bytes (reverse bytes)) ]
      ≡ base58_value 0 text
unfolding decode_base58 of_le_bytes
decode_base58-base58_value text =
    let h : map_value (read_base58 (0 ∷ []) text) ≡ base58_value 0 text =
      read_base58-base58_value (0 ∷ []) text in
    elim (Option-cases (read_base58 (0 ∷ []) text)) [
      | inl missing ↦ rw missing (rw missing at h)
      | inr (digits, e) ↦ rw e (
          ap some (
            ap of_le_bytes (reverse-Involutive (digits ++ leading_zeros text))
            ∙ of_le_bytes-leading_zeros digits text)
          ∙ rw e at h)
    ]
