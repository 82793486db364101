-- ===== src/Billing/Amount.antt =====
-- Display amounts: `parseAmount` and `formatAmount` of src/token, on the codes of the characters.
-- `trim` changes no text that the pattern accepts, so its test is part of the pattern's.
pub mod RoundTrip
use vela_sdk.Prelude.{
  ℕ, zero, suc, ◌+◌, ◌-◌, Bool, true, false, not, ◌&&◌, Option, none, some, List, [], ◌∷◌, ◌++◌, ℤ,
  pos, negsuc, ltb, ◌==◌, if◌then◌else◌, length, take, drop, replicate,
}
use vela_sdk.Prelude.Int.{ltb_ℤ}
use vela_sdk.Prelude.Result.{Result, ok, err, ◌>>=◌, ◌>>◌, throw_if}
use vela_sdk.X402.Proof.{Text, is_digits, read_digits, decimal}

pub data AmountError : Type 0 where
  malformed_amount : AmountError
  amount_precision_exceeded : Text → ℕ → AmountError

-- `text.split(".")`, up to the first point: what is before it, and what is after it.
unfoldable pub split_point : Text → Text × Option Text
split_point [] = ([], none)
split_point (c ∷ text) =
    let rest = split_point text in if c == b'.' then ([], some text) else (c ∷ rest.0, rest.1)

-- `/^\d+(?:\.\d+)?$/`, on the parts.
unfoldable pub is_amount : Text → Option Text → Bool
is_amount whole none = is_digits whole
is_amount whole (some fraction) = is_digits whole && is_digits fraction

abbrev pub fraction_of : Option Text → Text
fraction_of none = []
fraction_of (some fraction) = fraction

-- `fraction.padEnd(decimals, "0")` and `text.padStart(width, "0")`.
unfoldable pub pad_end : Text → ℕ → Text
pad_end text width = text ++ replicate (width - length text) b'0'

unfoldable pub pad_start : Text → ℕ → Text
pad_start text width = replicate (width - length text) b'0' ++ text

unfoldable pub parse_amount : Text → ℕ → Result AmountError ℤ
parse_amount display_amount decimals = do
  let parts = split_point display_amount
  throw_if (not (is_amount parts.0 parts.1)) malformed_amount
  let fraction = fraction_of parts.1
  throw_if (ltb decimals (length fraction)) (amount_precision_exceeded display_amount decimals)
  ok (pos (read_digits 0 (parts.0 ++ pad_end fraction decimals)))

abbrev pub absolute : ℤ → ℕ
absolute (pos n) = n
absolute (negsuc n) = suc n

abbrev pub is_empty_text : Text → Bool
is_empty_text [] = true
is_empty_text (c ∷ text) = false

-- `text.replace(/0+$/, "")`
unfoldable pub strip_zeros : Text → Text
strip_zeros [] = []
strip_zeros (c ∷ text) =
    let rest = strip_zeros text in if is_empty_text rest && c == b'0' then [] else c ∷ rest

-- The two parts of the padded digits: all but the last `decimals`, and those.
unfoldable pub format_absolute : ℕ → ℕ → Text
format_absolute n decimals =
    let padded = pad_start (decimal n) (decimals + 1) in
    let whole = if decimals == 0 then padded else take (length padded - decimals) padded in
    let fraction =
      if decimals == 0 then [] else strip_zeros (drop (length padded - decimals) padded) in
    if is_empty_text fraction then whole else whole ++ b'.' ∷ fraction

unfoldable pub format_amount : ℤ → ℕ → Text
format_amount raw_amount decimals =
    let formatted = format_absolute (absolute raw_amount) decimals in
    if ltb_ℤ raw_amount (pos 0) then b'-' ∷ formatted else formatted
