-- ===== src/X402/Proof.antt =====
-- Payment challenges and proofs: src/x402/proof.ts. A text is a string where it is only compared,
-- and the codes of its characters where it is parsed; times are milliseconds.
pub mod Decimal
use Prim.Native.String.{String}
use vela_sdk.Prelude.{
  ℕ, zero, suc, ◌+◌, ◌-◌, ◌*◌, ◌/◌, ◌%◌, ◌^◌, Bool, true, false, not, ◌&&◌, ◌||◌, Option, none,
  some, List, [], ◌∷◌, ℤ, pos, negsuc, pos_part, ◌+ℤ◌, ltb, leb, if◌then◌else◌, all,
}
use vela_sdk.Prelude.Int.{leb_ℤ, ltb_ℤ}
use vela_sdk.Prelude.Result.{Result, ok, err, ◌>>=◌, ◌>>◌, throw_if}
use vela_sdk.Accounts.PullApproval.{or_else}

abbrev pub Text : Type 0
Text = List ℕ

-- `VelaPaymentChallenge`, whose `version` is constant.
pub record PaymentChallenge : Type 0 where
  pub amount : Text
  pub network : String
  pub address : String
  pub authority : String
  pub destination : String
  pub nonce : String
  pub expires : ℤ
  pub service : Option String
  pub wrapped_usdc_mint : Option String
  pub protocol_program : Option String

-- `VelaPaymentProof`: the challenge's fields and two more.
pub record PaymentProof : Type 0 where
  pub challenge : PaymentChallenge
  pub tx_signature : String
  pub paid_at : ℤ

-- The errors of src/errors/sdk-errors.ts.
pub data PaymentError : Type 0 where
  invalid_raw_amount : PaymentError
  invalid_payment_header : PaymentError
  payment_proof_expired : PaymentError
  payment_proof_mismatch : String → PaymentError
  payment_transaction_verification : String → PaymentError

-- `bigint | number | string`. A number is an integer, or none: a fraction, an infinity or NaN.
pub data RawAmount : Type 0 where
  bigint : ℤ → RawAmount
  number : Option ℤ → RawAmount
  string : Text → RawAmount

-- `Number.isSafeInteger`
unfoldable pub is_safe_integer : ℤ → Bool
is_safe_integer n = leb_ℤ n (pos (2 ^ 53 - 1)) && leb_ℤ (pos 0) (n +ℤ pos (2 ^ 53 - 1))

abbrev pub is_digit : ℕ → Bool
is_digit c = leb b'0' c && leb c b'9'

-- `/^\d+$/`
unfoldable pub is_digits : Text → Bool
is_digits [] = false
is_digits (c ∷ text) = is_digit c && all is_digit text

-- `BigInt(text)` of digits that follow digits of value `n`.
unfoldable pub read_digits : ℕ → Text → ℕ
read_digits n [] = n
read_digits n (c ∷ text) = read_digits (n * 10 + (c - b'0')) text

non_negative : ℤ → Result PaymentError ℤ
non_negative amount = if ltb_ℤ amount (pos 0) then err invalid_raw_amount else ok amount

unfoldable pub parse_raw_amount : RawAmount → Result PaymentError ℤ
unfolding non_negative
parse_raw_amount (bigint amount) = non_negative amount
parse_raw_amount (number none) = err invalid_raw_amount
parse_raw_amount (number (some n)) =
    if is_safe_integer n then non_negative n else err invalid_raw_amount
parse_raw_amount (string text) =
    if is_digits text then ok (pos (read_digits 0 text)) else err invalid_raw_amount

-- `n.toString()`: the digits of `n` before `text`, with the fuel `n + 1`.
unfoldable pub write_digits : ℕ → ℕ → Text → Text
write_digits zero n text = text
write_digits (suc fuel) n text =
    let more = write_digits fuel (n / 10) ((b'0' + n % 10) ∷ text) in
    if ltb n 10 then (b'0' + n) ∷ text else more

unfoldable pub decimal : ℕ → Text
decimal n = write_digits (suc n) n []

-- The parameters of `createPaymentChallenge`; `fresh` is what `randomUUID` gives and `clock` the
-- machine's time.
pub record ChallengeParams : Type 0 where
  pub amount : RawAmount
  pub address : String
  pub authority : String
  pub destination : String
  pub network : Option String
  pub service : Option String
  pub wrapped_usdc_mint : Option String
  pub protocol_program : Option String
  pub nonce : Option String
  pub expires : Option ℤ
  pub ttl_ms : Option ℤ
  pub now : Option ℤ

abbrev pub default_x402_network : String
default_x402_network = "solana:devnet"

abbrev pub default_challenge_ttl_ms : ℤ
default_challenge_ttl_ms = pos 60_000

unfoldable pub create_payment_challenge :
    String → ℤ → ChallengeParams → Result PaymentError PaymentChallenge
create_payment_challenge fresh clock params = do
  amount ← parse_raw_amount params.amount
  let now = or_else params.now clock
  let ttl_ms = or_else params.ttl_ms default_challenge_ttl_ms
  ok (record {
    amount = decimal (pos_part amount);
    network = or_else params.network default_x402_network;
    address = params.address;
    authority = params.authority;
    destination = params.destination;
    nonce = or_else params.nonce fresh;
    expires = or_else params.expires (now +ℤ ttl_ms);
    service = params.service;
    wrapped_usdc_mint = params.wrapped_usdc_mint;
    protocol_program = params.protocol_program;
  })

unfoldable pub create_payment_proof : PaymentChallenge → String → ℤ → PaymentProof
create_payment_proof challenge tx_signature paid_at = record {
  challenge = challenge;
  tx_signature = tx_signature;
  paid_at = paid_at;
}

-- `isExpired`
unfoldable pub is_expired : ℤ → ℤ → Bool
is_expired expires now = leb_ℤ expires now
