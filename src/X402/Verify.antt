-- ===== src/X402/Verify.antt =====
-- `verifyPaymentProof` of src/x402/server.ts, over a connection that offers `getTransaction`.
pub mod Pays
pub mod Keys
pub mod Pulls
pub mod Logs
pub mod Gains
pub mod Laws
use Prim.Native.String.{String}
use text.Mathlib.Text.{◌==◌ as str_eq}
use vela_sdk.Prelude.{
  ℕ, Bool, true, false, not, ◌&&◌, Option, none, some, List, [], ◌∷◌, ◌==◌, ℤ, ◌-ℤ◌, if◌then◌else◌,
}
use vela_sdk.Prelude.Int.{ltb_ℤ, eqb_ℤ}
use vela_sdk.Prelude.Result.{Result, ok, err, ◌>>=◌, ◌>>◌, throw_if}
use vela_sdk.X402.Proof.{
  Text, PaymentChallenge, PaymentProof, PaymentError, payment_proof_expired, payment_proof_mismatch,
  payment_transaction_verification, string, parse_raw_amount, is_expired,
}
use vela_sdk.X402.Transaction.{
  Transaction, TokenBalance, extract_account_keys, includes, index_of, same_text,
  has_expected_agent_pull_instruction, find_token_balance, parse_balance_amount, has_agent_pull_log,
}

-- What the verification takes from outside: `getTransaction`, the text of `PROGRAM_ID` and the
-- discriminator of `agent_pull`.
pub record Chain : Type 0 where
  pub get_transaction : String → Option Transaction
  pub program : String
  pub agent_pull_discriminator : List ℕ

-- Equality of two texts given by their codes.
unfoldable pub text_eq : Text → Text → Bool
text_eq [] [] = true
text_eq (a ∷ xs) (b ∷ ys) = a == b && text_eq xs ys
text_eq _ _ = false

abbrev pub is_none {ℓ} : {A : Type ℓ} → Option A → Bool
is_none none = true
is_none (some _) = false

-- The comparisons of the proof's fields with the challenge's, in their order.
unfoldable pub check_fields : PaymentChallenge → PaymentChallenge → Result PaymentError Unit
check_fields proof expected = do
  throw_if (not (str_eq proof.network expected.network)) (payment_proof_mismatch "network")
  throw_if (not (text_eq proof.amount expected.amount)) (payment_proof_mismatch "amount")
  throw_if (not (str_eq proof.address expected.address)) (payment_proof_mismatch "address")
  throw_if (not (str_eq proof.authority expected.authority)) (payment_proof_mismatch "authority")
  throw_if (not (str_eq proof.destination expected.destination))
      (payment_proof_mismatch "destination")
  throw_if (not (same_text proof.service expected.service)) (payment_proof_mismatch "service")
  throw_if (not (same_text proof.wrapped_usdc_mint expected.wrapped_usdc_mint))
      (payment_proof_mismatch "mint")
  throw_if (not (same_text proof.protocol_program expected.protocol_program))
      (payment_proof_mismatch "protocol program")
  throw_if (not (str_eq proof.nonce expected.nonce)) (payment_proof_mismatch "nonce")
  throw_if (not (eqb_ℤ proof.expires expected.expires)) (payment_proof_mismatch "expiry")

-- What the destination's token account gained, if one of its balances is known.
unfoldable pub amount_delta : Transaction → PaymentChallenge → Result PaymentError ℤ
amount_delta transaction expected = do
  let index = index_of 0 (extract_account_keys transaction) expected.destination
  let before = find_token_balance transaction.pre_token_balances index expected.wrapped_usdc_mint
  let after = find_token_balance transaction.post_token_balances index expected.wrapped_usdc_mint
  throw_if (is_none before && is_none after)
      (payment_transaction_verification "token balances unavailable")
  ok (parse_balance_amount after -ℤ parse_balance_amount before)

-- The tests of the transaction.
unfoldable pub check_transaction : Chain → Transaction → PaymentChallenge → Result PaymentError Unit
check_transaction chain transaction expected = do
  throw_if transaction.failed (payment_transaction_verification "transaction failed")
  let account_keys = extract_account_keys transaction
  throw_if (not (includes account_keys expected.destination))
      (payment_transaction_verification "destination mismatch")
  throw_if (not (includes account_keys expected.address))
      (payment_transaction_verification "agent mismatch")
  throw_if (not (includes account_keys expected.authority))
      (payment_transaction_verification "authority mismatch")
  throw_if
      (not (
        has_expected_agent_pull_instruction chain.agent_pull_discriminator chain.program transaction
          account_keys expected))
      (payment_transaction_verification "missing expected agent_pull instruction")
  delta ← amount_delta transaction expected
  amount ← parse_raw_amount (string expected.amount)
  throw_if (ltb_ℤ delta amount) (payment_transaction_verification "amount mismatch")
  throw_if (not (has_agent_pull_log transaction))
      (payment_transaction_verification "missing agent_pull execution")

unfoldable pub verify_payment_proof :
    Chain → PaymentProof → PaymentChallenge → ℤ → Result PaymentError Unit
verify_payment_proof chain proof expected now = do
  throw_if (is_expired proof.challenge.expires now) payment_proof_expired
  check_fields proof.challenge expected
  elim (chain.get_transaction proof.tx_signature) [
    | none ↦ err (payment_transaction_verification "transaction not found")
    | some transaction ↦ check_transaction chain transaction expected
  ]
