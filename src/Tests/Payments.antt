-- ===== src/Tests/Payments.antt =====
-- A payment of 250 base units: its challenge, its transaction, and the requests that present it.
use Prim.Native.String.{String}
use vela_sdk.Prelude.{◌≡◌, ◌↔◌, refl, ◌<ℤ◌, ◌-ℤ◌, false, none, some, List, [], ◌∷◌, ℤ, pos, arith}
use vela_sdk.Prelude.Result.{Result, ok}
use vela_sdk.Bytes.{codes, contains, slice_equals, starts_with, of_le_bytes}
use vela_sdk.X402.Dict.{lookup, keep_live, insert, erase}
use vela_sdk.X402.NonceCache.{
  NonceCache, create_nonce_cache, prune, issue_nonce, get_issued_nonce_expiry, consume_nonce,
  take_nonce, IsValid, step, issue,
}
use vela_sdk.X402.NonceCache.Replay.{step-IsValid, create_nonce_cache-IsValid}
use vela_sdk.X402.Proof.{
  PaymentChallenge, PaymentProof, PaymentError, bigint, parse_raw_amount, is_digits, read_digits,
  is_expired,
}
use vela_sdk.X402.Base58.{decode_base58, base58_value, decode_base58-base58_value}
use vela_sdk.X402.Transaction.{
  Transaction, Instruction, TokenBalance, key_text, data_bytes, normalize_account_key,
  extract_account_keys, includes, index_of, extract_instructions, instruction_program_id, keys_at,
  instruction_accounts, decode_instruction_data, is_text, same_text, is_expected_agent_pull,
  has_expected_agent_pull_instruction, find_balance, find_token_balance, parse_balance_amount,
  has_agent_pull_log,
}
use vela_sdk.X402.Verify.{
  Chain, text_eq, check_fields, amount_delta, check_transaction, verify_payment_proof,
}
use vela_sdk.X402.Verify.Pays.{Pays}
use vela_sdk.X402.Verify.Laws.{verify_payment_proof_iff, verify_payment_proof_reused}
use vela_sdk.X402.Middleware.{Options, Times, served, handle_proof}
use vela_sdk.X402.Middleware.Served.{IsPaid, handle_proof-IsPaid}
use vela_sdk.X402.Middleware.Once.{Request, after_requests, served_once}
use mathlib.Core.List.{reverse}

abbrev pub challenge : PaymentChallenge
challenge = record {
  amount = codes "250";
  network = "solana:devnet";
  address = "agent";
  authority = "owner";
  destination = "shop";
  nonce = "n1";
  expires = pos 60_000;
  service = none;
  wrapped_usdc_mint = none;
  protocol_program = some "vela";
}

abbrev pub proof : PaymentProof
proof = record { challenge = challenge; tx_signature = "sig"; paid_at = pos 50 }

abbrev pull : Instruction
pull = record {
  program_id = none;
  program_id_index = some 3;
  accounts = some (0 ∷ 1 ∷ 2 ∷ []);
  account_key_indexes = none;
  instruction_data = some (data_bytes (1 ∷ 2 ∷ 3 ∷ 4 ∷ 5 ∷ 6 ∷ 7 ∷ 8 ∷ 0 ∷ []));
}

abbrev gained : TokenBalance
gained = record { account_index = some 2; mint = none; amount = some (pos 250) }

abbrev pub transaction : Transaction
transaction = record {
  account_keys =
      some (key_text "agent" ∷ key_text "owner" ∷ key_text "shop" ∷ key_text "vela" ∷ []);
  instructions = some (pull ∷ []);
  compiled_instructions = none;
  failed = false;
  log_messages = some ("Program log: Instruction: AgentPull" ∷ []);
  loaded_writable = [];
  loaded_readonly = [];
  pre_token_balances = none;
  post_token_balances = some (gained ∷ []);
}

abbrev pub chain : Chain
chain = record {
  get_transaction = λ signature. some transaction;
  program = "vela";
  agent_pull_discriminator = 1 ∷ 2 ∷ 3 ∷ 4 ∷ 5 ∷ 6 ∷ 7 ∷ 8 ∷ [];
}

abbrev pub at : ℤ → Times
at now = record { created = now; cached = now; verified = now; consumed = now }

abbrev cache : NonceCache
cache = step (issue "n1" (pos 60_000) (pos 0)) create_nonce_cache

cache-IsValid : IsValid cache
cache-IsValid =
    step-IsValid (issue "n1" (pos 60_000) (pos 0)) create_nonce_cache create_nonce_cache-IsValid

pub verified : verify_payment_proof chain proof challenge (pos 100) ≡ ok tt
unfolding verify_payment_proof is_expired check_fields text_eq same_text check_transaction
    extract_account_keys normalize_account_key includes has_expected_agent_pull_instruction
    is_expected_agent_pull extract_instructions instruction_program_id is_text instruction_accounts
    keys_at decode_instruction_data slice_equals starts_with amount_delta index_of
    find_token_balance find_balance parse_balance_amount parse_raw_amount is_digits read_digits
    has_agent_pull_log contains ◌-ℤ◌
verified = refl

first_served : (handle_proof chain challenge proof (at (pos 100)) cache).1 ≡ served
unfolding handle_proof get_issued_nonce_expiry prune keep_live lookup step issue_nonce insert
    consume_nonce take_nonce erase verify_payment_proof is_expired check_fields text_eq same_text
    check_transaction extract_account_keys normalize_account_key includes
    has_expected_agent_pull_instruction is_expected_agent_pull extract_instructions
    instruction_program_id is_text instruction_accounts keys_at decode_instruction_data slice_equals
    starts_with amount_delta index_of find_token_balance find_balance parse_balance_amount
    parse_raw_amount is_digits read_digits has_agent_pull_log contains ◌-ℤ◌
first_served = refl

abbrev pub options : Options
options = record {
  amount = bigint (pos 250);
  agent = "agent";
  authority = "owner";
  destination = "shop";
  service = none;
  wrapped_usdc_mint = none;
  protocol_program = some "vela";
  network = none;
  challenge_ttl_ms = none;
}

abbrev pub decode : String → Result PaymentError PaymentProof
decode text = ok proof

abbrev requests : List Request
requests =
    record { fresh = "n2"; times = at (pos 200); header = none }
    ∷ record { fresh = "n3"; times = at (pos 300); header = some "proof" }
    ∷ []

served_once_example : ¬ (
    (handle_proof chain challenge
      (record proof { tx_signature = "other" })
      (at (pos 400))
      (after_requests chain options decode requests
        (handle_proof chain challenge proof (at (pos 100)) cache).0)).1
    ≡ served)
served_once_example =
    served_once chain options decode challenge challenge proof
      (record proof { tx_signature = "other" }) (at (pos 100)) (at (pos 400)) requests cache
      cache-IsValid first_served refl ((omega arith, omega arith), ((omega arith, omega arith), tt))
      (omega arith)

handle_proof-IsPaid_example :
    IsPaid chain challenge proof
      (at (pos 100))
      cache
      (handle_proof chain challenge proof (at (pos 100)) cache).0
handle_proof-IsPaid_example =
    handle_proof-IsPaid chain challenge proof (at (pos 100)) cache cache-IsValid first_served

verify_payment_proof_iff_example :
    (verify_payment_proof chain proof challenge (pos 100) ≡ ok tt) ↔ (
      (pos 100 <ℤ pos 60_000)
      × (challenge ≡ challenge)
      × (t : Transaction) × (chain.get_transaction "sig" ≡ some t)
      × Pays chain t challenge)
verify_payment_proof_iff_example = verify_payment_proof_iff chain proof challenge (pos 100)

verify_payment_proof_reused_example :
    verify_payment_proof chain
      (record proof { challenge = record challenge { nonce = "n2"; expires = pos 90_000 } })
      (record challenge { nonce = "n2"; expires = pos 90_000 })
      (pos 70_000)
    ≡ ok tt
verify_payment_proof_reused_example =
    verify_payment_proof_reused chain proof challenge "n2" (pos 90_000) (pos 100) (pos 70_000)
      verified (omega arith)

decode_base58-base58_value_example :
    elim (decode_base58 (codes "2NEpo7")) [
      | none ↦ none
      | some bytes ↦ some (of_le_bytes (reverse bytes))
    ]
    ≡ base58_value 0 (codes "2NEpo7")
decode_base58-base58_value_example = decode_base58-base58_value (codes "2NEpo7")
