-- ===== src/X402/Transaction.antt =====
-- What `verifyPaymentProof` reads of a transaction: the helpers of src/x402/server.ts. An amount is
-- the integer of its text.
use Prim.Native.String.{String}
use text.Mathlib.Text.{◌==◌ as str_eq}
use vela_sdk.Prelude.{
  ℕ, suc, Bool, true, false, ◌&&◌, ◌||◌, Option, none, some, List, [], ◌∷◌, ◌++◌, ℤ, pos, ◌==◌, map,
  any, get_elem?, if◌then◌else◌,
}
use vela_sdk.Bytes.{codes, contains, slice_equals}
use vela_sdk.Accounts.PullApproval.{or_else}
use vela_sdk.X402.Base58.{decode_base58}
use vela_sdk.X402.Proof.{PaymentChallenge}

-- `AccountKeyLike`: a text, an object with `toBase58`, one whose `pubkey` has it, or another object
-- with the text that `String` gives.
pub data AccountKeyLike : Type 0 where
  key_text : String → AccountKeyLike
  key_base58 : String → AccountKeyLike
  with_pubkey : String → AccountKeyLike
  other_object : String → AccountKeyLike

pub data InstructionData : Type 0 where
  data_bytes : List ℕ → InstructionData
  data_base58 : String → InstructionData

-- `InstructionLike`, `TokenBalanceLike` and `TransactionLike`.
pub record Instruction : Type 0 where
  pub program_id : Option AccountKeyLike
  pub program_id_index : Option ℕ
  pub accounts : Option (List ℕ)
  pub account_key_indexes : Option (List ℕ)
  pub instruction_data : Option InstructionData

pub record TokenBalance : Type 0 where
  pub account_index : Option ℕ
  pub mint : Option String
  pub amount : Option ℤ

pub record Transaction : Type 0 where
  pub account_keys : Option (List AccountKeyLike)
  pub instructions : Option (List Instruction)
  pub compiled_instructions : Option (List Instruction)
  pub failed : Bool
  pub log_messages : Option (List String)
  pub loaded_writable : List String
  pub loaded_readonly : List String
  pub pre_token_balances : Option (List TokenBalance)
  pub post_token_balances : Option (List TokenBalance)

unfoldable pub normalize_account_key : AccountKeyLike → String
normalize_account_key (key_text s) = s
normalize_account_key (key_base58 s) = s
normalize_account_key (with_pubkey s) = s
normalize_account_key (other_object s) = s

unfoldable pub extract_account_keys : Transaction → List String
extract_account_keys transaction =
    let loaded = transaction.loaded_writable ++ transaction.loaded_readonly in
    elim transaction.account_keys [
      | none ↦ loaded
      | some keys ↦ map normalize_account_key keys ++ loaded
    ]

-- `keys.includes(key)`
unfoldable pub includes : List String → String → Bool
includes [] key = false
includes (k ∷ keys) key = str_eq k key || includes keys key

-- `keys.indexOf(key)`, from `index` on.
unfoldable pub index_of : ℕ → List String → String → Option ℕ
index_of index [] key = none
index_of index (k ∷ keys) key = if str_eq k key then some index else index_of (suc index) keys key

unfoldable pub extract_instructions : Transaction → List Instruction
extract_instructions transaction =
    or_else transaction.instructions (or_else transaction.compiled_instructions [])

unfoldable pub instruction_program_id : Instruction → List String → Option String
instruction_program_id instruction account_keys = elim instruction.program_id [
  | some program ↦ some (normalize_account_key program)
  | none ↦ elim instruction.program_id_index [
    | some index ↦ get_elem? account_keys index
    | none ↦ none
  ]
]

-- The keys at the indexes that have one.
unfoldable pub keys_at : List String → List ℕ → List String
keys_at account_keys [] = []
keys_at account_keys (index ∷ indexes) = elim (get_elem? account_keys index) [
  | none ↦ keys_at account_keys indexes
  | some key ↦ key ∷ keys_at account_keys indexes
]

unfoldable pub instruction_accounts : Instruction → List String → List String
instruction_accounts instruction account_keys =
    keys_at account_keys (or_else instruction.accounts (or_else instruction.account_key_indexes []))

unfoldable pub decode_instruction_data : Option InstructionData → Option (List ℕ)
decode_instruction_data none = none
decode_instruction_data (some (data_bytes value)) = some value
decode_instruction_data (some (data_base58 value)) = decode_base58 (codes value)

-- `value === expected` where the value may be missing, and where both may be.
unfoldable pub is_text : Option String → String → Bool
is_text none expected = false
is_text (some value) expected = str_eq value expected

unfoldable pub same_text : Option String → Option String → Bool
same_text none none = true
same_text (some a) (some b) = str_eq a b
same_text none (some b) = false
same_text (some a) none = false

abbrev pub has_discriminator : List ℕ → Option (List ℕ) → Bool
has_discriminator discriminator none = false
has_discriminator discriminator (some value) = slice_equals value discriminator 0

-- The test of `hasExpectedAgentPullInstruction` on one instruction.
unfoldable pub is_expected_agent_pull :
    List ℕ → String → List String → PaymentChallenge → Instruction → Bool
is_expected_agent_pull discriminator expected_program account_keys expected instruction =
    let accounts = instruction_accounts instruction account_keys in
    is_text (instruction_program_id instruction account_keys) expected_program
    && (includes accounts expected.address
        && (includes accounts expected.authority
            && (includes accounts expected.destination
                && has_discriminator discriminator
                    (decode_instruction_data instruction.instruction_data))))

-- `default_program` is the text of `PROGRAM_ID`, and `discriminator` is that of `agent_pull`.
unfoldable pub has_expected_agent_pull_instruction :
    List ℕ → String → Transaction → List String → PaymentChallenge → Bool
has_expected_agent_pull_instruction discriminator default_program transaction account_keys
      expected =
    let expected_program = or_else expected.protocol_program default_program in
    any (is_expected_agent_pull discriminator expected_program account_keys expected)
      (extract_instructions transaction)

abbrev pub is_index : Option ℕ → Option ℕ → Bool
is_index (some a) (some b) = a == b
is_index _ _ = false

abbrev pub is_mint : Option String → Option String → Bool
is_mint mint none = true
is_mint mint (some wanted) = is_text mint wanted

-- `entries.find(…)`; an index that was not found is -1, which no entry has.
unfoldable pub find_balance : List TokenBalance → Option ℕ → Option String → Option TokenBalance
find_balance [] account_index mint = none
find_balance (entry ∷ entries) account_index mint =
    if is_index entry.account_index account_index && is_mint entry.mint mint
    then some entry
    else find_balance entries account_index mint

unfoldable pub find_token_balance :
    Option (List TokenBalance) → Option ℕ → Option String → Option TokenBalance
find_token_balance entries account_index mint = find_balance (or_else entries []) account_index mint

unfoldable pub parse_balance_amount : Option TokenBalance → ℤ
parse_balance_amount none = pos 0
parse_balance_amount (some entry) = or_else entry.amount (pos 0)

unfoldable pub has_agent_pull_log : Transaction → Bool
has_agent_pull_log transaction =
    any (λ message. contains (codes message) (codes "Instruction: AgentPull"))
      (or_else transaction.log_messages [])
