-- ===== src/Instructions/Idl.antt =====
-- What the program on the chain expects of the instructions that the SDK lays out by hand, from its
-- interface description idl/vela_protocol.json, and how it takes an instruction apart: Anchor checks
-- the discriminator, binds the accounts in order with their privileges, and reads the arguments.
pub mod Arguments
pub mod Binding
use Prim.Native.String.{String}
use vela_sdk.Prelude.{
  ℕ, Bool, true, false, not, ◌&&◌, ◌||◌, Option, none, some, List, [], ◌∷◌, ℤ, pos, length, take,
  drop, ltb, ◌==◌, if◌then◌else◌, any,
}
use vela_sdk.Bytes.{of_le_bytes, starts_with}
use vela_sdk.Accounts.Platform.{Platform, instruction_discriminator}
use vela_sdk.Instructions.{AccountMeta, TransactionInstruction}

pub record IdlAccount : Type 0 where
  pub name : String
  pub is_signer : Bool
  pub is_writable : Bool

pub data ArgType : Type 0 where
  u32 u64 option_u64 : ArgType

pub record IdlInstruction : Type 0 where
  pub name : String
  pub accounts : List IdlAccount
  pub args : List ArgType

pub data Value : Type 0 where
  number : ℤ → Value
  optional : Option ℤ → Value

abbrev plain : String → IdlAccount
plain name = record { name = name; is_signer = false; is_writable = false }

abbrev writable : String → IdlAccount
writable name = record { name = name; is_signer = false; is_writable = true }

abbrev payer : String → IdlAccount
payer name = record { name = name; is_signer = true; is_writable = true }

-- The accounts that a settlement of a stream needs.
abbrev settle_accounts : List IdlAccount
settle_accounts =
    payer "authority"
    ∷ writable "mandate"
    ∷ writable "subscriber_wrapped_account"
    ∷ writable "merchant_wrapped_account"
    ∷ writable "wrapped_usdc_mint"
    ∷ writable "pull_approval"
    ∷ plain "token_config"
    ∷ plain "protocol_config"
    ∷ writable "wrapping_vault"
    ∷ plain "hook_program"
    ∷ plain "extra_account_meta_list"
    ∷ plain "protocol_program"
    ∷ plain "token_2022_program"
    ∷ plain "system_program"
    ∷ []

abbrev pub idl_create_stream_mandate : IdlInstruction
idl_create_stream_mandate = record {
  name = "create_stream_mandate";
  accounts =
      payer "subscriber"
      ∷ writable "merchant_state"
      ∷ writable "mandate"
      ∷ plain "mint"
      ∷ plain "token_config"
      ∷ payer "payer"
      ∷ plain "system_program"
      ∷ [];
  args = u64 ∷ u64 ∷ option_u64 ∷ u32 ∷ [];
}

abbrev pub idl_execute_stream : IdlInstruction
idl_execute_stream = record {
  name = "execute_stream";
  accounts =
      payer "payer"
      ∷ plain "subscriber"
      ∷ plain "merchant"
      ∷ plain "keeper_config"
      ∷ writable "stream_mandate"
      ∷ writable "subscriber_wrapped_account"
      ∷ writable "merchant_wrapped_account"
      ∷ writable "wrapped_usdc_mint"
      ∷ writable "pull_approval"
      ∷ plain "token_config"
      ∷ plain "protocol_config"
      ∷ writable "wrapping_vault"
      ∷ plain "hook_program"
      ∷ plain "extra_account_meta_list"
      ∷ plain "protocol_program"
      ∷ plain "token_2022_program"
      ∷ plain "system_program"
      ∷ [];
  args = [];
}

abbrev pub idl_pause_stream : IdlInstruction
idl_pause_stream = record { name = "pause_stream"; accounts = settle_accounts; args = [] }

abbrev pub idl_cancel_stream : IdlInstruction
idl_cancel_stream = record { name = "cancel_stream"; accounts = settle_accounts; args = [] }

abbrev pub idl_resume_stream : IdlInstruction
idl_resume_stream = record {
  name = "resume_stream";
  accounts = payer "authority" ∷ writable "mandate" ∷ [];
  args = [];
}

abbrev pub idl_update_stream_rate : IdlInstruction
idl_update_stream_rate = record {
  name = "update_stream_rate";
  accounts = settle_accounts;
  args = option_u64 ∷ option_u64 ∷ [];
}

abbrev pub idl_schedule_plan_change : IdlInstruction
idl_schedule_plan_change = record {
  name = "schedule_plan_change";
  accounts =
      payer "authority" ∷ plain "new_plan" ∷ writable "mandate" ∷ plain "protocol_config" ∷ [];
  args = [];
}

abbrev pub idl_cancel_plan_change : IdlInstruction
idl_cancel_plan_change = record {
  name = "cancel_plan_change";
  accounts = payer "authority" ∷ writable "mandate" ∷ plain "protocol_config" ∷ [];
  args = [];
}

abbrev pub idl_update_mandate_plan : IdlInstruction
idl_update_mandate_plan = record {
  name = "update_mandate_plan";
  accounts =
      payer "authority"
      ∷ plain "new_plan"
      ∷ writable "mandate"
      ∷ writable "subscriber_wrapped_account"
      ∷ writable "merchant_wrapped_account"
      ∷ writable "wrapped_usdc_mint"
      ∷ writable "pull_approval"
      ∷ plain "token_config"
      ∷ plain "protocol_config"
      ∷ writable "wrapping_vault"
      ∷ plain "hook_program"
      ∷ plain "extra_account_meta_list"
      ∷ plain "protocol_program"
      ∷ plain "token_2022_program"
      ∷ plain "system_program"
      ∷ [];
  args = [];
}

-- One number of `width` bytes, and what follows it.
unfoldable pub decode_number : ℕ → List ℕ → Option (ℤ × List ℕ)
decode_number width bytes =
    if ltb (length bytes) width
    then none
    else some (pos (of_le_bytes (take width bytes)), drop width bytes)

unfoldable pub decode_arg : ArgType → List ℕ → Option (Value × List ℕ)
decode_arg u32 bytes = elim (decode_number 4 bytes) [
  | none ↦ none
  | some (value, rest) ↦ some (number value, rest)
]
decode_arg u64 bytes = elim (decode_number 8 bytes) [
  | none ↦ none
  | some (value, rest) ↦ some (number value, rest)
]
decode_arg option_u64 [] = none
decode_arg option_u64 (tag ∷ bytes) =
    if tag == 0
    then some (optional none, bytes)
    else if tag == 1
    then elim (decode_number 8 bytes) [
      | none ↦ none
      | some (value, rest) ↦ some (optional (some value), rest)
    ]
    else none

-- The arguments of an instruction, with no byte left over.
unfoldable pub decode_args : List ArgType → List ℕ → Option (List Value)
decode_args [] [] = some []
decode_args [] (b ∷ bytes) = none
decode_args (type ∷ types) bytes = elim (decode_arg type bytes) [
  | none ↦ none
  | some (value, rest) ↦ elim (decode_args types rest) [
    | none ↦ none
    | some values ↦ some (value ∷ values)
  ]
]

module _ {Key : Type 0} ⦃platform : Platform Key⦄ where
  -- A message grants an account what any of the instruction's entries for its key grants.
  abbrev pub signs : List (AccountMeta Key) → Key → Bool
  signs keys key = any (λ m. platform.equals key m.pubkey && m.is_signer) keys

  abbrev pub writes : List (AccountMeta Key) → Key → Bool
  writes keys key = any (λ m. platform.equals key m.pubkey && m.is_writable) keys

  abbrev pub is_granted : List (AccountMeta Key) → IdlAccount → AccountMeta Key → Bool
  is_granted all account m =
      (not account.is_signer || signs all m.pubkey)
      && (not account.is_writable || writes all m.pubkey)

  -- The accounts by their names, in order; more of them may follow.
  unfoldable pub bind_accounts :
      List (AccountMeta Key)
      → List IdlAccount
      → List (AccountMeta Key)
      → Option (List (String × Key))
  bind_accounts all [] keys = some []
  bind_accounts all (account ∷ accounts) [] = none
  bind_accounts all (account ∷ accounts) (m ∷ keys) = elim (bind_accounts all accounts keys) [
    | none ↦ none
    | some bound ↦
        if is_granted all account m then some ((account.name, m.pubkey) ∷ bound) else none
  ]

  unfoldable pub interpret :
      IdlInstruction → TransactionInstruction Key → Option (List (String × Key) × List Value)
  unfolding bind_accounts decode_args
  interpret idl ix =
      if starts_with ix.contents (instruction_discriminator platform idl.name)
      then elim (bind_accounts ix.keys idl.accounts ix.keys) [
        | none ↦ none
        | some bound ↦ elim (decode_args idl.args (drop 8 ix.contents)) [
          | none ↦ none
          | some values ↦ some (bound, values)
        ]
      ]
      else none
