-- ===== src/Accounts/Pda.antt =====
-- Program-derived addresses: `PDAFactory` and `getAssociatedTokenAddress` of src/accounts/pda.ts,
-- with the seeds of src/constants.ts. A default program is the caller's to give.
pub mod Seeds
use vela_sdk.Prelude.{ℕ, [], ◌∷◌, ℤ}
use vela_sdk.Bytes.{codes, u64_le}
use vela_sdk.Accounts.Platform.{Platform}

module _ {Key : Type 0} ⦃platform : Platform Key⦄ where
  abbrev pub token_2022_program_id : Key
  token_2022_program_id = platform.of_base58 "TokenzQdBNbLqP5VEhdkAS6EPFLC1PHnBqCXEpPxuEb"

  abbrev pub associated_token_program_id : Key
  associated_token_program_id = platform.of_base58 "ATokenGPvbdGVxr1b2hvZbsiqW5xWH25efTNsLJA8knL"

  -- `getAssociatedTokenAddress` with `allowOwnerOffCurve`, as the SDK calls it here.
  unfoldable pub associated_token_address : Key → Key → Key → Key
  associated_token_address mint owner token_program =
      (platform.find_program_address
        (platform.to_bytes owner ∷ platform.to_bytes token_program ∷ platform.to_bytes mint ∷ [])
        associated_token_program_id).0

  unfoldable pub mandate : Key → Key → ℤ → Key → Key × ℕ
  mandate subscriber merchant mandate_index program_id =
      platform.find_program_address
        (codes "mandate"
          ∷ platform.to_bytes subscriber
          ∷ platform.to_bytes merchant
          ∷ u64_le mandate_index
          ∷ [])
        program_id

  unfoldable pub stream : Key → Key → ℤ → Key → Key × ℕ
  stream subscriber merchant mandate_index program_id =
      platform.find_program_address
        (codes "stream"
          ∷ platform.to_bytes subscriber
          ∷ platform.to_bytes merchant
          ∷ u64_le mandate_index
          ∷ [])
        program_id

  unfoldable pub mandate_v1 : Key → Key → Key → Key × ℕ
  mandate_v1 subscriber plan program_id =
      platform.find_program_address
        (codes "mandate" ∷ platform.to_bytes subscriber ∷ platform.to_bytes plan ∷ []) program_id

  unfoldable pub credential : Key → Key → Key × ℕ
  credential merchant program_id =
      platform.find_program_address (codes "merchant-credential" ∷ platform.to_bytes merchant ∷ [])
        program_id

  unfoldable pub credential_v1 : Key → ℤ → Key → Key × ℕ
  credential_v1 merchant plan_id program_id =
      platform.find_program_address
        (codes "credential" ∷ platform.to_bytes merchant ∷ u64_le plan_id ∷ []) program_id

  unfoldable pub token_config : Key → Key → Key × ℕ
  token_config mint program_id =
      platform.find_program_address (codes "token_config" ∷ platform.to_bytes mint ∷ []) program_id

  unfoldable pub config : Key → Key × ℕ
  config program_id = platform.find_program_address (codes "config" ∷ []) program_id

  unfoldable pub keeper_config : Key → Key × ℕ
  keeper_config program_id = platform.find_program_address (codes "keeper-config" ∷ []) program_id

  unfoldable pub merchant_state : Key → Key → Key × ℕ
  merchant_state merchant program_id =
      platform.find_program_address (codes "merchant" ∷ platform.to_bytes merchant ∷ []) program_id

  unfoldable pub plan : Key → ℤ → Key → Key × ℕ
  plan merchant plan_id program_id =
      platform.find_program_address
        (codes "plan" ∷ platform.to_bytes merchant ∷ u64_le plan_id ∷ []) program_id

  unfoldable pub usage_plan : Key → ℤ → Key → Key × ℕ
  usage_plan merchant plan_id program_id =
      platform.find_program_address
        (codes "usage_plan" ∷ platform.to_bytes merchant ∷ u64_le plan_id ∷ []) program_id

  unfoldable pub usage_credential : Key → ℤ → Key → Key × ℕ
  usage_credential merchant plan_id program_id =
      platform.find_program_address
        (codes "usage_credential" ∷ platform.to_bytes merchant ∷ u64_le plan_id ∷ []) program_id

  unfoldable pub usage_report : Key → ℤ → Key → Key × ℕ
  usage_report mandate period_start program_id =
      platform.find_program_address
        (codes "usage_report" ∷ platform.to_bytes mandate ∷ u64_le period_start ∷ []) program_id

  unfoldable pub agent_mandate : Key → Key → Key → Key × ℕ
  agent_mandate authority agent program_id =
      platform.find_program_address
        (codes "agent-mandate" ∷ platform.to_bytes authority ∷ platform.to_bytes agent ∷ [])
        program_id

  unfoldable pub approval : Key → Key → Key × ℕ
  approval mandate program_id =
      platform.find_program_address (codes "approval" ∷ platform.to_bytes mandate ∷ []) program_id

  unfoldable pub billing : Key → ℤ → Key → Key × ℕ
  billing mandate pulls_executed program_id =
      platform.find_program_address
        (codes "billing" ∷ platform.to_bytes mandate ∷ u64_le pulls_executed ∷ []) program_id

  unfoldable pub arcium_validation_request : Key → ℤ → Key → Key × ℕ
  arcium_validation_request mandate next_payment_due program_id =
      platform.find_program_address
        (codes "arcium_request"
          ∷ codes "validation"
          ∷ platform.to_bytes mandate
          ∷ u64_le next_payment_due
          ∷ [])
        program_id

  unfoldable pub arcium_usage_computation_request : Key → ℤ → Key → Key × ℕ
  arcium_usage_computation_request mandate period_start program_id =
      platform.find_program_address
        (codes "arcium_request"
          ∷ codes "usage"
          ∷ platform.to_bytes mandate
          ∷ u64_le period_start
          ∷ [])
        program_id

  unfoldable pub arcium_billing_record_request : Key → ℤ → Key → Key × ℕ
  arcium_billing_record_request mandate pulls_executed program_id =
      platform.find_program_address
        (codes "arcium_request"
          ∷ codes "billing"
          ∷ platform.to_bytes mandate
          ∷ u64_le pulls_executed
          ∷ [])
        program_id

  unfoldable pub extra_account_metas : Key → Key → Key × ℕ
  extra_account_metas mint program_id =
      platform.find_program_address (codes "extra-account-metas" ∷ platform.to_bytes mint ∷ [])
        program_id

  unfoldable pub mint_authority : Key → Key × ℕ
  mint_authority program_id = platform.find_program_address (codes "mint-authority" ∷ []) program_id

  unfoldable pub agent_mandate_wrapped_ata : Key → Key → Key
  unfolding associated_token_address
  agent_mandate_wrapped_ata agent_mandate_address wrapped_usdc_mint =
      associated_token_address wrapped_usdc_mint agent_mandate_address token_2022_program_id
