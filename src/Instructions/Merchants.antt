-- ===== src/Instructions/Merchants.antt =====
-- The instructions of a merchant: src/instructions/create-plan.ts, create-usage-plan.ts,
-- submit-usage-report.ts and init-merchant-credential.ts.
pub mod Stored
pub mod Subscribed
pub mod Configurations
use Prim.Native.String.{String}
use vela_sdk.Prelude.{
  ℕ, Bool, true, false, not, Option, none, some, List, [], ◌∷◌, ℤ, pos, length, take, replicate,
  ltb, if◌then◌else◌, ◌==◌,
}
use vela_sdk.Prelude.Int.{ltb_ℤ}
use vela_sdk.Prelude.Result.{Result, ok, err, ◌>>=◌, ◌>>◌, throw_if}
use vela_sdk.Accounts.Platform.{Platform}
use vela_sdk.Accounts.Pda
use vela_sdk.Accounts.Pda.{token_2022_program_id}
use vela_sdk.Accounts.PullApproval.{or_else}
use vela_sdk.Accounts.Plans.{resolve_plan_context}
use vela_sdk.Instructions.{TransactionInstruction, system_program_id, overwrite}
use vela_sdk.Instructions.Anchor.{
  AnchorArg, bn, bytes, ciphertexts, pricing_tiers, token_settings, token_changes, variant,
  optional_bytes, optional_key, AnchorCall, AnchorProgram, BuildError, max_pulls_too_low,
  ciphertext_count, endpoint_empty, endpoint_too_long, anchor_failed, with_error,
}
use vela_sdk.Instructions.Subscriptions.{settle_billing_mint, fetch_plan_of}

pub record CreatePlanParams (Key : Type 0) : Type 0 where
  pub merchant : Key
  pub plan_id : ℤ
  pub amount : ℤ
  pub frequency : ℤ
  pub trial_period : Option ℤ
  pub max_pulls : ℤ
  pub billing_mint : Option Key

pub record CreateUsagePlanParams (Key : Type 0) : Type 0 where
  pub merchant : Key
  pub plan_id : ℤ
  pub unit_name : List ℕ
  pub tiers : List (ℤ × ℤ × ℤ)
  pub max_charge_per_period : ℤ
  pub settlement_frequency : ℤ
  pub billing_mint : Option Key

-- `BuildCreatePlanResult` and `BuildCreateUsagePlanResult`.
pub record CreatedPlan (Key : Type 0) : Type 0 where
  pub instruction : TransactionInstruction Key
  pub plan_address : Key
  pub credential_mint_address : Key
  pub billing_mint_address : Key
  pub token_config_address : Key

pub record SubmitUsageReportParams (Key : Type 0) : Type 0 where
  pub merchant : Key
  pub mandate_address : Key
  pub usage_plan_address : Key
  pub period_start : ℤ
  pub period_end : ℤ
  pub computation_ciphertext : List (List ℕ)
  pub nonce : ℤ
  pub pub_key : List ℕ

-- The name of a unit in 32 bytes, cut or filled with zeros.
unfoldable pub unit_name_array : List ℕ → List ℕ
unit_name_array name =
    if length name == 32 then name else overwrite (replicate 32 0) 0 (take 32 name)

module _ {Key : Type 0} ⦃platform : Platform Key⦄ (program : AnchorProgram Key) where
  abbrev pub rent : Key
  rent = platform.of_base58 "SysvarRent111111111111111111111111111111111"

  abbrev pub lay_out : AnchorCall Key → Result (BuildError Key) (TransactionInstruction Key)
  lay_out call = with_error anchor_failed (program.instruction call)

  unfoldable pub build_create_plan :
      CreatePlanParams Key → Result (BuildError Key) (CreatedPlan Key)
  build_create_plan params = do
    let program_id = program.program_id
    throw_if (ltb_ℤ params.max_pulls (pos 1)) (max_pulls_too_low params.max_pulls)
    let plan_address = (Pda.plan params.merchant params.plan_id program_id).0
    let credential_mint = (Pda.credential_v1 params.merchant params.plan_id program_id).0
    billing_mint ← settle_billing_mint program params.billing_mint
    let token_config = (Pda.token_config billing_mint program_id).0
    instruction ← lay_out (record {
      method = "createPlan";
      args =
          bn params.amount
          ∷ bn params.frequency
          ∷ bn (or_else params.trial_period (pos 0))
          ∷ bn params.max_pulls
          ∷ [];
      accounts =
          ("merchant", params.merchant)
          ∷ ("merchantState", (Pda.merchant_state params.merchant program_id).0)
          ∷ ("plan", plan_address)
          ∷ ("credentialMint", credential_mint)
          ∷ ("billingMint", billing_mint)
          ∷ ("tokenConfig", token_config)
          ∷ ("systemProgram", system_program_id)
          ∷ ("token2022Program", token_2022_program_id)
          ∷ ("rent", rent)
          ∷ [];
    })
    ok (record {
      instruction = instruction;
      plan_address = plan_address;
      credential_mint_address = credential_mint;
      billing_mint_address = billing_mint;
      token_config_address = token_config;
    })

  unfoldable pub build_create_usage_plan :
      CreateUsagePlanParams Key → Result (BuildError Key) (CreatedPlan Key)
  build_create_usage_plan params = do
    let program_id = program.program_id
    let plan_address = (Pda.usage_plan params.merchant params.plan_id program_id).0
    let credential_mint = (Pda.usage_credential params.merchant params.plan_id program_id).0
    billing_mint ← settle_billing_mint program params.billing_mint
    let token_config = (Pda.token_config billing_mint program_id).0
    instruction ← lay_out (record {
      method = "createUsagePlan";
      args =
          bn params.plan_id
          ∷ bytes (unit_name_array params.unit_name)
          ∷ pricing_tiers params.tiers
          ∷ bn params.max_charge_per_period
          ∷ bn params.settlement_frequency
          ∷ [];
      accounts =
          ("merchant", params.merchant)
          ∷ ("usagePlan", plan_address)
          ∷ ("credentialMint", credential_mint)
          ∷ ("billingMint", billing_mint)
          ∷ ("tokenConfig", token_config)
          ∷ ("systemProgram", system_program_id)
          ∷ ("token2022Program", token_2022_program_id)
          ∷ ("rent", rent)
          ∷ [];
    })
    ok (record {
      instruction = instruction;
      plan_address = plan_address;
      credential_mint_address = credential_mint;
      billing_mint_address = billing_mint;
      token_config_address = token_config;
    })

  -- The instruction, and the address of the report.
  unfoldable pub build_submit_usage_report :
      SubmitUsageReportParams Key → Result (BuildError Key) (TransactionInstruction Key × Key)
  build_submit_usage_report params = do
    let count = length params.computation_ciphertext
    throw_if (not (count == 1)) (ciphertext_count count)
    let report = (Pda.usage_report params.mandate_address params.period_start program.program_id).0
    instruction ← lay_out (record {
      method = "submitUsageReport";
      args =
          bn params.period_start
          ∷ bn params.period_end
          ∷ ciphertexts params.computation_ciphertext
          ∷ bn params.nonce
          ∷ bytes params.pub_key
          ∷ [];
      accounts =
          ("merchant", params.merchant)
          ∷ ("mandate", params.mandate_address)
          ∷ ("usagePlan", params.usage_plan_address)
          ∷ ("usageReport", report)
          ∷ ("systemProgram", system_program_id)
          ∷ [];
    })
    ok (instruction, report)

  -- The instruction, the state of the merchant and the mint of its credential.
  unfoldable pub build_init_merchant_credential :
      Key → Result (BuildError Key) (TransactionInstruction Key × Key × Key)
  build_init_merchant_credential merchant = do
    let merchant_state = (Pda.merchant_state merchant program.program_id).0
    let credential_mint = (Pda.credential merchant program.program_id).0
    instruction ← lay_out (record {
      method = "initMerchantCredential";
      args = [];
      accounts =
          ("merchant", merchant)
          ∷ ("merchantState", merchant_state)
          ∷ ("credentialMint", credential_mint)
          ∷ ("systemProgram", system_program_id)
          ∷ ("token2022Program", token_2022_program_id)
          ∷ ("rent", rent)
          ∷ [];
    })
    ok (instruction, merchant_state, credential_mint)
