-- ===== src/Instructions/Pulls.antt =====
-- `buildExecutePullInstruction` of src/instructions/execute-pull.ts. `now` is the clock in seconds,
-- rounded down.
pub mod Hook
use Prim.Native.String.{String}
use vela_sdk.Prelude.{
  ℕ, Bool, true, false, not, ◌&&◌, Option, none, some, List, [], ◌∷◌, ◌++◌, ℤ, if◌then◌else◌, ◌==◌,
}
use vela_sdk.Prelude.Int.{leb_ℤ}
use vela_sdk.Prelude.Result.{Result, ok, err, ◌>>=◌, ◌>>◌, throw_if}
use vela_sdk.Accounts.Platform.{Platform}
use vela_sdk.Accounts.Pda
use vela_sdk.Accounts.Pda.{token_2022_program_id, associated_token_address}
use vela_sdk.Accounts.PullApproval.{or_else}
use vela_sdk.Accounts.VelaMandate.{VelaMandate, fetch_mandate}
use vela_sdk.Instructions.{
  AccountMeta, TransactionInstruction, meta, system_program_id, transfer_hook_program_id,
}
use vela_sdk.Instructions.Anchor.{
  AnchorCall, AnchorProgram, BuildError, required, hook_mismatch, read_failed, anchor_failed,
  with_error,
}

-- `VelaPullParams` of src/types.ts, with the payer.
pub record VelaPullParams (Key : Type 0) : Type 0 where
  pub payer : Key
  pub mandate_address : Option Key
  pub subscriber_address : Key
  pub merchant_address : Key
  pub plan_address : Key
  pub billing_mint : Option Key
  pub wrapped_usdc_mint : Option Key
  pub wrapping_vault : Option Key
  pub hook_program_id : Option Key
  pub usage_report_address : Option Key

-- `fetchProtocolConfigValues`
pub record PullConfigValues (Key : Type 0) : Type 0 where
  pub wrapping_vault : Key
  pub hook_program_id : Key

-- `value ?? other` for two values that may be absent, and a value that must be there.
abbrev pub or_option : {A : Type 0} → Option A → Option A → Option A
or_option none other = other
or_option (some a) other = some a

abbrev pub require : {Key A : Type 0} → String → Option A → Result (BuildError Key) A
require what none = err (required what)
require what (some a) = ok a

module _ {Key : Type 0} ⦃platform : Platform Key⦄ where
  -- An override that is not the hook is refused.
  unfoldable pub is_other_hook : Option Key → Key → Bool
  is_other_hook none hook = false
  is_other_hook (some override) hook = not (platform.equals override hook)

  -- The key of the new plan, when the change is of type 2 and its time has come.
  unfoldable pub due_plan_key :
      (change_type : Option ℕ)
      → (new_plan : Option Key) → (effective_at : Option ℤ) → ℤ
      → List (AccountMeta Key)
  due_plan_key change_type none effective_at now = []
  due_plan_key change_type (some plan) none now = []
  due_plan_key change_type (some plan) (some effective_at) now =
      if or_else change_type 0 == 2 && leb_ℤ effective_at now
      then meta plan false false ∷ []
      else []

  unfoldable pub pending_plan_key : VelaMandate Key → ℤ → List (AccountMeta Key)
  unfolding due_plan_key
  pending_plan_key mandate now =
      due_plan_key mandate.pending_change_type mandate.pending_new_plan mandate.pending_effective_at
        now

  unfoldable pub usage_report_key : Option Key → List (AccountMeta Key)
  usage_report_key none = []
  usage_report_key (some report) = meta report false true ∷ []

  unfoldable pub extra_keys : VelaPullParams Key → VelaMandate Key → ℤ → List (AccountMeta Key)
  unfolding usage_report_key pending_plan_key
  extra_keys params mandate now =
      usage_report_key params.usage_report_address ++ pending_plan_key mandate now

  -- The accounts of the call.
  unfoldable pub pull_accounts :
      VelaPullParams Key
      → (mandate_address billing_mint program_id : Key) → PullConfigValues Key
      → List (String × Key)
  pull_accounts params mandate_address billing_mint program_id config =
      ("payer", params.payer)
      ∷ ("subscriber", params.subscriber_address)
      ∷ ("merchant", params.merchant_address)
      ∷ ("keeperConfig", (Pda.keeper_config program_id).0)
      ∷ ("plan", params.plan_address)
      ∷ ("mandate", mandate_address)
      ∷ (
        "subscriberWrappedAccount",
        associated_token_address billing_mint mandate_address token_2022_program_id,
      )
      ∷ (
        "merchantWrappedAccount",
        associated_token_address billing_mint params.merchant_address token_2022_program_id,
      )
      ∷ ("wrappedUsdcMint", billing_mint)
      ∷ ("pullApproval", (Pda.approval mandate_address program_id).0)
      ∷ ("tokenConfig", (Pda.token_config billing_mint program_id).0)
      ∷ ("protocolConfig", (Pda.config program_id).0)
      ∷ ("wrappingVault", or_else params.wrapping_vault config.wrapping_vault)
      ∷ ("hookProgram", config.hook_program_id)
      ∷ ("extraAccountMetaList", (Pda.extra_account_metas billing_mint config.hook_program_id).0)
      ∷ ("protocolProgram", program_id)
      ∷ ("token2022Program", token_2022_program_id)
      ∷ ("systemProgram", system_program_id)
      ∷ []

  abbrev pub pull_call :
      VelaPullParams Key
      → (mandate_address billing_mint program_id : Key) → PullConfigValues Key
      → AnchorCall Key
  pull_call params mandate_address billing_mint program_id config = record {
    method = "executePull";
    args = [];
    accounts = pull_accounts params mandate_address billing_mint program_id config;
  }

  -- Further keys after those of the call.
  unfoldable pub with_extra_keys :
      TransactionInstruction Key → List (AccountMeta Key) → TransactionInstruction Key
  with_extra_keys base [] = base
  with_extra_keys base (key ∷ keys) = record {
    program_id = base.program_id;
    keys = base.keys ++ (key ∷ keys);
    contents = base.contents;
  }

module _ {Key : Type 0} ⦃platform : Platform Key⦄ (program : AnchorProgram Key)
    (get_account_info : Key → Option (List ℕ)) where
  unfoldable pub fetch_pull_config_values : Key → Result (BuildError Key) (PullConfigValues Key)
  fetch_pull_config_values protocol_config = do
    raw ← with_error anchor_failed (program.fetch_protocol_config protocol_config)
    ok (record {
      wrapping_vault = raw.wrapping_vault;
      hook_program_id = or_else raw.transfer_hook_program_id transfer_hook_program_id;
    })

  unfoldable pub build_execute_pull :
      VelaPullParams Key → ℤ → Result (BuildError Key) (TransactionInstruction Key × Key)
  build_execute_pull params now = do
    let program_id = program.program_id
    mandate_address ← require "mandateAddress" params.mandate_address
    billing_mint ← require "billingMint" (or_option params.billing_mint params.wrapped_usdc_mint)
    mandate ← with_error read_failed (fetch_mandate get_account_info mandate_address)
    config ← fetch_pull_config_values (Pda.config program_id).0
    throw_if (is_other_hook params.hook_program_id config.hook_program_id) (
        hook_mismatch (or_else params.hook_program_id config.hook_program_id)
          config.hook_program_id)
    base ←
        with_error anchor_failed
          (program.instruction (pull_call params mandate_address billing_mint program_id config))
    ok (with_extra_keys base (extra_keys params mandate now), mandate_address)
