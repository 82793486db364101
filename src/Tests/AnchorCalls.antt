-- ===== src/Tests/AnchorCalls.antt =====
-- A program whose instructions list the accounts as the calls name them: a change of a plan, and a
-- pull.
use Prim.Native.String.{String}
use text.Mathlib.Text.{◌==◌ as str_eq}
use vela_sdk.Prelude.{
  ℕ, ◌≡◌, refl, true, false, Option, none, some, List, [], ◌∷◌, ◌++◌, map, pos, ◌==◌, if◌then◌else◌,
}
use vela_sdk.Prelude.Result.{ok}
use vela_sdk.Accounts.Pda
use vela_sdk.Accounts.Pda.{token_2022_program_id, associated_token_address}
use vela_sdk.Accounts.Platform.{instruction_discriminator}
use vela_sdk.Accounts.VelaMandate.{fetch_mandate, unless_default}
use vela_sdk.Accounts.VelaMandate.Layout.{stored_bytes, view, deserialize_mandate_account-bytes}
use vela_sdk.Instructions.{TransactionInstruction, meta}
use vela_sdk.Instructions.Idl.{interpret, idl_update_mandate_plan}
use vela_sdk.Instructions.Anchor.{AnchorProgram, AnchorProtocolConfig, with_error}
use vela_sdk.Instructions.PlanChanges.{
  build_update_mandate_plan, build_update_mandate_plan-IsReadAs,
}
use vela_sdk.Instructions.Pulls.{
  VelaPullParams, build_execute_pull, fetch_pull_config_values, is_other_hook, pull_accounts,
  with_extra_keys, extra_keys, usage_report_key, pending_plan_key, due_plan_key,
}
use vela_sdk.Instructions.Pulls.Hook.{IsPull, build_execute_pull-IsPull}
use vela_sdk.Tests.Toy.{toy_platform, toy_platform-IsLawful}
use vela_sdk.Tests.Mandates.{stored, stored-Fits}
use vela_sdk.Tests.Plans.{raw, no_flat}

abbrev pub config : AnchorProtocolConfig ℕ
config = record { wrapped_usdc_mint = 40; wrapping_vault = 41; transfer_hook_program_id = some 42 }

-- A payment by an agent has its discriminator and an argument.
abbrev pub lay_out : String → List (String × ℕ) → TransactionInstruction ℕ
lay_out method accounts = record {
  program_id = 9;
  keys = map (λ a. meta a.1 false true) accounts;
  contents =
      if str_eq method "agentPull"
      then instruction_discriminator toy_platform "agent_pull" ++ (5 ∷ [])
      else [];
}

abbrev pub program : AnchorProgram ℕ
program = record {
  program_id = 9;
  fetch_protocol_config = λ key. ok config;
  fetch_mandate_counter = λ key. ok (some (pos 3));
  fetch_plan = no_flat;
  fetch_usage_plan = λ key. ok raw;
  instruction = λ call. ok (lay_out call.method call.accounts);
  is_on_curve = λ key. true;
}

abbrev chain : ℕ → Option (List ℕ)
chain key = if key == 50 then some (stored_bytes stored []) else none

fetched : fetch_mandate chain 50 ≡ ok (view 50 stored)
unfolding fetch_mandate
fetched = deserialize_mandate_account-bytes 50 stored [] toy_platform-IsLawful (stored-Fits 0)

build_update_mandate_plan-IsReadAs_example :
    (ix : TransactionInstruction ℕ) × (build_update_mandate_plan program chain 50 8 6 ≡ ok (ix, 50))
    × ((ix.program_id ≡ 9)
        × (interpret idl_update_mandate_plan ix
            ≡ some (
              ("authority", 8)
                  ∷ ("new_plan", 6)
                  ∷ ("mandate", 50)
                  ∷ ("subscriber_wrapped_account", 3)
                  ∷ ("merchant_wrapped_account", 3)
                  ∷ ("wrapped_usdc_mint", 40)
                  ∷ ("pull_approval", 2)
                  ∷ ("token_config", 2)
                  ∷ ("protocol_config", 1)
                  ∷ ("wrapping_vault", 41)
                  ∷ ("hook_program", 42)
                  ∷ ("extra_account_meta_list", 2)
                  ∷ ("protocol_program", 9)
                  ∷ ("token_2022_program", 7)
                  ∷ ("system_program", 7)
                  ∷ [],
              [],
            )))
unfolding Pda.config Pda.approval Pda.token_config Pda.extra_account_metas associated_token_address
build_update_mandate_plan-IsReadAs_example =
    build_update_mandate_plan-IsReadAs program chain 50 8 6 (view 50 stored) config
      toy_platform-IsLawful fetched refl

abbrev pull_params : VelaPullParams ℕ
pull_params = record {
  payer = 8;
  mandate_address = some 50;
  subscriber_address = 2;
  merchant_address = 3;
  plan_address = 5;
  billing_mint = none;
  wrapped_usdc_mint = some 40;
  wrapping_vault = none;
  hook_program_id = some 42;
  usage_report_address = some 60;
}

abbrev pull : TransactionInstruction ℕ
pull = record {
  program_id = 9;
  keys =
      map (λ a. meta a.1 false true)
        (pull_accounts pull_params 50 40 9 (record { wrapping_vault = 41; hook_program_id = 42 }))
      ++ (meta 60 false true ∷ meta 6 false false ∷ []);
  contents = [];
}

pull_built : build_execute_pull program chain pull_params (pos 600_000) ≡ ok (pull, 50)
unfolding build_execute_pull fetch_pull_config_values is_other_hook pull_accounts with_extra_keys
    extra_keys usage_report_key pending_plan_key due_plan_key with_error view unless_default
pull_built = rw fetched refl

build_execute_pull-IsPull_example : IsPull program chain pull_params (pos 600_000) pull 50
build_execute_pull-IsPull_example =
    build_execute_pull-IsPull program chain pull_params (pos 600_000) pull 50 toy_platform-IsLawful
      pull_built
