-- ===== src/Tests/Subscriptions.antt =====
-- A subscription with a wrapped balance.
use vela_sdk.Prelude.{ℕ, ◌≡◌, refl, none, some, [], ◌∷◌, pos}
use vela_sdk.Prelude.Result.{ok}
use vela_sdk.Bytes.{before_zero, contains, starts_with}
use vela_sdk.Accounts.Pda
use vela_sdk.Accounts.Pda.{token_2022_program_id, associated_token_address}
use vela_sdk.Accounts.Anchor.{map_plan_status}
use vela_sdk.Accounts.Plans.{
  get_subscribable_plan, read_flat, read_usage, fall_back, thrown_again, is_account_missing,
  is_plan_type_mismatch, says, should_try_usage_fallback, failure_of, deserialize_plan,
  deserialize_usage_plan, resolve_plan_context,
}
use vela_sdk.Instructions.Anchor.{get_associated_token_address, with_error}
use vela_sdk.Instructions.Subscriptions.{
  subscribe_call, build_subscribe, settle_plan, settle_from, settle_fetched, settle_billing_mint,
  choose_credential_mint,
}
use vela_sdk.Instructions.Subscriptions.Wrapping.{
  WrapAndSubscribeParams, WrapAndSubscribeResult, wrap_call, build_wrap, build_wrap_and_subscribe,
  create_associated_token_account_idempotent, wrap_destination,
}
use vela_sdk.Instructions.Subscriptions.Funding.{
  Funds, subscribe_params, build_wrap_and_subscribe-Funds,
}
use vela_sdk.Tests.Toy.{toy_platform, toy_platform-IsLawful}
use vela_sdk.Tests.AnchorCalls.{program, lay_out}

abbrev joining : WrapAndSubscribeParams ℕ
joining = record {
  subscriber = 2;
  plan_address = 1;
  merchant_address = none;
  spl_usdc_mint = 43;
  wrapped_usdc_mint = 40;
  wrapping_vault = 41;
  amount = pos 500;
  credential_mint_address = none;
}

abbrev joined : WrapAndSubscribeResult ℕ
joined = record {
  instructions =
      lay_out "subscribe"
        (subscribe_call (subscribe_params joining) 9
          (record { credential_mint = 5; merchant = 4; billing_mint = some 40 }) 40 4 3).accounts
      ∷ create_associated_token_account_idempotent 2 3 4 40 token_2022_program_id
      ∷ lay_out "wrap"
          (wrap_call
            (record {
              subscriber = 2;
              amount = pos 500;
              spl_usdc_mint = 43;
              wrapped_usdc_mint = 40;
              wrapping_vault = 41;
              destination_owner = some 4;
              destination_wrapped_account = some 3;
            })
            9 3 4 3).accounts
      ∷ [];
  mandate_address = 4;
  credential_account_address = 3;
}

joined_built : build_wrap_and_subscribe program joining ≡ ok joined
unfolding build_wrap_and_subscribe build_subscribe build_wrap settle_plan settle_from settle_fetched
    settle_billing_mint choose_credential_mint wrap_destination subscribe_call wrap_call
    create_associated_token_account_idempotent get_subscribable_plan read_flat read_usage fall_back
    thrown_again should_try_usage_fallback is_account_missing is_plan_type_mismatch says contains
    starts_with failure_of deserialize_plan deserialize_usage_plan resolve_plan_context before_zero
    map_plan_status with_error get_associated_token_address associated_token_address Pda.mandate
    Pda.credential Pda.credential_v1 Pda.config Pda.merchant_state Pda.mint_authority
    Pda.token_config
joined_built = refl

build_wrap_and_subscribe-Funds_example : Funds program joining joined
build_wrap_and_subscribe-Funds_example =
    build_wrap_and_subscribe-Funds program joining joined toy_platform-IsLawful joined_built
