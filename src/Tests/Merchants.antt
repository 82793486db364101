-- ===== src/Tests/Merchants.antt =====
-- A flat plan and a usage plan are created and subscribed to, and two computations are requested.
use vela_sdk.Prelude.{ℕ, ◌≡◌, ◌↔◌, refl, true, false, none, some, [], ◌∷◌, pos, negsuc, arith}
use vela_sdk.Prelude.Result.{ok}
use vela_sdk.Bytes.{before_zero, contains, starts_with}
use vela_sdk.Accounts.Pda
use vela_sdk.Accounts.Pda.{token_2022_program_id, associated_token_address}
use vela_sdk.Accounts.Anchor.{map_plan_status}
use vela_sdk.Accounts.VelaMandate.{unless_default}
use vela_sdk.Accounts.Plans.{
  AnchorVelaPlan, AnchorVelaUsagePlan, get_subscribable_plan, read_flat, read_usage, fall_back,
  thrown_again, is_account_missing, is_plan_type_mismatch, says, should_try_usage_fallback,
  failure_of, deserialize_plan, deserialize_usage_plan, resolve_plan_context,
}
use vela_sdk.Instructions.Anchor.{AnchorProgram, get_associated_token_address, with_error}
use vela_sdk.Instructions.Subscriptions.{
  SubscribeParams, SubscribeResult, build_subscribe, subscribe_call, settle_plan, settle_from,
  settle_fetched, settle_billing_mint, choose_credential_mint,
}
use vela_sdk.Instructions.Merchants.{
  CreatePlanParams, CreateUsagePlanParams, CreatedPlan, build_create_plan, build_create_usage_plan,
}
use vela_sdk.Instructions.Merchants.Stored.{IsPlain}
use vela_sdk.Instructions.Merchants.Subscribed.{
  build_create_plan-subscribed, build_create_usage_plan-subscribed,
}
use vela_sdk.Instructions.Computations.{offset_of}
use vela_sdk.Instructions.Computations.Offsets.{
  Request, validation, usage, seeds, offset, offset-injective,
}
use vela_sdk.Accounts.Pda.Seeds.{join}
use vela_sdk.Tests.Toy.{toy_platform, toy_platform-IsLawful}
use vela_sdk.Tests.Plans.{raw, mismatch}
use vela_sdk.Tests.AnchorCalls.{program, config, lay_out}

abbrev monthly : CreatePlanParams ℕ
monthly = record {
  merchant = 4;
  plan_id = pos 1;
  amount = pos 500;
  frequency = pos 86_400;
  trial_period = none;
  max_pulls = pos 12;
  billing_mint = none;
}

abbrev created : CreatedPlan ℕ
created = record {
  instruction = lay_out "createPlan" (
      ("merchant", 4)
      ∷ ("merchantState", 2)
      ∷ ("plan", 3)
      ∷ ("credentialMint", 3)
      ∷ ("billingMint", 40)
      ∷ ("tokenConfig", 2)
      ∷ ("systemProgram", 7)
      ∷ ("token2022Program", 7)
      ∷ ("rent", 7)
      ∷ []);
  plan_address = 3;
  credential_mint_address = 3;
  billing_mint_address = 40;
  token_config_address = 2;
}

abbrev flat : AnchorVelaPlan ℕ
flat = record {
  merchant = 4;
  plan_id = pos 1;
  amount = pos 500;
  frequency = pos 86_400;
  trial_period = pos 0;
  max_pulls = pos 12;
  status = record { active = true; inactive = false };
  credential_mint = 3;
  billing_mint = some 40;
  bump = 255;
  version = none;
  reserved = none;
}

abbrev with_plan : AnchorProgram ℕ
with_plan = record program { fetch_plan = λ key. ok flat }

built : build_create_plan with_plan monthly ≡ ok created
unfolding build_create_plan settle_billing_mint with_error Pda.plan Pda.credential_v1
    Pda.token_config Pda.config Pda.merchant_state
built = refl

abbrev joining : SubscribeParams ℕ
joining = record {
  subscriber = 2;
  plan_address = 3;
  merchant_address = none;
  billing_mint = none;
  credential_mint = none;
  credential_mint_address = none;
}

joining-IsPlain : IsPlain 3 joining
joining-IsPlain = record {
  address = refl;
  credential_mint = refl;
  credential_mint_address = refl;
  billing_mint = refl;
}

abbrev joined : SubscribeResult ℕ
joined = record {
  instruction =
      lay_out "subscribe"
        (subscribe_call joining 9
          (record { credential_mint = 3; merchant = 4; billing_mint = some 40 }) 40 4 3).accounts;
  mandate_address = 4;
  credential_account_address = 3;
  billing_mint_address = 40;
  token_config_address = 2;
}

joined_built : build_subscribe with_plan joining ≡ ok joined
unfolding build_subscribe settle_plan settle_from settle_fetched settle_billing_mint
    choose_credential_mint subscribe_call get_subscribable_plan read_flat read_usage fall_back
    thrown_again should_try_usage_fallback is_account_missing is_plan_type_mismatch says contains
    starts_with failure_of deserialize_plan deserialize_usage_plan resolve_plan_context before_zero
    map_plan_status with_error get_associated_token_address associated_token_address unless_default
    Pda.mandate Pda.credential Pda.credential_v1 Pda.config Pda.merchant_state Pda.token_config
joined_built = refl

not_default : ¬ (◌≡◌ {A = ℕ} 40 0)
not_default h = omega (arith, h)

build_create_plan-subscribed_example :
    (joined.billing_mint_address ≡ created.billing_mint_address)
    × (joined.token_config_address ≡ created.token_config_address)
    × (joined.credential_account_address
        ≡ associated_token_address created.credential_mint_address joining.subscriber
            token_2022_program_id)
build_create_plan-subscribed_example =
    build_create_plan-subscribed with_plan monthly created flat joining joined toy_platform-IsLawful
      built not_default (record { fetched = refl; active = refl; credential = refl; mint = refl })
      joining-IsPlain joined_built

abbrev metered : CreateUsagePlanParams ℕ
metered = record {
  merchant = 4;
  plan_id = pos 1;
  unit_name = 114 ∷ 101 ∷ 113 ∷ [];
  tiers = (pos 0, pos 2, pos 0) ∷ [];
  max_charge_per_period = pos 500;
  settlement_frequency = pos 3_600;
  billing_mint = some 60;
}

abbrev created_usage : CreatedPlan ℕ
created_usage = record {
  instruction = lay_out "createUsagePlan" (
      ("merchant", 4)
      ∷ ("usagePlan", 3)
      ∷ ("credentialMint", 3)
      ∷ ("billingMint", 60)
      ∷ ("tokenConfig", 2)
      ∷ ("systemProgram", 7)
      ∷ ("token2022Program", 7)
      ∷ ("rent", 7)
      ∷ []);
  plan_address = 3;
  credential_mint_address = 3;
  billing_mint_address = 60;
  token_config_address = 2;
}

abbrev stored_usage : AnchorVelaUsagePlan ℕ
stored_usage = record raw { credential_mint = 3; billing_mint = some 60 }

abbrev with_usage : AnchorProgram ℕ
with_usage = record program { fetch_usage_plan = λ key. ok stored_usage }

built_usage : build_create_usage_plan with_usage metered ≡ ok created_usage
unfolding build_create_usage_plan settle_billing_mint with_error Pda.usage_plan Pda.usage_credential
    Pda.token_config
built_usage = refl

joined_usage : build_subscribe with_usage joining ≡ ok joined
unfolding build_subscribe settle_plan settle_from settle_fetched settle_billing_mint
    choose_credential_mint subscribe_call get_subscribable_plan read_flat read_usage fall_back
    thrown_again should_try_usage_fallback is_account_missing is_plan_type_mismatch says contains
    starts_with failure_of deserialize_plan deserialize_usage_plan resolve_plan_context before_zero
    map_plan_status with_error get_associated_token_address associated_token_address unless_default
    Pda.mandate Pda.credential Pda.credential_v1 Pda.config Pda.merchant_state Pda.token_config
joined_usage = refl

build_create_usage_plan-subscribed_example :
    (created_usage.billing_mint_address ≡ 60)
    × (joined.billing_mint_address ≡ config.wrapped_usdc_mint)
    × (joined.credential_account_address
        ≡ associated_token_address created_usage.credential_mint_address joining.subscriber
            token_2022_program_id)
unfolding should_try_usage_fallback is_account_missing is_plan_type_mismatch says contains
    starts_with
build_create_usage_plan-subscribed_example =
    build_create_usage_plan-subscribed with_usage metered created_usage 60 stored_usage config
      joining joined toy_platform-IsLawful refl built_usage
      (record {
        failure = mismatch;
        not_flat = refl;
        says_so = refl;
        fetched = refl;
        active = refl;
        credential = refl;
        mint = refl;
      })
      refl joining-IsPlain joined_usage

abbrev due : Request ℕ
due = validation 5 (negsuc 3) (pos 7)

abbrev metered_period : Request ℕ
metered_period = usage 5 (negsuc 3) (pos 7)

offset-injective_example :
    (offset due 9 ≡ offset_of (toy_platform.find_program_address (seeds due) 9).0)
    × (join (seeds due) ≡ join (seeds metered_period) ↔ due ≡ metered_period)
offset-injective_example =
    offset-injective due metered_period 9 toy_platform-IsLawful
      ((omega arith, omega arith), (omega arith, omega arith))
      ((omega arith, omega arith), (omega arith, omega arith))
