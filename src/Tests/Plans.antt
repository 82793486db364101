-- ===== src/Tests/Plans.antt =====
-- A usage plan, found after the fetch of a flat plan failed, and a subscription to it.
use vela_sdk.Prelude.{ℕ, ◌≡◌, ◌↔◌, refl, true, false, none, some, [], ◌∷◌, pos}
use vela_sdk.Prelude.Result.{Result, ok, err}
use vela_sdk.Accounts.Status.{PlanStatus}
use vela_sdk.Bytes.{contains, starts_with, before_zero}
use vela_sdk.Accounts.VelaMandate.{unless_default}
use vela_sdk.Accounts.Anchor.{map_plan_status}
use vela_sdk.Accounts.Merchant.{AnchorMerchantState, deserialize_merchant_state}
use vela_sdk.Accounts.Plans.{
  AnchorVelaPlan, AnchorVelaUsagePlan, VelaUsagePlan, Failure, usage_plan, get_subscribable_plan,
  read_flat, read_usage, failure_of, fall_back, says, is_account_missing, is_plan_type_mismatch,
  should_try_usage_fallback, deserialize_usage_plan,
}
use vela_sdk.Budget.Reasons.{push_if, is_empty}
use vela_sdk.Budget.Subscribe.{
  Fetches, SubscribeValidationResult, mandate_exists, subscribe_verdict, validate_subscribe, IsOpen,
  validate_subscribe_iff,
}
use vela_sdk.Accounts.Plans.Found.{IsFound, get_subscribable_plan_iff}
use vela_sdk.Tests.Toy.{toy_platform}

abbrev pub mismatch : Failure
mismatch = record { is_error = true; message = "Invalid account discriminator" }

abbrev pub raw : AnchorVelaUsagePlan ℕ
raw = record {
  merchant = 4;
  plan_id = pos 1;
  unit_name = 114 ∷ 101 ∷ 113 ∷ 0 ∷ [];
  tiers = some (record { up_to = pos 0; rate_per_unit = pos 2 } ∷ []);
  tier_count = some 1;
  max_charge_per_period = pos 500;
  settlement_frequency = pos 3_600;
  status = record { active = true; inactive = false };
  credential_mint = 5;
  billing_mint = none;
  bump = 255;
  version = none;
  reserved = none;
}

abbrev shown : VelaUsagePlan ℕ
shown = record {
  address = 1;
  merchant = 4;
  plan_id = pos 1;
  unit_name = 114 ∷ 101 ∷ 113 ∷ [];
  tiers = record { up_to = pos 0; rate_per_unit = pos 2 } ∷ [];
  tier_count = 1;
  max_charge_per_period = pos 500;
  settlement_frequency = pos 3_600;
  status = PlanStatus.active;
  credential_mint = 5;
  billing_mint = none;
  bump = 255;
  version = none;
  reserved = none;
}

abbrev pub no_flat : ℕ → Result Failure (AnchorVelaPlan ℕ)
no_flat address = err mismatch

get_subscribable_plan_iff_example :
    (get_subscribable_plan no_flat (λ address. ok raw) 1 ≡ ok (usage_plan shown))
    ↔ IsFound no_flat (λ address. ok raw) 1 (usage_plan shown)
get_subscribable_plan_iff_example =
    get_subscribable_plan_iff no_flat (λ address. ok raw) 1 (usage_plan shown)

abbrev absent : Failure
absent = record { is_error = true; message = "Account does not exist or has no data 7" }

abbrev merchant : AnchorMerchantState ℕ
merchant = record {
  merchant = 4;
  plan_count = pos 1;
  bump = 254;
  credential_mint = some 5;
  mandate_counter = some (pos 7);
  version = some 1;
  reserved = none;
}

abbrev program : Fetches ℕ
program = record {
  program_id = 8;
  fetch_plan = no_flat;
  fetch_usage_plan = λ address. ok raw;
  fetch_merchant_state = λ address. ok merchant;
  fetch_mandate = λ address. err absent;
}

validate_subscribe_iff_example :
    ((v : SubscribeValidationResult ℕ) × (validate_subscribe program 1 2 ≡ ok v)
      × (v.can_subscribe ≡ true))
    ↔ IsOpen program 1 2
validate_subscribe_iff_example = validate_subscribe_iff program 1 2

possible :
    (v : SubscribeValidationResult ℕ) × (validate_subscribe program 1 2 ≡ ok v)
    × (v.can_subscribe ≡ true)
unfolding validate_subscribe get_subscribable_plan read_flat should_try_usage_fallback
    is_account_missing is_plan_type_mismatch says contains starts_with read_usage failure_of
    fall_back deserialize_usage_plan deserialize_merchant_state map_plan_status mandate_exists
    subscribe_verdict push_if is_empty before_zero unless_default
possible = (subscribe_verdict (usage_plan shown) false, refl, refl)
