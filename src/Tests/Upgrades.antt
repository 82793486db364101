-- ===== src/Tests/Upgrades.antt =====
-- A mandate, a stream and a token, and changes to dearer plans.
use Prim.Native.String.{String}
use vela_sdk.Prelude.{ℕ, ◌≡◌, ◌↔◌, refl, ◌-ℤ◌, ◌*ℤ◌, true, none, some, [], pos, arith}
use vela_sdk.Prelude.Result.{ok}
use vela_sdk.Accounts.Status.{MandateStatus, BillingType, BillingRail}
use vela_sdk.Accounts.VelaMandate.{VelaMandate}
use vela_sdk.Accounts.StreamMandate.{StreamMandate, active}
use vela_sdk.Accounts.TokenConfig.{TokenConfig}
use vela_sdk.Billing.Amount.{parse_amount, format_amount}
use vela_sdk.Billing.Amount.RoundTrip.{parse_amount-format_amount}
use vela_sdk.Billing.Proration.{charge_now, compute_proration, raw_proration}
use vela_sdk.Billing.Upgrade.{
  PeriodicUpgradePlanInput, StreamRatePlanInput, UpgradePreview, update_mandate_plan,
  update_stream_rate, resolve_effective_at, elapsed_of, is_plan, assert_token_match,
  periodic_proration, preview_periodic_plan_change, preview_stream_rate_change, execute_periodic,
  execute_stream,
}
use vela_sdk.Billing.Upgrade.Signature.{execute_periodic-signed, charge-signed}
use vela_sdk.Budget.Check.{AgentBudgetSummary, summarize_budget}
use vela_sdk.Budget.Subscription.{IsDue, validate_pull_payment, validate_pull_payment_iff}
use vela_sdk.Tests.Toy.{toy_platform}
use vela_sdk.Tests.AgentMandates.{agent_mandate_example}

abbrev monthly : VelaMandate ℕ
monthly = record {
  address = 1;
  subscriber = 2;
  plan = some 3;
  merchant = 4;
  mandate_index = some (pos 0);
  amount = pos 10;
  frequency = pos 30;
  start_date = pos 0;
  expiry = pos 0;
  max_pulls = pos 12;
  pulls_executed = pos 1;
  next_payment_due = pos 60;
  status = MandateStatus.active;
  bump = 255;
  billing_type = BillingType.flat;
  version = 2;
  last_pull_at = none;
  last_billing_recorded_pull = none;
  validation_request_nonce = none;
  billing_request_nonce = none;
  credit_balance = none;
  pending_new_plan = none;
  pending_effective_at = none;
  pending_change_type = none;
  pending_nonce_short = none;
  reserved = none;
}

abbrev streaming : StreamMandate ℕ
streaming = record {
  address = 1;
  subscriber = 2;
  merchant = 4;
  mint = 6;
  rate_per_second = pos 3;
  authorized_max_rate = pos 5;
  last_settled_ts = pos 0;
  total_streamed = pos 0;
  max_streamed = none;
  paused_at = none;
  min_settle_interval = 60;
  status = active;
  mandate_index = pos 0;
  bump = 255;
  version = 2;
  pending_new_rate_per_second = pos 0;
  pending_new_authorized_max_rate = pos 0;
  pending_effective_at = pos 0;
  pending_change_type = 0;
  pending_nonce_short = [];
}

abbrev usdc : TokenConfig ℕ
usdc = record {
  address = none;
  mint = 6;
  token_program = 7;
  billing_rail = BillingRail.transfer_hook;
  decimals = 6;
  enabled = true;
  oracle_reference = 0;
  admin = none;
  created_at = none;
  bump = none;
  version = none;
  token_symbol = some "USDC";
  reserved = none;
}

abbrev dearer : PeriodicUpgradePlanInput ℕ
dearer = record { address = 9; amount = pos 25; effective_at = none; mint = some 6 }

abbrev faster : StreamRatePlanInput ℕ
faster = record { amount = pos 8; authorized_max_rate = none; mint = none }

abbrev symbol : ℕ → String
symbol mint = "TOKEN"

built : execute_periodic symbol monthly dearer usdc 2 (pos 40) ≡ ok (update_mandate_plan 1 2 9)
unfolding execute_periodic preview_periodic_plan_change assert_token_match periodic_proration
    resolve_effective_at elapsed_of is_plan compute_proration raw_proration ◌-ℤ◌ ◌*ℤ◌
built = refl

execute_periodic-signed_example : toy_platform.to_base58 2 ≡ toy_platform.to_base58 2
execute_periodic-signed_example =
    execute_periodic-signed symbol monthly dearer usdc 2 (pos 40) (update_mandate_plan 1 2 9) built
      (omega arith)

abbrev preview : UpgradePreview
preview = record {
  outcome = charge_now;
  proration_amount = pos 10;
  effective_at = pos 40 *ℤ pos 1_000;
  requires_subscriber_sig = true;
  new_auth_ceiling = pos 25;
  current_period_remaining = (pos 60 -ℤ pos 40) *ℤ pos 1_000;
  formatted_amount = format_amount (pos 10) 6;
  token_symbol = "USDC";
}

previewed : preview_periodic_plan_change symbol monthly dearer usdc (pos 40) ≡ ok preview
unfolding preview_periodic_plan_change assert_token_match periodic_proration resolve_effective_at
    elapsed_of is_plan compute_proration raw_proration ◌-ℤ◌ ◌*ℤ◌
previewed = refl

charge-signed_example : toy_platform.to_base58 2 ≡ toy_platform.to_base58 2
charge-signed_example =
    charge-signed symbol monthly dearer usdc 2 (pos 40) preview (update_mandate_plan 1 2 9)
      previewed refl built

raised :
    execute_stream symbol streaming faster usdc 2 (pos 40)
    ≡ ok (update_stream_rate 1 2 (some (pos 8)) (some (pos 8)))
unfolding execute_stream preview_stream_rate_change assert_token_match
raised = refl

parse_amount-format_amount_example :
    parse_amount (format_amount (pos 1_250_000) 6) 6 ≡ ok (pos 1_250_000)
parse_amount-format_amount_example = parse_amount-format_amount 1_250_000 6

validate_pull_payment_iff_example :
    ((validate_pull_payment monthly (pos 61)).allowed ≡ true) ↔ IsDue monthly (pos 61)
validate_pull_payment_iff_example = validate_pull_payment_iff monthly (pos 61)

abbrev budget : AgentBudgetSummary ℕ
budget = summarize_budget agent_mandate_example (pos 80) (some 5) (pos 2_000)
