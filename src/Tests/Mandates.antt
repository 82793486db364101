-- ===== src/Tests/Mandates.antt =====
-- A mandate as the program stores it, read by the SDK.
use vela_sdk.Prelude.{ℕ, ◌≡◌, refl, replicate, pos, negsuc, arith}
use vela_sdk.Prelude.Result.{ok}
use vela_sdk.Accounts.Status.{MandateStatus, BillingType}
use vela_sdk.Accounts.VelaMandate.{deserialize_mandate_account}
use vela_sdk.Accounts.VelaMandate.Layout.{
  Stored, Fits, stored_bytes, view, deserialize_mandate_account-bytes,
}
use vela_sdk.Accounts.Anchor.{deserialize_mandate}
use vela_sdk.Accounts.Anchor.Agreement.{
  anchor_of, deserialize_mandate-deserialize_mandate_account, deserialize_mandate_differs,
}
use vela_sdk.Tests.Toy.{toy_platform, toy_platform-IsLawful}

abbrev pub stored : Stored ℕ
stored = record {
  subscriber = 2;
  plan = 0;
  merchant = 3;
  amount = pos 1_000;
  frequency = pos 86_400;
  start_date = pos 50;
  expiry = pos 0;
  max_pulls = pos 12;
  pulls_executed = pos 3;
  next_payment_due = pos 400_000;
  last_pull_at = negsuc 0;
  last_billing_recorded_pull = pos 2;
  validation_request_nonce = pos 7;
  billing_request_nonce = pos 8;
  status = MandateStatus.active;
  bump = 251;
  billing_type = BillingType.usage;
  mandate_index = pos 4;
  version = 2;
  credit_balance = pos 5;
  pending_new_plan = 6;
  pending_effective_at = pos 500_000;
  pending_change_type = 2;
  pending_nonce_short = replicate 8 9;
  reserved = replicate 7 0;
}

pub stored-Fits : (plan : ℕ) → Fits (record stored { plan = plan })
stored-Fits plan = record {
  amount = (omega arith, omega arith);
  frequency = (omega arith, omega arith);
  start_date = (omega arith, omega arith);
  expiry = (omega arith, omega arith);
  max_pulls = (omega arith, omega arith);
  pulls_executed = (omega arith, omega arith);
  next_payment_due = (omega arith, omega arith);
  last_pull_at = (omega arith, omega arith);
  last_billing_recorded_pull = (omega arith, omega arith);
  validation_request_nonce = (omega arith, omega arith);
  billing_request_nonce = (omega arith, omega arith);
  mandate_index = (omega arith, omega arith);
  credit_balance = (omega arith, omega arith);
  pending_effective_at = (omega arith, omega arith);
  pending_nonce_short = refl;
  reserved = refl;
}

deserialize_mandate_account-bytes_example :
    deserialize_mandate_account 1 (stored_bytes stored (replicate 3 0)) ≡ ok (view 1 stored)
deserialize_mandate_account-bytes_example =
    deserialize_mandate_account-bytes 1 stored (replicate 3 0) toy_platform-IsLawful (stored-Fits 0)

abbrev with_plan : Stored ℕ
with_plan = record stored { plan = 8 }

deserialize_mandate-deserialize_mandate_account_example :
    deserialize_mandate 1 (anchor_of with_plan)
    ≡ deserialize_mandate_account 1 (stored_bytes with_plan (replicate 3 0))
deserialize_mandate-deserialize_mandate_account_example =
    deserialize_mandate-deserialize_mandate_account 1 with_plan (replicate 3 0)
      toy_platform-IsLawful (stored-Fits 8) (omega arith) refl

deserialize_mandate_differs_example : ¬ (
    deserialize_mandate 1 (anchor_of stored)
    ≡ deserialize_mandate_account 1 (stored_bytes stored (replicate 3 0)))
deserialize_mandate_differs_example =
    deserialize_mandate_differs 1 stored (replicate 3 0) toy_platform-IsLawful (stored-Fits 0)
      (omega arith) refl
