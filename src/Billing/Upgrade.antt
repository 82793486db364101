-- ===== src/Billing/Upgrade.antt =====
-- `UpgradeBuilder` of src/builders/upgrade-builder.ts: the preview of a plan change, and the
-- instruction that `execute` builds after its checks. `now` is the machine's time in seconds, dates
-- are milliseconds, and a mandate comes with a plan of its own kind.
pub mod Signature
use Prim.Native.String.{String}
use text.Mathlib.Text.{◌==◌ as str_eq}
use vela_sdk.Prelude.{
  ℕ, ◌/◌, Bool, true, false, not, ◌&&◌, ◌||◌, Option, none, some, ℤ, pos, negsuc, ◌+ℤ◌, ◌-ℤ◌, ◌*ℤ◌,
  ltb, if◌then◌else◌,
}
use vela_sdk.Prelude.Int.{ltb_ℤ, leb_ℤ, eqb_ℤ}
use vela_sdk.Prelude.Result.{Result, ok, err, ◌>>=◌, ◌>>◌, throw_if}
use vela_sdk.Accounts.Platform.{Platform}
use vela_sdk.Accounts.PullApproval.{or_else}
use vela_sdk.Accounts.VelaMandate.{VelaMandate}
use vela_sdk.Accounts.StreamMandate.{StreamMandate}
use vela_sdk.Accounts.TokenConfig.{TokenConfig}
use vela_sdk.X402.Proof.{Text}
use vela_sdk.Billing.Amount.{format_amount}
use vela_sdk.Billing.Proration.{
  Proration, ProrationOutcome, no_op, scheduled_change, charge_now, credit_now, ProrationError,
  outcome_of, compute_proration,
}

-- `Date | bigint | number`: the milliseconds of a valid date, or seconds that give one.
pub data EffectiveAt : Type 0 where
  date : ℤ → EffectiveAt
  seconds : ℤ → EffectiveAt

pub record PeriodicUpgradePlanInput (Key : Type 0) : Type 0 where
  pub address : Key
  pub amount : ℤ
  pub effective_at : Option EffectiveAt
  pub mint : Option Key

pub record StreamRatePlanInput (Key : Type 0) : Type 0 where
  pub amount : ℤ
  pub authorized_max_rate : Option ℤ
  pub mint : Option Key

-- `PreviewPlanChangeResult` of this file.
pub record UpgradePreview : Type 0 where
  pub outcome : ProrationOutcome
  pub proration_amount : ℤ
  pub effective_at : ℤ
  pub requires_subscriber_sig : Bool
  pub new_auth_ceiling : ℤ
  pub current_period_remaining : ℤ
  pub formatted_amount : Text
  pub token_symbol : String

pub data UpgradeError (Key : Type 0) : Type 0 where
  token_change_not_supported : Key → Key → UpgradeError Key
  proration : ProrationError → UpgradeError Key
  subscriber_signature_required no_stream_rate_change no_plan_change : UpgradeError Key

-- The instruction builders' calls, with their arguments.
pub data UpgradeInstruction (Key : Type 0) : Type 0 where
  update_stream_rate : Key → Key → Option ℤ → Option ℤ → UpgradeInstruction Key
  schedule_plan_change : Key → Key → Key → UpgradeInstruction Key
  update_mandate_plan : Key → Key → Key → UpgradeInstruction Key

unfoldable pub resolve_effective_at : Option EffectiveAt → Option ℤ
resolve_effective_at none = none
resolve_effective_at (some (date ms)) = some ms
resolve_effective_at (some (seconds s)) = some (s *ℤ pos 1_000)

-- `Math.floor(ms / 1000)`
unfoldable pub floor_seconds : ℤ → ℤ
floor_seconds (pos ms) = pos (ms / 1_000)
floor_seconds (negsuc ms) = negsuc (ms / 1_000)

abbrev pub is_scheduled : Option ℤ → ℤ → Bool
is_scheduled none now = false
is_scheduled (some ms) now = ltb_ℤ now (floor_seconds ms)

-- The seconds of the period that have passed, held within it.
unfoldable pub elapsed_of : ℤ → ℤ → ℤ → ℤ
elapsed_of next_payment_due frequency now =
    let period_start = next_payment_due -ℤ frequency in
    if leb_ℤ now period_start
    then pos 0
    else if leb_ℤ next_payment_due now
    then frequency
    else now -ℤ period_start

-- The error of a proration as an error of the upgrade.
abbrev pub lift_proration :
    {Key : Type 0} → Result ProrationError Proration → Result (UpgradeError Key) Proration
lift_proration (ok p) = ok p
lift_proration (err e) = err (proration e)

abbrev pub is_no_op : ProrationOutcome → Bool
is_no_op no_op = true
is_no_op _ = false

abbrev pub is_scheduled_change : ProrationOutcome → Bool
is_scheduled_change scheduled_change = true
is_scheduled_change _ = false

module _ {Key : Type 0} ⦃platform : Platform Key⦄ where
  abbrev differs : Option Key → Key → Bool
  differs none mint = false
  differs (some candidate) mint = not (platform.equals candidate mint)

  unfoldable pub assert_token_match :
      TokenConfig Key → Option Key → Option Key → Result (UpgradeError Key) Unit
  assert_token_match config candidate mandate_mint = do
    throw_if (differs candidate config.mint)
        (token_change_not_supported config.mint (or_else candidate config.mint))
    throw_if (differs mandate_mint config.mint)
        (token_change_not_supported (or_else mandate_mint config.mint) config.mint)

  -- `mandate.plan?.equals(newPlan.address)`
  unfoldable pub is_plan : Option Key → Key → Bool
  is_plan none address = false
  is_plan (some plan) address = platform.equals plan address

  -- The outcome and the amount of a periodic change.
  unfoldable pub periodic_proration :
      VelaMandate Key → PeriodicUpgradePlanInput Key → ℤ → Result (UpgradeError Key) Proration
  periodic_proration mandate new_plan now =
      if is_scheduled (resolve_effective_at new_plan.effective_at) now
      then ok (record { outcome = scheduled_change; proration_amount = pos 0 })
      else if is_plan mandate.plan new_plan.address && eqb_ℤ new_plan.amount mandate.amount
      then ok (record { outcome = no_op; proration_amount = pos 0 })
      else lift_proration (
          compute_proration mandate.amount new_plan.amount
            (elapsed_of mandate.next_payment_due mandate.frequency now) mandate.frequency)

  module _ (get_token_symbol : Key → String) where
    unfoldable pub preview_periodic_plan_change :
        VelaMandate Key
        → PeriodicUpgradePlanInput Key
        → TokenConfig Key
        → ℤ
        → Result (UpgradeError Key) UpgradePreview
    preview_periodic_plan_change mandate new_plan config now = do
      assert_token_match config new_plan.mint none
      change ← periodic_proration mandate new_plan now
      ok (record {
        outcome = change.outcome;
        proration_amount = change.proration_amount;
        effective_at = or_else (resolve_effective_at new_plan.effective_at) (now *ℤ pos 1_000);
        requires_subscriber_sig = ltb_ℤ mandate.amount new_plan.amount;
        new_auth_ceiling = new_plan.amount;
        current_period_remaining =
            (if ltb_ℤ now mandate.next_payment_due then mandate.next_payment_due -ℤ now else pos 0)
            *ℤ pos 1_000;
        formatted_amount = format_amount change.proration_amount config.decimals;
        token_symbol = or_else config.token_symbol (get_token_symbol config.mint);
      })

    unfoldable pub preview_stream_rate_change :
        StreamMandate Key
        → StreamRatePlanInput Key
        → TokenConfig Key
        → ℤ
        → Result (UpgradeError Key) UpgradePreview
    preview_stream_rate_change mandate new_plan config now = do
      assert_token_match config new_plan.mint (some mandate.mint)
      let ceiling = or_else new_plan.authorized_max_rate new_plan.amount
      let settle_window =
          if ltb mandate.min_settle_interval 1 then pos 1 else pos mandate.min_settle_interval
      let amount = (new_plan.amount -ℤ mandate.rate_per_second) *ℤ settle_window
      ok (record {
        outcome = outcome_of amount;
        proration_amount = amount;
        effective_at = now *ℤ pos 1_000;
        requires_subscriber_sig =
            ltb_ℤ mandate.authorized_max_rate ceiling
            || ltb_ℤ mandate.authorized_max_rate new_plan.amount;
        new_auth_ceiling = ceiling;
        current_period_remaining = pos 0;
        formatted_amount = format_amount amount config.decimals;
        token_symbol = or_else config.token_symbol (get_token_symbol config.mint);
      })

    -- `this.args.authority.toBase58() !== this.args.mandate.subscriber.toBase58()`
    abbrev pub is_other : Key → Key → Bool
    is_other authority subscriber =
        not (str_eq (platform.to_base58 authority) (platform.to_base58 subscriber))

    -- `execute` for a periodic mandate and for a stream.
    unfoldable pub execute_periodic :
        VelaMandate Key
        → PeriodicUpgradePlanInput Key
        → TokenConfig Key
        → Key
        → ℤ
        → Result (UpgradeError Key) (UpgradeInstruction Key)
    execute_periodic mandate new_plan config authority now = do
      preview ← preview_periodic_plan_change mandate new_plan config now
      throw_if (preview.requires_subscriber_sig && is_other authority mandate.subscriber)
          subscriber_signature_required
      throw_if (is_plan mandate.plan new_plan.address && is_no_op preview.outcome) no_plan_change
      ok (
          if is_scheduled_change preview.outcome
          then schedule_plan_change mandate.address authority new_plan.address
          else update_mandate_plan mandate.address authority new_plan.address)

    unfoldable pub execute_stream :
        StreamMandate Key
        → StreamRatePlanInput Key
        → TokenConfig Key
        → Key
        → ℤ
        → Result (UpgradeError Key) (UpgradeInstruction Key)
    execute_stream mandate new_plan config authority now = do
      preview ← preview_stream_rate_change mandate new_plan config now
      throw_if (preview.requires_subscriber_sig && is_other authority mandate.subscriber)
          subscriber_signature_required
      let next_max = or_else new_plan.authorized_max_rate new_plan.amount
      let same_rate = eqb_ℤ new_plan.amount mandate.rate_per_second
      let same_max = eqb_ℤ next_max mandate.authorized_max_rate
      throw_if (same_rate && same_max) no_stream_rate_change
      ok (
          update_stream_rate mandate.address authority
            (if same_rate then none else some new_plan.amount)
            (if same_max then none else some next_max))
