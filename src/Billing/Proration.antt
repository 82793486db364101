-- ===== src/Billing/Proration.antt =====
-- `computeProration` of src/proration/preview.ts. Amounts are `bigint`: signed, of any size.
pub mod Laws
use vela_sdk.Prelude.{
  ℕ, ◌/◌, Bool, ◌||◌, ℤ, pos, negsuc, pos_part, neg_part, ◌+ℤ◌, ◌-ℤ◌, ◌*ℤ◌, ◌+◌, if◌then◌else◌,
}
use vela_sdk.Prelude.Int.{ltb_ℤ, leb_ℤ, eqb_ℤ}
use vela_sdk.Prelude.Result.{Result, ok, ◌>>=◌, ◌>>◌, throw_if}

pub data ProrationOutcome : Type 0 where
  charge_now credit_now no_op scheduled_change : ProrationOutcome

-- `PreviewPlanChangeResult` of src/proration/preview.ts.
pub record Proration : Type 0 where
  pub outcome : ProrationOutcome
  pub proration_amount : ℤ

-- The four `RangeError`s.
pub data ProrationError : Type 0 where
  negative_amount period_not_positive negative_elapsed elapsed_exceeds_period : ProrationError

-- `-n` and `n < 0n ? -n : n`.
abbrev pub negate : ℤ → ℤ
negate n = pos 0 -ℤ n

abbrev pub abs : ℤ → ℤ
abs n = if ltb_ℤ n (pos 0) then negate n else n

-- `a / b` of `bigint`s that are not negative.
abbrev pub quotient : ℤ → ℤ → ℤ
quotient a b = pos (pos_part a / pos_part b)

abbrev pub outcome_of : ℤ → ProrationOutcome
outcome_of raw =
    if eqb_ℤ raw (pos 0) then no_op else if ltb_ℤ (pos 0) raw then charge_now else credit_now

unfoldable pub raw_proration : ℤ → ℤ → ℤ → ℤ → ℤ
raw_proration plan_amount_old plan_amount_new elapsed_seconds period_total_seconds =
    let remaining = period_total_seconds -ℤ elapsed_seconds in
    let numerator = (plan_amount_new -ℤ plan_amount_old) *ℤ remaining in
    let truncated_abs = quotient (abs numerator) period_total_seconds in
    if ltb_ℤ numerator (pos 0) then negate truncated_abs else truncated_abs

unfoldable pub compute_proration : ℤ → ℤ → ℤ → ℤ → Result ProrationError Proration
compute_proration plan_amount_old plan_amount_new elapsed_seconds period_total_seconds = do
  throw_if (ltb_ℤ plan_amount_old (pos 0) || ltb_ℤ plan_amount_new (pos 0)) negative_amount
  throw_if (leb_ℤ period_total_seconds (pos 0)) period_not_positive
  throw_if (ltb_ℤ elapsed_seconds (pos 0)) negative_elapsed
  throw_if (ltb_ℤ period_total_seconds elapsed_seconds) elapsed_exceeds_period
  let raw = raw_proration plan_amount_old plan_amount_new elapsed_seconds period_total_seconds
  ok (record { outcome = outcome_of raw; proration_amount = raw })
