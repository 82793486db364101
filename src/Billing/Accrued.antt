-- ===== src/Billing/Accrued.antt =====
-- `accruedNow` of src/accrued.ts: what a stream owes now.
use vela_sdk.Prelude.{Option, none, some, ℤ, pos, ◌+ℤ◌, ◌-ℤ◌, ◌*ℤ◌, ◌≤ℤ◌, if◌then◌else◌}
use vela_sdk.Prelude.Int.{ltb_ℤ, leb_ℤ, int_laws, *ℤ_nonneg}
use vela_sdk.Prelude.Result.{ok, err}
use vela_sdk.Errors.{Checked, stream_terminal_status}
use vela_sdk.Accounts.Platform.{Platform}
use vela_sdk.Accounts.PullApproval.{or_else}
use vela_sdk.Accounts.StreamMandate.{StreamMandate, StreamStatus, active, paused, cancelled}

-- `gross`, held to what is left of `max_streamed`.
unfoldable pub cap_accrued : ℤ → Option ℤ → ℤ → ℤ
cap_accrued gross none total_streamed = gross
cap_accrued gross (some max_streamed) total_streamed =
    let remaining = max_streamed -ℤ total_streamed in
    if leb_ℤ remaining (pos 0) then pos 0 else if ltb_ℤ gross remaining then gross else remaining

unfoldable pub accrue_active : ℤ → ℤ → ℤ → Option ℤ → ℤ → ℤ
accrue_active now last_settled_ts rate_per_second max_streamed total_streamed =
    let elapsed = now -ℤ last_settled_ts in
    if ltb_ℤ elapsed (pos 0)
    then pos 0
    else cap_accrued (elapsed *ℤ rate_per_second) max_streamed total_streamed

module _ {Key : Type 0} ⦃platform : Platform Key⦄ where
  accrued_by_status : StreamStatus → StreamMandate Key → ℤ → Checked ℤ
  accrued_by_status cancelled m now = err (stream_terminal_status (platform.to_base58 m.address))
  accrued_by_status paused m now = ok (pos 0)
  accrued_by_status active m now =
      ok (accrue_active now m.last_settled_ts m.rate_per_second m.max_streamed m.total_streamed)

  -- `clock` is the machine's time in seconds, which `now_sec` overrides.
  unfoldable pub accrued_now : ℤ → StreamMandate Key → Option ℤ → Checked ℤ
  unfolding accrued_by_status
  accrued_now clock m now_sec = accrued_by_status m.status m (or_else now_sec clock)

-- What accrues is never negative, and with what was streamed it stays within the maximum.
pub accrue_active_bounds :
    (now last rate most total : ℤ)
    → pos 0 ≤ℤ rate
    → total ≤ℤ most
    → (pos 0 ≤ℤ accrue_active now last rate (some most) total)
      × (total +ℤ accrue_active now last rate (some most) total ≤ℤ most)
unfolding accrue_active cap_accrued
accrue_active_bounds now last rate most total h k =
    let p : pos 0 ≤ℤ (now -ℤ last) → pos 0 ≤ℤ (now -ℤ last) *ℤ rate =
      λ e. *ℤ_nonneg (now -ℤ last) rate e h in
    grind int_laws
