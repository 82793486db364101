-- ===== src/Budget/Subscription.antt =====
-- `validatePullPayment` and `validateCancel` of src/validators/preflight.ts, on
-- the accounts that they fetch. `now` is the machine's time in seconds. The texts
-- of the reasons are left out, with the date in one of them, which throws where it is past the year
-- 275760.
use vela_sdk.Prelude.{◌≡◌, ◌↔◌, Bool, true, false, not, ◌&&◌, [], ℤ, pos, ◌≤ℤ◌, ◌<ℤ◌, arith, ◌⊎◌}
use vela_sdk.Prelude.Int.{ltb_ℤ, leb_ℤ}
use vela_sdk.Accounts.Platform.{Platform, IsLawful}
use vela_sdk.Accounts.Status.{MandateStatus}
use vela_sdk.Accounts.VelaMandate.{VelaMandate}
use vela_sdk.Budget.Reasons.{
  Reasons, subscription_is, not_due, pulls_exhausted, mandate_expired, only_subscriber, push_if,
  is_empty, is_empty-push_if,
}

-- `ValidationResult` and `CancelValidationResult`, less the account.
pub record Verdict : Type 0 where
  pub allowed : Bool
  pub reasons : Reasons

abbrev pub is_active_mandate : MandateStatus → Bool
is_active_mandate MandateStatus.active = true
is_active_mandate _ = false

is_active_mandate_lem :
    (s : MandateStatus) → (is_active_mandate s ≡ true) ↔ (s ≡ MandateStatus.active)
is_active_mandate_lem s = ground arith

module _ {Key : Type 0} where
  unfoldable pub validate_pull_payment : VelaMandate Key → ℤ → Verdict
  validate_pull_payment mandate now =
      let reasons =
        push_if (not (is_active_mandate mandate.status)) (subscription_is mandate.status) [] in
      let reasons = push_if (ltb_ℤ now mandate.next_payment_due) not_due reasons in
      let reasons =
        push_if (leb_ℤ mandate.max_pulls mandate.pulls_executed) pulls_exhausted reasons in
      let reasons =
        push_if (ltb_ℤ (pos 0) mandate.expiry && ltb_ℤ mandate.expiry now) mandate_expired
          reasons in
      record { allowed = is_empty reasons; reasons = reasons }

  pub record IsDue (mandate : VelaMandate Key) (now : ℤ) : Type 0 where
    pub active : mandate.status ≡ MandateStatus.active
    pub due : mandate.next_payment_due ≤ℤ now
    pub pulls_left : mandate.pulls_executed <ℤ mandate.max_pulls
    pub unexpired : (mandate.expiry ≤ℤ pos 0) ⊎ (now ≤ℤ mandate.expiry)

  -- A payment may be pulled exactly when the mandate is active, its next payment is due, pulls are
  -- left, and it has no expiry or is not past it.
  pub validate_pull_payment_iff :
      (mandate : VelaMandate Key) (now : ℤ)
      → ((validate_pull_payment mandate now).allowed ≡ true) ↔ IsDue mandate now
  unfolding validate_pull_payment is_empty
  validate_pull_payment_iff mandate now =
      let active = is_active_mandate_lem mandate.status in
      (
        λ h. let k = simp is_empty-push_if at h in ground (arith, active),
        λ h.
            simp is_empty-push_if
              (ground (arith, active, h.active, h.due, h.pulls_left, h.unexpired)),
      )

module _ {Key : Type 0} ⦃platform : Platform Key⦄ where
  unfoldable pub validate_cancel : VelaMandate Key → Key → Verdict
  validate_cancel mandate authority =
      let reasons =
        push_if (not (is_active_mandate mandate.status)) (subscription_is mandate.status) [] in
      let reasons =
        push_if (not (platform.equals mandate.subscriber authority)) only_subscriber reasons in
      record { allowed = is_empty reasons; reasons = reasons }

  -- A mandate may be cancelled exactly when it is active and the authority is its subscriber.
  pub validate_cancel_iff :
      (mandate : VelaMandate Key) (authority : Key)
      → IsLawful platform
      → ((validate_cancel mandate authority).allowed ≡ true)
        ↔ ((mandate.status ≡ MandateStatus.active) × (mandate.subscriber ≡ authority))
  unfolding validate_cancel is_empty
  validate_cancel_iff mandate authority lawful =
      let active = is_active_mandate_lem mandate.status in
      let same = lawful.equals_iff mandate.subscriber authority in
      (
        λ h. let k = simp is_empty-push_if at h in ground (arith, active, same),
        λ h. simp is_empty-push_if (ground (arith, active, same)),
      )
