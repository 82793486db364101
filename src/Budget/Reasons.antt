-- ===== src/Budget/Reasons.antt =====
-- The reasons that a check collects: `const reasons = []; if (c) reasons.push(r); …`, and the
-- verdict `reasons.length === 0`.
use vela_sdk.Prelude.{
  ◌≡◌, refl, sym, ◌∙◌, Bool, true, false, not, ◌&&◌, List, [], ◌∷◌, ◌++◌, if◌then◌else◌,
}
use vela_sdk.Accounts.Status.{AgentMandateStatus, MandateStatus, PlanStatus}

pub data Reason : Type 0 where
  -- "Mandate is …", "Plan is …"
  mandate_is : AgentMandateStatus → Reason
  subscription_is : MandateStatus → Reason
  plan_is : PlanStatus → Reason
  protocol_paused service_not_authorized no_wrapped_balance : Reason
  service_limit_exceeded daily_limit_exceeded lifetime_cap_exceeded : Reason
  below_minimum cooldown_active balance_insufficient : Reason
  not_due pulls_exhausted mandate_expired : Reason
  subscription_exists only_subscriber : Reason
  insufficient_global insufficient_service insufficient_mandate_balance : Reason

abbrev pub Reasons : Type 0
Reasons = List Reason

-- `if (c) reasons.push(r)`
unfoldable pub push_if : Bool → Reason → Reasons → Reasons
push_if c r reasons = if c then reasons ++ r ∷ [] else reasons

-- `reasons.length === 0`
unfoldable pub is_empty : Reasons → Bool
is_empty [] = true
is_empty (r ∷ reasons) = false

is_empty-snoc : (reasons : Reasons) (r : Reason) → is_empty (reasons ++ r ∷ []) ≡ false
unfolding is_empty
is_empty-snoc [] r = refl
is_empty-snoc (s ∷ reasons) r = refl

and-false : (b : Bool) → (b && false) ≡ false
and-false true = refl
and-false false = refl

and-true : (b : Bool) → (b && true) ≡ b
and-true true = refl
and-true false = refl

-- The verdict stays good exactly when the test does not fire.
pub is_empty-push_if :
    (c : Bool) (r : Reason) (reasons : Reasons)
    → is_empty (push_if c r reasons) ≡ (is_empty reasons && not c)
unfolding push_if
is_empty-push_if true r reasons = is_empty-snoc reasons r ∙ sym (and-false (is_empty reasons))
is_empty-push_if false r reasons = sym (and-true (is_empty reasons))
