-- ===== src/Budget/Afford.antt =====
-- `canAfford` of src/x402/client.ts, on what `verifyAgentMandate` and `checkAgentBudget` return.
use vela_sdk.Prelude.{◌≡◌, ◌↔◌, Bool, true, false, Option, none, some, ℤ, ◌≤ℤ◌, arith}
use vela_sdk.Prelude.Int.{ltb_ℤ}
use vela_sdk.Budget.Reasons.{
  Reasons, insufficient_global, insufficient_service, insufficient_mandate_balance, push_if,
  is_empty, is_empty-push_if,
}
use vela_sdk.Budget.Check.{AgentBudgetSummary, AgentMandateVerificationResult}

pub record Affordability : Type 0 where
  pub affordable : Bool
  pub reasons : Reasons

abbrev pub falls_short : Option ℤ → ℤ → Bool
falls_short none amount = false
falls_short (some remaining) amount = ltb_ℤ remaining amount

module _ {Key : Type 0} where
  unfoldable pub can_afford :
      AgentMandateVerificationResult Key → AgentBudgetSummary Key → ℤ → Affordability
  can_afford verification budget amount =
      let reasons =
        push_if (ltb_ℤ budget.global_remaining amount) insufficient_global verification.reasons in
      let reasons =
        push_if (falls_short budget.service_remaining amount) insufficient_service reasons in
      let reasons =
        push_if (ltb_ℤ budget.mandate_balance amount) insufficient_mandate_balance reasons in
      record { affordable = is_empty reasons; reasons = reasons }

  -- A payment is affordable exactly when the verification gave no reason and the day's remainder, the
  -- service's where there is one, and the balance each cover it.
  pub can_afford_iff :
      (verification : AgentMandateVerificationResult Key) (budget : AgentBudgetSummary Key)
      (amount : ℤ)
      → ((can_afford verification budget amount).affordable ≡ true) ↔ (
          (is_empty verification.reasons ≡ true)
          × (amount ≤ℤ budget.global_remaining)
          × (falls_short budget.service_remaining amount ≡ false)
          × (amount ≤ℤ budget.mandate_balance))
  unfolding can_afford
  can_afford_iff verification budget amount = (
    λ h. let k = simp is_empty-push_if at h in ground arith,
    λ h. simp is_empty-push_if (ground arith),
  )
