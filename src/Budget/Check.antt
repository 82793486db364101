-- ===== src/Budget/Check.antt =====
-- `checkAgentBudget` and `verifyAgentMandate`: what a mandate still allows at a time, and whether it
-- can be used at all. The RPC calls and the clock are an argument.
use vela_sdk.Prelude.{
  ℕ, Bool, true, false, not, ◌&&◌, Option, none, some, List, [], ◌∷◌, ℤ, pos, if◌then◌else◌,
}
use vela_sdk.Prelude.Int.{ltb_ℤ}
use vela_sdk.Prelude.Result.{ok, ◌>>=◌}
use vela_sdk.Errors.{Checked}
use vela_sdk.Accounts.Platform.{Platform}
use vela_sdk.Accounts.Pda
use vela_sdk.Accounts.PullApproval.{or_else}
use vela_sdk.Accounts.Status.{AgentMandateStatus}
use vela_sdk.Accounts.AgentMandate.{AgentMandate, AgentServiceLimit, fetch_agent_mandate}
use vela_sdk.Budget.Window.{ResetWindow, compute_reset_window, clamp_remaining}
use vela_sdk.Budget.Reasons.{
  Reasons, mandate_is, protocol_paused, service_not_authorized, no_wrapped_balance, push_if,
  is_empty,
}

-- The fields of the ProtocolConfig account that the checks read.
pub record ProtocolConfig (Key : Type 0) : Type 0 where
  pub wrapped_usdc_mint : Key
  pub paused : Bool

-- The network: `getAccountInfo`, `getTokenAccountBalance`, the fetch of ProtocolConfig, and the
-- clock in seconds.
pub record Network (Key : Type 0) : Type 0 where
  pub program_id : Key
  pub get_account_info : Key → Option (List ℕ)
  pub get_token_account_balance : Key → Checked ℤ
  pub fetch_protocol_config : Key → Checked (ProtocolConfig Key)
  -- The owner that `getParsedAccountInfo` shows, and that of spl-token's `getAccount`.
  pub parsed_owner : Key → Option Key
  pub account_owner : Key → Checked Key
  pub clock : ℤ

pub record CheckAgentBudgetParams (Key : Type 0) : Type 0 where
  pub authority : Key
  pub agent : Key
  pub service : Option Key
  pub wrapped_usdc_mint : Option Key
  pub now : Option ℤ

pub record AgentBudgetSummary (Key : Type 0) : Type 0 where
  pub mandate : AgentMandate Key
  pub status : AgentMandateStatus
  pub mandate_balance : ℤ
  pub global_remaining : ℤ
  pub service_remaining : Option ℤ
  pub daily_reset_at : ℤ
  pub service_reset_at : Option ℤ
  pub service_authorized : Bool
  pub funded : Bool

pub record AgentMandateVerificationResult (Key : Type 0) : Type 0 where
  pub budget : AgentBudgetSummary Key
  pub valid : Bool
  pub reasons : Reasons

abbrev pub is_some {ℓ} : {A : Type ℓ} → Option A → Bool
is_some none = false
is_some (some _) = true

abbrev pub is_active : AgentMandateStatus → Bool
is_active AgentMandateStatus.active = true
is_active _ = false

module _ {Key : Type 0} ⦃platform : Platform Key⦄ where
  -- `services.find((entry) => entry.service.equals(service))`
  unfoldable pub find_service : Key → List (AgentServiceLimit Key) → Option (AgentServiceLimit Key)
  find_service service [] = none
  find_service service (entry ∷ services) =
      if platform.equals entry.service service then some entry else find_service service services

  -- The object that `checkAgentBudget` returns, from what it has fetched.
  unfoldable pub summarize_budget : AgentMandate Key → ℤ → Option Key → ℤ → AgentBudgetSummary Key
  summarize_budget mandate mandate_balance service now =
      let daily_window = compute_reset_window mandate.daily_spent mandate.daily_last_reset now in
      let service_limit : Option (AgentServiceLimit Key) = elim service [
        | none ↦ none
        | some key ↦ find_service key mandate.services
      ] in
      let service_window : Option ResetWindow = elim service_limit [
        | none ↦ none
        | some entry ↦ some (compute_reset_window entry.daily_spent entry.last_reset now)
      ] in
      record {
        mandate = mandate;
        status = mandate.status;
        mandate_balance = mandate_balance;
        global_remaining = clamp_remaining mandate.daily_limit daily_window.spent;
        service_remaining = elim service_limit [
          | none ↦ none
          | some entry ↦ some (
              clamp_remaining entry.daily_limit
                (compute_reset_window entry.daily_spent entry.last_reset now).spent)
        ];
        daily_reset_at = daily_window.next_reset_at;
        service_reset_at = elim service_window [
          | none ↦ none
          | some window ↦ some window.next_reset_at
        ];
        service_authorized = is_some service_limit;
        funded = ltb_ℤ (pos 0) mandate_balance;
      }

  unfoldable pub resolve_wrapped_usdc_mint : Network Key → Option Key → Checked Key
  resolve_wrapped_usdc_mint network (some mint) = ok mint
  resolve_wrapped_usdc_mint network none = do
    config ← network.fetch_protocol_config (Pda.config network.program_id).0
    ok config.wrapped_usdc_mint

  unfoldable pub check_agent_budget :
      Network Key → CheckAgentBudgetParams Key → Checked (AgentBudgetSummary Key)
  check_agent_budget network params = do
    let now = or_else params.now network.clock
    let address = (Pda.agent_mandate params.authority params.agent network.program_id).0
    mandate ← fetch_agent_mandate network.get_account_info address
    mint ← resolve_wrapped_usdc_mint network params.wrapped_usdc_mint
    balance ← network.get_token_account_balance (Pda.agent_mandate_wrapped_ata mandate.address mint)
    ok (summarize_budget mandate balance params.service now)

  -- The verdict of `verifyAgentMandate` on a summary; `asked` is whether a service was named.
  unfoldable pub verify_summary :
      AgentBudgetSummary Key → Bool → Bool → AgentMandateVerificationResult Key
  verify_summary budget paused asked =
      let reasons = push_if (not (is_active budget.status)) (mandate_is budget.status) [] in
      let reasons = push_if paused protocol_paused reasons in
      let reasons =
        push_if (asked && not budget.service_authorized) service_not_authorized reasons in
      let reasons = push_if (not budget.funded) no_wrapped_balance reasons in
      record { budget = budget; valid = is_empty reasons; reasons = reasons }

  unfoldable pub verify_agent_mandate :
      Network Key → CheckAgentBudgetParams Key → Checked (AgentMandateVerificationResult Key)
  verify_agent_mandate network params = do
    budget ← check_agent_budget network params
    config ← network.fetch_protocol_config (Pda.config network.program_id).0
    ok (verify_summary budget config.paused (is_some params.service))
