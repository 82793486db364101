-- ===== src/Budget/Pull.antt =====
-- `validateAgentPull` of src/validators/preflight.ts: whether an agent may pull an amount now. The
-- clock is read once, where the source reads it for the budget and again for the cooldown.
pub mod Laws
use vela_sdk.Prelude.{
  Bool, true, false, not, ◌&&◌, Option, none, some, [], ℤ, pos, ◌+ℤ◌, ◌-ℤ◌, if◌then◌else◌,
}
use vela_sdk.Prelude.Int.{ltb_ℤ, leb_ℤ}
use vela_sdk.Prelude.Result.{ok, ◌>>=◌}
use vela_sdk.Errors.{Checked}
use vela_sdk.Accounts.Platform.{Platform}
use vela_sdk.Accounts.Pda
use vela_sdk.Accounts.PullApproval.{or_else}
use vela_sdk.Accounts.AgentMandate.{AgentServiceLimit}
use vela_sdk.Budget.Reasons.{
  Reasons, mandate_is, protocol_paused, service_not_authorized, service_limit_exceeded,
  daily_limit_exceeded, lifetime_cap_exceeded, below_minimum, cooldown_active, balance_insufficient,
  push_if, is_empty,
}
use vela_sdk.Budget.Check.{
  Network, AgentBudgetSummary, is_active, is_some, find_service, check_agent_budget,
}

pub record ValidateAgentPullParams (Key : Type 0) : Type 0 where
  pub authority : Key
  pub agent : Key
  pub service_wrapped_account : Key
  pub amount : ℤ
  pub wrapped_usdc_mint : Option Key
  pub now : Option ℤ

pub record AgentPullValidationResult (Key : Type 0) : Type 0 where
  pub budget : AgentBudgetSummary Key
  pub can_pull : Bool
  pub reasons : Reasons

-- `next >= limit ? 0n : limit - next`
unfoldable pub left_after : ℤ → ℤ → ℤ
left_after limit next = if leb_ℤ limit next then pos 0 else limit -ℤ next

-- `lastPullAt > 0n && minPullInterval > 0n`, and then `now - lastPullAt < minPullInterval`.
unfoldable pub is_cooling : ℤ → ℤ → ℤ → Bool
is_cooling last_pull_at min_pull_interval now =
    ltb_ℤ (pos 0) last_pull_at
    && (ltb_ℤ (pos 0) min_pull_interval && ltb_ℤ (now -ℤ last_pull_at) min_pull_interval)

module _ {Key : Type 0} where
  -- What was spent on a service, as `dailyLimit - (serviceRemaining ?? 0n)`.
  unfoldable pub service_spent : Option (AgentServiceLimit Key) → Option ℤ → ℤ
  service_spent none remaining = pos 0
  service_spent (some entry) remaining = entry.daily_limit -ℤ or_else remaining (pos 0)

  unfoldable pub service_would_exceed : Option (AgentServiceLimit Key) → ℤ → Bool
  service_would_exceed none next = false
  service_would_exceed (some entry) next = ltb_ℤ entry.daily_limit next

  unfoldable pub service_left_after : Option (AgentServiceLimit Key) → ℤ → Option ℤ
  service_left_after none next = none
  service_left_after (some entry) next = some (left_after entry.daily_limit next)

module _ {Key : Type 0} ⦃platform : Platform Key⦄ where
  unfoldable pub resolve_service_owner : Network Key → Key → Checked Key
  resolve_service_owner network account = elim (network.parsed_owner account) [
    | some owner ↦ ok owner
    | none ↦ network.account_owner account
  ]

  unfoldable pub pull_verdict :
      AgentBudgetSummary Key → Bool → Key → ℤ → ℤ → AgentPullValidationResult Key
  pull_verdict budget paused service amount now =
      let mandate = budget.mandate in
      let reasons = push_if (not (is_active budget.status)) (mandate_is budget.status) [] in
      let reasons = push_if paused protocol_paused reasons in
      let reasons = push_if (not budget.service_authorized) service_not_authorized reasons in
      let service_limit = find_service service mandate.services in
      let next_service_spent = service_spent service_limit budget.service_remaining +ℤ amount in
      let reasons =
        push_if (service_would_exceed service_limit next_service_spent) service_limit_exceeded
          reasons in
      let current_daily_spent = mandate.daily_limit -ℤ budget.global_remaining in
      let next_daily_spent = current_daily_spent +ℤ amount in
      let reasons =
        push_if (ltb_ℤ mandate.daily_limit next_daily_spent) daily_limit_exceeded reasons in
      let next_total_spent = mandate.total_spent +ℤ amount in
      let reasons =
        push_if (ltb_ℤ mandate.lifetime_cap next_total_spent) lifetime_cap_exceeded reasons in
      let reasons = push_if (ltb_ℤ amount mandate.min_pull_amount) below_minimum reasons in
      let reasons =
        push_if (is_cooling mandate.last_pull_at mandate.min_pull_interval now) cooldown_active
          reasons in
      let reasons = push_if (ltb_ℤ budget.mandate_balance amount) balance_insufficient reasons in
      record {
        budget = record budget {
          global_remaining = left_after mandate.daily_limit next_daily_spent;
          service_remaining = service_left_after service_limit next_service_spent;
          funded = leb_ℤ amount budget.mandate_balance;
        };
        can_pull = is_empty reasons;
        reasons = reasons;
      }

  unfoldable pub validate_agent_pull :
      Network Key → ValidateAgentPullParams Key → Checked (AgentPullValidationResult Key)
  validate_agent_pull network params = do
    service ← resolve_service_owner network params.service_wrapped_account
    budget ← check_agent_budget network (record {
      authority = params.authority;
      agent = params.agent;
      service = some service;
      wrapped_usdc_mint = params.wrapped_usdc_mint;
      now = params.now;
    })
    config ← network.fetch_protocol_config (Pda.config network.program_id).0
    ok (pull_verdict budget config.paused service params.amount (or_else params.now network.clock))
