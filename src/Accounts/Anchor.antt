-- ===== src/Accounts/Anchor.antt =====
-- The readers of the objects that Anchor has decoded: `deserializeMandate` and its like, of
-- src/accounts/deserialize.ts. A number of any kind is the integer that its text gives; an enum is
-- the keys that it has; a text of bytes is kept as the bytes for the decoder.
pub mod Agreement
use vela_sdk.Prelude.{
  ℕ, Bool, true, false, not, Option, none, some, List, [], ℤ, pos, map, take, leb, if◌then◌else◌,
}
use vela_sdk.Prelude.Result.{ok, err, ◌>>=◌}
use vela_sdk.Errors.{Checked, unknown_anchor_variant}
use vela_sdk.Bytes.{before_zero}
use vela_sdk.Accounts.Platform.{Platform}
use vela_sdk.Accounts.Status.{
  MandateStatus, PlanStatus, AgentMandateStatus, BillingType, BillingRail,
}
use vela_sdk.Accounts.PullApproval.{or_else}
use vela_sdk.Accounts.VelaMandate.{VelaMandate, unless_default}
use vela_sdk.Accounts.AgentMandate.{AgentMandate, AgentServiceLimit}

-- `AnchorEnumVariant`: which keys are there.
pub record MandateStatusKeys : Type 0 where
  pub active : Bool
  pub cancelled : Bool
  pub expired : Bool

pub record PlanStatusKeys : Type 0 where
  pub active : Bool
  pub inactive : Bool

pub record AgentMandateStatusKeys : Type 0 where
  pub active : Bool
  pub paused : Bool
  pub revoked : Bool

pub record BillingTypeKeys : Type 0 where
  pub flat : Bool
  pub usage : Bool

unfoldable pub map_mandate_status : MandateStatusKeys → Checked MandateStatus
map_mandate_status raw =
    if raw.active
    then ok MandateStatus.active
    else if raw.cancelled
    then ok MandateStatus.cancelled
    else if raw.expired
    then ok MandateStatus.expired
    else err (unknown_anchor_variant "MandateStatus")

unfoldable pub map_plan_status : PlanStatusKeys → Checked PlanStatus
map_plan_status raw =
    if raw.active
    then ok PlanStatus.active
    else if raw.inactive
    then ok PlanStatus.inactive
    else err (unknown_anchor_variant "PlanStatus")

unfoldable pub map_agent_mandate_status_keys : AgentMandateStatusKeys → Checked AgentMandateStatus
map_agent_mandate_status_keys raw =
    if raw.active
    then ok AgentMandateStatus.active
    else if raw.paused
    then ok AgentMandateStatus.paused
    else if raw.revoked
    then ok AgentMandateStatus.revoked
    else err (unknown_anchor_variant "AgentMandateStatus")

unfoldable pub map_billing_type : Option BillingTypeKeys → Checked BillingType
map_billing_type none = ok BillingType.flat
map_billing_type (some raw) =
    if raw.flat
    then ok BillingType.flat
    else if raw.usage
    then ok BillingType.usage
    else err (unknown_anchor_variant "BillingType")

pub record AnchorVelaMandate (Key : Type 0) : Type 0 where
  pub subscriber : Key
  pub plan : Option Key
  pub merchant : Key
  pub mandate_index : Option ℤ
  pub amount : ℤ
  pub frequency : ℤ
  pub start_date : ℤ
  pub expiry : ℤ
  pub max_pulls : ℤ
  pub pulls_executed : ℤ
  pub next_payment_due : ℤ
  pub status : MandateStatusKeys
  pub bump : ℕ
  pub billing_type : Option BillingTypeKeys
  pub version : Option ℕ
  pub last_pull_at : Option ℤ
  pub last_billing_recorded_pull : Option ℤ
  pub validation_request_nonce : Option ℤ
  pub billing_request_nonce : Option ℤ
  pub credit_balance : Option ℤ
  pub pending_new_plan : Option Key
  pub pending_effective_at : Option ℤ
  pub pending_change_type : Option ℕ
  pub pending_nonce_short : Option (List ℕ)
  pub reserved : Option (List ℕ)

pub record AnchorAgentMandate (Key : Type 0) : Type 0 where
  pub authority : Key
  pub agent : Key
  pub daily_limit : ℤ
  pub daily_spent : ℤ
  pub daily_last_reset : ℤ
  pub lifetime_cap : ℤ
  pub total_spent : ℤ
  pub min_pull_amount : ℤ
  pub min_pull_interval : ℤ
  pub last_pull_at : ℤ
  pub status : AgentMandateStatusKeys
  pub services : Option (List (AgentServiceLimit Key))
  pub bump : ℕ
  pub version : Option ℕ
  pub reserved : Option (List ℕ)

module _ {Key : Type 0} ⦃platform : Platform Key⦄ where
  -- `key && !key.equals(PublicKey.default) ? key : undefined`
  abbrev pub unless_default_key : Option Key → Option Key
  unless_default_key none = none
  unless_default_key (some key) = unless_default key

  unfoldable pub deserialize_mandate : Key → AnchorVelaMandate Key → Checked (VelaMandate Key)
  deserialize_mandate address raw = do
    let version = or_else raw.version 0
    status ← map_mandate_status raw.status
    billing_type ← map_billing_type raw.billing_type
    ok (record {
      address = address;
      subscriber = raw.subscriber;
      plan = raw.plan;
      merchant = raw.merchant;
      mandate_index = if leb 1 version then some (or_else raw.mandate_index (pos 0)) else none;
      amount = raw.amount;
      frequency = raw.frequency;
      start_date = raw.start_date;
      expiry = raw.expiry;
      max_pulls = raw.max_pulls;
      pulls_executed = raw.pulls_executed;
      next_payment_due = raw.next_payment_due;
      status = status;
      bump = raw.bump;
      billing_type = billing_type;
      version = version;
      last_pull_at = raw.last_pull_at;
      last_billing_recorded_pull = raw.last_billing_recorded_pull;
      validation_request_nonce = raw.validation_request_nonce;
      billing_request_nonce = raw.billing_request_nonce;
      credit_balance = raw.credit_balance;
      pending_new_plan = unless_default_key raw.pending_new_plan;
      pending_effective_at = raw.pending_effective_at;
      pending_change_type = raw.pending_change_type;
      pending_nonce_short = raw.pending_nonce_short;
      reserved = raw.reserved;
    })

  unfoldable pub deserialize_agent_mandate :
      Key → AnchorAgentMandate Key → Checked (AgentMandate Key)
  deserialize_agent_mandate address raw = do
    status ← map_agent_mandate_status_keys raw.status
    ok (record {
      address = address;
      authority = raw.authority;
      agent = raw.agent;
      daily_limit = raw.daily_limit;
      daily_spent = raw.daily_spent;
      daily_last_reset = raw.daily_last_reset;
      lifetime_cap = raw.lifetime_cap;
      total_spent = raw.total_spent;
      min_pull_amount = raw.min_pull_amount;
      min_pull_interval = raw.min_pull_interval;
      last_pull_at = raw.last_pull_at;
      status = status;
      services = or_else raw.services [];
      bump = raw.bump;
      version = raw.version;
      reserved = raw.reserved;
    })
