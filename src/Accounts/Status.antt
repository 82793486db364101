-- ===== src/Accounts/Status.antt =====
-- The enumerations of src/types.ts and the bytes that stand for them (`mapMandateStatusByte`,
-- `mapBillingTypeByte`, `mapBillingRailByte` of src/accounts/deserialize.ts, and
-- `mapAgentMandateStatus` of src/accounts/fetchers.ts).
use vela_sdk.Prelude.{ℕ, ◌≡◌, refl, ◌==◌, if◌then◌else◌}
use vela_sdk.Prelude.Result.{ok, err}
use vela_sdk.Errors.{Checked, unknown_variant}

pub data MandateStatus : Type 0 where
  active cancelled expired : MandateStatus

pub data PlanStatus : Type 0 where
  active inactive : PlanStatus

pub data AgentMandateStatus : Type 0 where
  active paused revoked : AgentMandateStatus

pub data BillingType : Type 0 where
  flat usage : BillingType

pub data BillingRail : Type 0 where
  transfer_hook token_delegate : BillingRail

unfoldable pub map_mandate_status_byte : ℕ → Checked MandateStatus
map_mandate_status_byte raw =
    if raw == 0
    then ok MandateStatus.active
    else if raw == 1
    then ok MandateStatus.cancelled
    else if raw == 2
    then ok MandateStatus.expired
    else err (unknown_variant "MandateStatus" raw)

unfoldable pub map_billing_type_byte : ℕ → Checked BillingType
map_billing_type_byte raw =
    if raw == 0
    then ok flat
    else if raw == 1
    then ok usage
    else err (unknown_variant "BillingType" raw)

unfoldable pub map_billing_rail_byte : ℕ → Checked BillingRail
map_billing_rail_byte raw =
    if raw == 0
    then ok transfer_hook
    else if raw == 1
    then ok token_delegate
    else err (unknown_variant "BillingRail" raw)

unfoldable pub map_agent_mandate_status : ℕ → Checked AgentMandateStatus
map_agent_mandate_status raw =
    if raw == 0
    then ok AgentMandateStatus.active
    else if raw == 1
    then ok AgentMandateStatus.paused
    else if raw == 2
    then ok AgentMandateStatus.revoked
    else err (unknown_variant "AgentMandateStatus" raw)

-- The bytes that the program writes, and what they are read as.
abbrev pub mandate_status_byte : MandateStatus → ℕ
mandate_status_byte MandateStatus.active = 0
mandate_status_byte MandateStatus.cancelled = 1
mandate_status_byte MandateStatus.expired = 2

abbrev pub billing_type_byte : BillingType → ℕ
billing_type_byte flat = 0
billing_type_byte usage = 1

abbrev pub billing_rail_byte : BillingRail → ℕ
billing_rail_byte transfer_hook = 0
billing_rail_byte token_delegate = 1

abbrev pub agent_mandate_status_byte : AgentMandateStatus → ℕ
agent_mandate_status_byte AgentMandateStatus.active = 0
agent_mandate_status_byte AgentMandateStatus.paused = 1
agent_mandate_status_byte AgentMandateStatus.revoked = 2

pub map_mandate_status_byte_lem :
    (s : MandateStatus) → map_mandate_status_byte (mandate_status_byte s) ≡ ok s
unfolding map_mandate_status_byte
map_mandate_status_byte_lem MandateStatus.active = refl
map_mandate_status_byte_lem MandateStatus.cancelled = refl
map_mandate_status_byte_lem MandateStatus.expired = refl

pub map_billing_type_byte_lem :
    (t : BillingType) → map_billing_type_byte (billing_type_byte t) ≡ ok t
unfolding map_billing_type_byte
map_billing_type_byte_lem flat = refl
map_billing_type_byte_lem usage = refl

pub map_billing_rail_byte_lem :
    (r : BillingRail) → map_billing_rail_byte (billing_rail_byte r) ≡ ok r
unfolding map_billing_rail_byte
map_billing_rail_byte_lem transfer_hook = refl
map_billing_rail_byte_lem token_delegate = refl

pub map_agent_mandate_status_lem :
    (s : AgentMandateStatus) → map_agent_mandate_status (agent_mandate_status_byte s) ≡ ok s
unfolding map_agent_mandate_status
map_agent_mandate_status_lem AgentMandateStatus.active = refl
map_agent_mandate_status_lem AgentMandateStatus.paused = refl
map_agent_mandate_status_lem AgentMandateStatus.revoked = refl
