-- ===== src/Accounts/Plans.antt =====
-- Subscription and usage plans: the readers of src/accounts/deserialize.ts for the objects that
-- Anchor has decoded, and src/accounts/subscribable-plan.ts. A name of units is kept as the bytes for
-- the text decoder.
pub mod Found
use Prim.Native.String.{String}
use vela_sdk.Prelude.{
  ℕ, ◌≤◌, ◌≡◌, ◌≢◌, ◌↔◌, ◌⊎◌, inl, inr, Bool-cases, refl, ap, Bool, true, false, not, ◌&&◌, ◌||◌,
  Option, none, some, List, [], ℤ, pos, take, length, length-take, arith, if◌then◌else◌,
}
use vela_sdk.Prelude.Result.{Result, ok, err, ◌>>=◌, Result-cases, ok-injective}
use vela_sdk.Errors.{Checked, SdkError}
use vela_sdk.Bytes.{codes, contains, before_zero}
use vela_sdk.Accounts.Platform.{Platform}
use vela_sdk.Accounts.Status.{PlanStatus, BillingType}
use vela_sdk.Accounts.PullApproval.{or_else}
use vela_sdk.Accounts.Anchor.{PlanStatusKeys, map_plan_status, unless_default_key}

pub record Tier : Type 0 where
  pub up_to : ℤ
  pub rate_per_unit : ℤ

pub record AnchorVelaPlan (Key : Type 0) : Type 0 where
  pub merchant : Key
  pub plan_id : ℤ
  pub amount : ℤ
  pub frequency : ℤ
  pub trial_period : ℤ
  pub max_pulls : ℤ
  pub status : PlanStatusKeys
  pub credential_mint : Key
  pub billing_mint : Option Key
  pub bump : ℕ
  pub version : Option ℕ
  pub reserved : Option (List ℕ)

pub record AnchorVelaUsagePlan (Key : Type 0) : Type 0 where
  pub merchant : Key
  pub plan_id : ℤ
  pub unit_name : List ℕ
  pub tiers : Option (List Tier)
  pub tier_count : Option ℕ
  pub max_charge_per_period : ℤ
  pub settlement_frequency : ℤ
  pub status : PlanStatusKeys
  pub credential_mint : Key
  pub billing_mint : Option Key
  pub bump : ℕ
  pub version : Option ℕ
  pub reserved : Option (List ℕ)

pub record VelaPlan (Key : Type 0) : Type 0 where
  pub address : Key
  pub merchant : Key
  pub plan_id : ℤ
  pub amount : ℤ
  pub frequency : ℤ
  pub trial_period : ℤ
  pub max_pulls : ℤ
  pub status : PlanStatus
  pub credential_mint : Key
  pub billing_mint : Option Key
  pub bump : ℕ
  pub version : Option ℕ
  pub reserved : Option (List ℕ)

pub record VelaUsagePlan (Key : Type 0) : Type 0 where
  pub address : Key
  pub merchant : Key
  pub plan_id : ℤ
  pub unit_name : List ℕ
  pub tiers : List Tier
  pub tier_count : ℕ
  pub max_charge_per_period : ℤ
  pub settlement_frequency : ℤ
  pub status : PlanStatus
  pub credential_mint : Key
  pub billing_mint : Option Key
  pub bump : ℕ
  pub version : Option ℕ
  pub reserved : Option (List ℕ)

pub data SubscribablePlan (Key : Type 0) : Type 0 where
  flat_plan : VelaPlan Key → SubscribablePlan Key
  usage_plan : VelaUsagePlan Key → SubscribablePlan Key

-- What is thrown: an `Error` with its message, or another value with the text that `String` gives.
pub record Failure : Type 0 where
  pub is_error : Bool
  pub message : String

pub data PlanError : Type 0 where
  unsupported_or_missing : String → PlanError
  rethrown : Failure → PlanError

-- `ResolvedPlanContext`, less the plan itself.
pub record ResolvedPlanContext (Key : Type 0) : Type 0 where
  pub billing_type : BillingType
  pub credential_mint : Key
  pub merchant : Key
  pub wrap_amount : ℤ
  pub frequency : ℤ

-- The error of a reader, whose only one is that the status has none of the known keys.
unfoldable pub failure_of : {A : Type 0} → Checked A → Result Failure A
failure_of (ok a) = ok a
failure_of (err e) = err (record { is_error = true; message = "Unknown PlanStatus variant: {}" })

-- `message.includes(part)`
unfoldable pub says : Failure → String → Bool
says e part = contains (codes e.message) (codes part)

unfoldable pub is_account_missing : Failure → Bool
is_account_missing e = says e "Account does not exist"

unfoldable pub is_plan_type_mismatch : Failure → Bool
is_plan_type_mismatch e =
    says e "Account did not deserialize"
    || (says e "Invalid account discriminator" || says e "AccountDiscriminatorMismatch")

unfoldable pub should_try_usage_fallback : Failure → Bool
should_try_usage_fallback e = is_account_missing e || is_plan_type_mismatch e

module _ {Key : Type 0} ⦃platform : Platform Key⦄ where
  unfoldable pub deserialize_plan : Key → AnchorVelaPlan Key → Checked (VelaPlan Key)
  deserialize_plan address raw = do
    status ← map_plan_status raw.status
    ok (record {
      address = address;
      merchant = raw.merchant;
      plan_id = raw.plan_id;
      amount = raw.amount;
      frequency = raw.frequency;
      trial_period = raw.trial_period;
      max_pulls = raw.max_pulls;
      status = status;
      credential_mint = raw.credential_mint;
      billing_mint = unless_default_key raw.billing_mint;
      bump = raw.bump;
      version = raw.version;
      reserved = raw.reserved;
    })

  unfoldable pub deserialize_usage_plan :
      Key → AnchorVelaUsagePlan Key → Checked (VelaUsagePlan Key)
  deserialize_usage_plan address raw = do
    let tier_count = or_else raw.tier_count 0
    let tiers = take tier_count (or_else raw.tiers [])
    status ← map_plan_status raw.status
    ok (record {
      address = address;
      merchant = raw.merchant;
      plan_id = raw.plan_id;
      unit_name = before_zero raw.unit_name;
      tiers = tiers;
      tier_count = tier_count;
      max_charge_per_period = raw.max_charge_per_period;
      settlement_frequency = raw.settlement_frequency;
      status = status;
      credential_mint = raw.credential_mint;
      billing_mint = unless_default_key raw.billing_mint;
      bump = raw.bump;
      version = raw.version;
      reserved = raw.reserved;
    })

  -- `e instanceof Error ? e : planAccountError(address)`
  unfoldable pub thrown_again : Key → Failure → PlanError
  thrown_again address e =
      if e.is_error then rethrown e else unsupported_or_missing (platform.to_base58 address)

  -- The two tries, each a fetch and a reader.
  unfoldable pub read_flat :
      (Key → Result Failure (AnchorVelaPlan Key)) → Key → Result Failure (VelaPlan Key)
  read_flat fetch address = do raw ← fetch address; failure_of (deserialize_plan address raw)

  unfoldable pub read_usage :
      (Key → Result Failure (AnchorVelaUsagePlan Key)) → Key → Result Failure (VelaUsagePlan Key)
  read_usage fetch address = do raw ← fetch address; failure_of (deserialize_usage_plan address raw)

  unfoldable pub fall_back :
      Key → Failure → Result Failure (VelaUsagePlan Key) → Result PlanError (SubscribablePlan Key)
  fall_back address flat_error (ok plan) = ok (usage_plan plan)
  fall_back address flat_error (err usage_error) =
      if is_account_missing flat_error && is_account_missing usage_error
      then err (unsupported_or_missing (platform.to_base58 address))
      else err (thrown_again address usage_error)

  unfoldable pub get_subscribable_plan :
      (Key → Result Failure (AnchorVelaPlan Key))
      → (Key → Result Failure (AnchorVelaUsagePlan Key))
      → Key
      → Result PlanError (SubscribablePlan Key)
  get_subscribable_plan fetch_flat fetch_usage address = elim (read_flat fetch_flat address) [
    | ok plan ↦ ok (flat_plan plan)
    | err flat_error ↦
        if should_try_usage_fallback flat_error
        then fall_back address flat_error (read_usage fetch_usage address)
        else err (thrown_again address flat_error)
  ]

-- `resolvePlanContext`
unfoldable pub resolve_plan_context :
    {Key : Type 0} → SubscribablePlan Key → ResolvedPlanContext Key
resolve_plan_context (usage_plan plan) = record {
  billing_type = BillingType.usage;
  credential_mint = plan.credential_mint;
  merchant = plan.merchant;
  wrap_amount = plan.max_charge_per_period;
  frequency = plan.settlement_frequency;
}
resolve_plan_context (flat_plan plan) = record {
  billing_type = BillingType.flat;
  credential_mint = plan.credential_mint;
  merchant = plan.merchant;
  wrap_amount = plan.amount;
  frequency = plan.frequency;
}
