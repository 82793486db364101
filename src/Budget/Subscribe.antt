-- ===== src/Budget/Subscribe.antt =====
-- `validateSubscribe` of src/validators/preflight.ts, on the fetches of Anchor that it makes. An error
-- that it does not expect is thrown on.
use vela_sdk.Prelude.{
  ◌≡◌, ◌↔◌, ◌⊎◌, inl, inr, refl, ap, ◌∙◌, Bool, true, false, not, none, some, [], ℤ, pos, arith,
  if◌then◌else◌, Option-cases, ℕ,
}
use vela_sdk.Prelude.Result.{Result, ok, err, ◌>>=◌, bind-eq-ok, ok-injective}
use vela_sdk.Accounts.Platform.{Platform}
use vela_sdk.Accounts.Pda
use vela_sdk.Accounts.PullApproval.{or_else}
use vela_sdk.Accounts.Status.{PlanStatus}
use vela_sdk.Accounts.Anchor.{AnchorVelaMandate}
use vela_sdk.Accounts.Merchant.{AnchorMerchantState, if_version, deserialize_merchant_state}
use vela_sdk.Accounts.Plans.{
  AnchorVelaPlan, AnchorVelaUsagePlan, SubscribablePlan, flat_plan, usage_plan, Failure, PlanError,
  rethrown, is_account_missing, get_subscribable_plan,
}
use vela_sdk.Accounts.Plans.Found.{
  IsFound, IsMissing, is_account_missing_iff, get_subscribable_plan_iff,
}
use vela_sdk.Budget.Reasons.{
  Reasons, plan_is, subscription_exists, push_if, is_empty, is_empty-push_if,
}

abbrev pub is_active_plan : PlanStatus → Bool
is_active_plan PlanStatus.active = true
is_active_plan PlanStatus.inactive = false

-- The fetches of Anchor: of plans, usage plans, merchants and mandates.
pub record Fetches (Key : Type 0) : Type 0 where
  pub program_id : Key
  pub fetch_plan : Key → Result Failure (AnchorVelaPlan Key)
  pub fetch_usage_plan : Key → Result Failure (AnchorVelaUsagePlan Key)
  pub fetch_merchant_state : Key → Result Failure (AnchorMerchantState Key)
  pub fetch_mandate : Key → Result Failure (AnchorVelaMandate Key)

-- A fetch outside every `try`: what it throws is thrown on.
abbrev pub fetched : {A : Type 0} → Result Failure A → Result PlanError A
fetched (ok a) = ok a
fetched (err e) = err (rethrown e)

pub record SubscribeValidationResult (Key : Type 0) : Type 0 where
  pub can_subscribe : Bool
  pub plan : SubscribablePlan Key
  pub reasons : Reasons

fetched-ok : {A : Type 0} (r : Result Failure A) (a : A) → fetched r ≡ ok a → r ≡ ok a
fetched-ok (ok b) a h = ap ok (ok-injective h)
fetched-ok (err e) a h = cc

module _ {Key : Type 0} where
  -- `plan.status` and `plan.merchant`
  abbrev pub plan_status : SubscribablePlan Key → PlanStatus
  plan_status (flat_plan p) = p.status
  plan_status (usage_plan p) = p.status

  abbrev pub plan_merchant : SubscribablePlan Key → Key
  plan_merchant (flat_plan p) = p.merchant
  plan_merchant (usage_plan p) = p.merchant

  -- The `try` around the fetch of the mandate: whether there is one.
  unfoldable pub mandate_exists : Result Failure (AnchorVelaMandate Key) → Result PlanError Bool
  mandate_exists (ok raw) = ok true
  mandate_exists (err e) = if not (is_account_missing e) then err (rethrown e) else ok false

  unfoldable pub subscribe_verdict : SubscribablePlan Key → Bool → SubscribeValidationResult Key
  subscribe_verdict plan exists =
      let reasons =
        push_if (not (is_active_plan (plan_status plan))) (plan_is (plan_status plan)) [] in
      let reasons = push_if exists subscription_exists reasons in
      record { can_subscribe = is_empty reasons; plan = plan; reasons = reasons }

  mandate_exists-missing :
      (r : Result Failure (AnchorVelaMandate Key))
      → mandate_exists r ≡ ok false
      → (e : Failure) × (r ≡ err e) × (is_account_missing e ≡ true)
  unfolding mandate_exists
  mandate_exists-missing (ok raw) h = cc
  mandate_exists-missing (err e) h = (e, refl, ground arith)

  subscribe_verdict-open :
      (plan : SubscribablePlan Key) (exists : Bool)
      → (subscribe_verdict plan exists).can_subscribe ≡ true
      → (plan_status plan ≡ PlanStatus.active) × (exists ≡ false)
  unfolding subscribe_verdict is_empty
  subscribe_verdict-open plan exists h =
      let k = simp is_empty-push_if at h in (ground arith, ground arith)

  mandate_counter_lem :
      (address : Key) (state : AnchorMerchantState Key)
      → ((state.version ≡ none)
          × ((deserialize_merchant_state address state).mandate_counter ≡ pos 0))
        ⊎ ((version : ℕ) × (state.version ≡ some version)
            × ((deserialize_merchant_state address state).mandate_counter
                ≡ or_else state.mandate_counter (pos 0)))
  unfolding deserialize_merchant_state
  mandate_counter_lem address state = elim (Option-cases state.version) [
    | inl e ↦ inl (e, rw e refl)
    | inr (version, e) ↦ inr (version, e, rw e refl)
  ]

module _ {Key : Type 0} ⦃platform : Platform Key⦄ (program : Fetches Key) where
  unfoldable pub validate_subscribe : Key → Key → Result PlanError (SubscribeValidationResult Key)
  validate_subscribe plan_address subscriber = do
    plan ← get_subscribable_plan program.fetch_plan program.fetch_usage_plan plan_address
    let merchant_state_address = (Pda.merchant_state (plan_merchant plan) program.program_id).0
    raw ← fetched (program.fetch_merchant_state merchant_state_address)
    let merchant_state = deserialize_merchant_state merchant_state_address raw
    let mandate_address =
        (Pda.mandate subscriber (plan_merchant plan) merchant_state.mandate_counter
          program.program_id).0
    exists ← mandate_exists (program.fetch_mandate mandate_address)
    ok (subscribe_verdict plan exists)

  -- A subscription to the plan at the address is possible.
  pub record IsOpen (plan_address subscriber : Key) : Type 0 where
    pub plan : SubscribablePlan Key
    pub found : IsFound program.fetch_plan program.fetch_usage_plan plan_address plan
    pub active : plan_status plan ≡ PlanStatus.active
    pub state : AnchorMerchantState Key
    pub state_found :
        program.fetch_merchant_state (Pda.merchant_state (plan_merchant plan) program.program_id).0
        ≡ ok state
    pub counter : ℤ
    pub counted :
        ((state.version ≡ none) × (counter ≡ pos 0))
        ⊎ ((version : ℕ) × (state.version ≡ some version)
            × (counter ≡ or_else state.mandate_counter (pos 0)))
    pub failure : Failure
    pub free :
        program.fetch_mandate
          (Pda.mandate subscriber (plan_merchant plan) counter program.program_id).0
        ≡ err failure
    pub missing : IsMissing failure

  module _ (plan_address subscriber : Key) where
    IsOpen-validate_subscribe :
        IsOpen plan_address subscriber
        → (v : SubscribeValidationResult Key) × (validate_subscribe plan_address subscriber ≡ ok v)
          × (v.can_subscribe ≡ true)
    unfolding validate_subscribe deserialize_merchant_state mandate_exists subscribe_verdict push_if
        is_empty
    IsOpen-validate_subscribe o =
        let found =
          (get_subscribable_plan_iff program.fetch_plan program.fetch_usage_plan plan_address
              o.plan).1
            o.found in
        let counter : if_version o.state.version (or_else o.state.mandate_counter (pos 0)) (pos 0)
            ≡ o.counter =
          ground (arith, o.counted) in
        let missing = (is_account_missing_iff o.failure).1 o.missing in
        (
          subscribe_verdict o.plan false,
          rw (found, o.state_found, counter, o.free, missing) refl,
          rw o.active refl,
        )

    validate_subscribe-IsOpen :
        (v : SubscribeValidationResult Key)
        → validate_subscribe plan_address subscriber ≡ ok v
        → v.can_subscribe ≡ true
        → IsOpen plan_address subscriber
    unfolding validate_subscribe
    validate_subscribe-IsOpen v h allowed =
        let (plan, found, h) = bind-eq-ok _ _ h in
        let (state, fetched_state, h) = bind-eq-ok _ _ h in
        let (exists, looked, h) = bind-eq-ok _ _ h in
        let allowed' : (subscribe_verdict plan exists).can_subscribe ≡ true =
          ap (λ r. r.can_subscribe) (ok-injective h) ∙ allowed in
        let (active, absent) = subscribe_verdict-open plan exists allowed' in
        let (failure, free, missing) = mandate_exists-missing _ (looked ∙ ap ok absent) in
        record {
          plan = plan;
          found =
              (get_subscribable_plan_iff program.fetch_plan program.fetch_usage_plan plan_address
                  plan).0
                found;
          active = active;
          state = state;
          state_found = fetched-ok _ state fetched_state;
          counter =
              (deserialize_merchant_state
                (Pda.merchant_state (plan_merchant plan) program.program_id).0
                state).mandate_counter;
          counted = mandate_counter_lem _ state;
          failure = failure;
          free = free;
          missing = (is_account_missing_iff failure).0 missing;
        }

  -- A plan can be subscribed to exactly when it is found and active, the state of its merchant is
  -- found, and the fetch of the mandate at the address of the subscriber, the merchant and the
  -- merchant's counter, which is zero in a state without a version, fails with a text that says that
  -- the account does not exist.
  pub validate_subscribe_iff :
      (plan_address subscriber : Key)
      → ((v : SubscribeValidationResult Key) × (validate_subscribe plan_address subscriber ≡ ok v)
          × (v.can_subscribe ≡ true))
        ↔ IsOpen plan_address subscriber
  validate_subscribe_iff plan_address subscriber = (
    λ (v, h, allowed). validate_subscribe-IsOpen plan_address subscriber v h allowed,
    IsOpen-validate_subscribe plan_address subscriber,
  )
