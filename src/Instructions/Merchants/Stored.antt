-- ===== src/Instructions/Merchants/Stored.antt =====
-- Plans that stand at their address with the keys of their creation, and what a plain subscription
-- settles from them.
use vela_sdk.Prelude.{◌≡◌, refl, sym, ap, ◌∙◌, inl, inr, true, Bool-cases, none, some, [], take}
use vela_sdk.Prelude.Result.{ok, err, bind-eq-ok, ok-injective}
use vela_sdk.Accounts.Platform.{Platform, IsLawful}
use vela_sdk.Accounts.VelaMandate.{unless_default}
use vela_sdk.Bytes.{before_zero}
use vela_sdk.Accounts.PullApproval.{or_else}
use vela_sdk.Accounts.Status.{PlanStatus}
use vela_sdk.Accounts.Anchor.{map_plan_status, unless_default_key}
use vela_sdk.Accounts.Plans.{
  Failure, AnchorVelaPlan, AnchorVelaUsagePlan, get_subscribable_plan, read_flat, read_usage,
  fall_back, should_try_usage_fallback, failure_of, deserialize_plan, deserialize_usage_plan,
  resolve_plan_context, VelaPlan, VelaUsagePlan, SubscribablePlan, flat_plan, usage_plan,
}
use vela_sdk.Instructions.Anchor.{AnchorProgram, with_error}
use vela_sdk.Instructions.Subscriptions.{
  SubscribeParams, SubscribedPlan, settle_fetched, settle_from, settle_plan, fetch_plan_of,
  billing_mint_of,
}
use vela_sdk.Instructions.Subscriptions.Settled.{choose_credential_mint_lem}
use vela_sdk.Instructions.Merchants.{CreatedPlan}

pub unless_default-some :
    {Key : Type 0} ⦃platform : Platform Key⦄ (key : Key)
    → IsLawful platform
    → ¬ (key ≡ platform.default_key)
    → unless_default key ≡ some key
unfolding unless_default
unless_default-some ⦃platform⦄ key lawful h =
    elim (Bool-cases (platform.equals key platform.default_key)) [
      | inl same ↦ absurd (h ((lawful.equals_iff key platform.default_key).0 same))
      | inr other ↦ rw other refl
    ]

-- A subscription that names the plan and neither a credential nor a mint.
pub record IsPlain {Key : Type 0} (plan_address : Key) (params : SubscribeParams Key) : Type 0 where
  pub address : params.plan_address ≡ plan_address
  pub credential_mint : params.credential_mint ≡ none
  pub credential_mint_address : params.credential_mint_address ≡ none
  pub billing_mint : params.billing_mint ≡ none

module _ {Key : Type 0} ⦃platform : Platform Key⦄ (program : AnchorProgram Key) where
  -- The flat plan stands at its address with the keys of its creation.
  pub record IsStored (created : CreatedPlan Key) (raw : AnchorVelaPlan Key) : Type 0 where
    pub fetched : program.fetch_plan created.plan_address ≡ ok raw
    pub active : raw.status.active ≡ true
    pub credential : raw.credential_mint ≡ created.credential_mint_address
    pub mint : raw.billing_mint ≡ some created.billing_mint_address

  -- So does the usage plan, which is no flat plan.
  pub record IsUsageStored (created : CreatedPlan Key) (raw : AnchorVelaUsagePlan Key)
      : Type 0 where
    pub failure : Failure
    pub not_flat : program.fetch_plan created.plan_address ≡ err failure
    pub says_so : should_try_usage_fallback failure ≡ true
    pub fetched : program.fetch_usage_plan created.plan_address ≡ ok raw
    pub active : raw.status.active ≡ true
    pub credential : raw.credential_mint ≡ created.credential_mint_address
    pub mint : raw.billing_mint ≡ some created.billing_mint_address

  abbrev pub shown : Key → AnchorVelaPlan Key → VelaPlan Key
  shown address raw = record {
    address = address;
    merchant = raw.merchant;
    plan_id = raw.plan_id;
    amount = raw.amount;
    frequency = raw.frequency;
    trial_period = raw.trial_period;
    max_pulls = raw.max_pulls;
    status = PlanStatus.active;
    credential_mint = raw.credential_mint;
    billing_mint = unless_default_key raw.billing_mint;
    bump = raw.bump;
    version = raw.version;
    reserved = raw.reserved;
  }

  abbrev pub shown_usage : Key → AnchorVelaUsagePlan Key → VelaUsagePlan Key
  shown_usage address raw = record {
    address = address;
    merchant = raw.merchant;
    plan_id = raw.plan_id;
    unit_name = before_zero raw.unit_name;
    tiers = take (or_else raw.tier_count 0) (or_else raw.tiers []);
    tier_count = or_else raw.tier_count 0;
    max_charge_per_period = raw.max_charge_per_period;
    settlement_frequency = raw.settlement_frequency;
    status = PlanStatus.active;
    credential_mint = raw.credential_mint;
    billing_mint = unless_default_key raw.billing_mint;
    bump = raw.bump;
    version = raw.version;
    reserved = raw.reserved;
  }

  read_flat-shown :
      (created : CreatedPlan Key) (raw : AnchorVelaPlan Key)
      → IsStored created raw
      → read_flat program.fetch_plan created.plan_address ≡ ok (shown created.plan_address raw)
  unfolding read_flat deserialize_plan map_plan_status failure_of
  read_flat-shown created raw stored = rw stored.fetched rw stored.active refl

  read_usage-shown :
      (created : CreatedPlan Key) (raw : AnchorVelaUsagePlan Key)
      → IsUsageStored created raw
      → read_usage program.fetch_usage_plan created.plan_address
        ≡ ok (shown_usage created.plan_address raw)
  unfolding read_usage deserialize_usage_plan map_plan_status failure_of
  read_usage-shown created raw stored = rw stored.fetched rw stored.active refl

  read_flat-failed :
      (created : CreatedPlan Key) (raw : AnchorVelaUsagePlan Key)
      (stored : IsUsageStored created raw)
      → read_flat program.fetch_plan created.plan_address ≡ err stored.failure
  unfolding read_flat
  read_flat-failed created raw stored = rw stored.not_flat refl

  pub fetch_plan_of-flat :
      (created : CreatedPlan Key) (raw : AnchorVelaPlan Key)
      → IsStored created raw
      → fetch_plan_of program created.plan_address ≡ ok (flat_plan (shown created.plan_address raw))
  unfolding get_subscribable_plan with_error
  fetch_plan_of-flat created raw stored =
      rw (read_flat-shown created raw stored, get_subscribable_plan, with_error) refl

  pub fetch_plan_of-usage :
      (created : CreatedPlan Key) (raw : AnchorVelaUsagePlan Key)
      → IsUsageStored created raw
      → fetch_plan_of program created.plan_address
        ≡ ok (usage_plan (shown_usage created.plan_address raw))
  unfolding get_subscribable_plan fall_back with_error
  fetch_plan_of-usage created raw stored =
      rw (read_flat-failed created raw stored, get_subscribable_plan, with_error) rw
        (stored.says_so, with_error) rw (read_usage-shown created raw stored, fall_back, with_error)
        refl

  -- A plan that is fetched settles the credential, and the mint as its kind says.
  pub settle_plan-fetched :
      (address : Key) (plan : SubscribablePlan Key) (params : SubscribeParams Key)
      (settled : SubscribedPlan Key)
      → IsLawful platform
      → IsPlain address params
      → fetch_plan_of program address ≡ ok plan
      → settle_plan program params ≡ ok settled
      → (settled.credential_mint ≡ (resolve_plan_context plan).credential_mint)
        × (settled.billing_mint ≡ billing_mint_of plan none)
  unfolding settle_plan settle_from settle_fetched
  settle_plan-fetched address plan params settled lawful plain found h =
      let as_fetched : settle_fetched program params ≡ ok settled =
        sym (rw plain.credential_mint rw plain.credential_mint_address refl) ∙ h in
      let (other, fetched, done) =
        bind-eq-ok (fetch_plan_of program params.plan_address) _ as_fetched in
      let plan_is : other ≡ plan =
        ok-injective (sym fetched ∙ ap (fetch_plan_of program) plain.address ∙ found) in
      let same = sym (ok-injective done) in
      (
        ap (λ s. s.credential_mint) same
            ∙ choose_credential_mint_lem other program.program_id lawful
            ∙ ap (λ p. (resolve_plan_context p).credential_mint) plan_is,
        ap (λ s. s.billing_mint) same
            ∙ ap (λ p. billing_mint_of p params.billing_mint) plan_is
            ∙ ap (billing_mint_of plan) plain.billing_mint,
      )
