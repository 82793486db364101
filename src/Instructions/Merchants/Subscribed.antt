-- ===== src/Instructions/Merchants/Subscribed.antt =====
-- Subscriptions to the plans that `buildCreatePlanInstruction` and `buildCreateUsagePlanInstruction`
-- create.
use vela_sdk.Prelude.{◌≡◌, refl, sym, ap, subst, ◌∙◌, Option, none, some, pos}
use vela_sdk.Prelude.Int.{ltb_ℤ}
use vela_sdk.Prelude.Result.{ok, bind-eq-ok, ok-injective, throw_if-eq-ok}
use vela_sdk.Accounts.Platform.{Platform, IsLawful}
use vela_sdk.Accounts.Pda
use vela_sdk.Accounts.Pda.{token_2022_program_id, associated_token_address}
use vela_sdk.Accounts.Anchor.{unless_default_key}
use vela_sdk.Accounts.Plans.{
  AnchorVelaPlan, AnchorVelaUsagePlan, resolve_plan_context, flat_plan, usage_plan,
}
use vela_sdk.Instructions.Anchor.{AnchorProgram, AnchorProtocolConfig, with_error}
use vela_sdk.Instructions.Subscriptions.{
  SubscribeParams, SubscribeResult, settle_billing_mint, build_subscribe,
}
use vela_sdk.Instructions.Subscriptions.Settled.{build_subscribe-IsSubscribed}
use vela_sdk.Instructions.Merchants.{
  CreatePlanParams, CreateUsagePlanParams, CreatedPlan, build_create_plan, build_create_usage_plan,
  lay_out,
}
use vela_sdk.Instructions.Merchants.Stored.{
  IsPlain, IsStored, IsUsageStored, shown, shown_usage, unless_default-some, fetch_plan_of-flat,
  fetch_plan_of-usage, settle_plan-fetched,
}

module _ {Key : Type 0} ⦃platform : Platform Key⦄ (program : AnchorProgram Key) where
  build_create_plan-token_config :
      (params : CreatePlanParams Key) (created : CreatedPlan Key)
      → build_create_plan program params ≡ ok created
      → created.token_config_address
        ≡ (Pda.token_config created.billing_mint_address program.program_id).0
  unfolding build_create_plan
  build_create_plan-token_config params created h =
      let (_, h1) = throw_if-eq-ok (ltb_ℤ params.max_pulls (pos 1)) _ _ h in
      let (mint, settled, h2) = bind-eq-ok (settle_billing_mint program params.billing_mint) _ h1 in
      let (ix, laid_out, h3) = bind-eq-ok (lay_out program _) _ h2 in
      subst
        (λ c.
          c.token_config_address ≡ (Pda.token_config c.billing_mint_address program.program_id).0)
        (ok-injective h3) refl

  -- The mint that a subscription settles.
  settle_billing_mint-some :
      (settled : Option Key) (mint result : Key)
      → settled ≡ some mint
      → settle_billing_mint program settled ≡ ok result
      → result ≡ mint
  unfolding settle_billing_mint
  settle_billing_mint-some settled mint result given h =
      sym (ok-injective (sym (ap (settle_billing_mint program) given) ∙ h))

  settle_billing_mint-none :
      (settled : Option Key) (config : AnchorProtocolConfig Key) (result : Key)
      → settled ≡ none
      → program.fetch_protocol_config (Pda.config program.program_id).0 ≡ ok config
      → settle_billing_mint program settled ≡ ok result
      → result ≡ config.wrapped_usdc_mint
  unfolding settle_billing_mint with_error
  settle_billing_mint-none settled config result absent fetched h =
      let default : settle_billing_mint program none ≡ ok config.wrapped_usdc_mint =
        rw (fetched, with_error) refl in
      ok-injective (sym h ∙ ap (settle_billing_mint program) absent ∙ default)

  build_create_usage_plan-mint :
      (params : CreateUsagePlanParams Key) (created : CreatedPlan Key) (mint : Key)
      → params.billing_mint ≡ some mint
      → build_create_usage_plan program params ≡ ok created
      → created.billing_mint_address ≡ mint
  unfolding build_create_usage_plan
  build_create_usage_plan-mint params created mint given h =
      let (settled, minted, h1) =
        bind-eq-ok (settle_billing_mint program params.billing_mint) _ h in
      let (ix, laid_out, h2) = bind-eq-ok (lay_out program _) _ h1 in
      sym (ap (λ c. c.billing_mint_address) (ok-injective h2))
      ∙ settle_billing_mint-some params.billing_mint mint settled given minted

  -- A plain subscription to a flat plan that was created with a mint other than the default key, and
  -- that stands at its address with the keys of its creation, is billed in the mint of its creation, under
  -- the same token configuration, and its credential account is that of the created credential's mint.
  pub build_create_plan-subscribed :
      (params : CreatePlanParams Key) (created : CreatedPlan Key) (raw : AnchorVelaPlan Key)
      (subscription : SubscribeParams Key) (result : SubscribeResult Key)
      → IsLawful platform
      → build_create_plan program params ≡ ok created
      → ¬ (created.billing_mint_address ≡ platform.default_key)
      → IsStored program created raw
      → IsPlain created.plan_address subscription
      → build_subscribe program subscription ≡ ok result
      → (result.billing_mint_address ≡ created.billing_mint_address)
        × (result.token_config_address ≡ created.token_config_address)
        × (result.credential_account_address
            ≡ associated_token_address created.credential_mint_address subscription.subscriber
                token_2022_program_id)
  unfolding resolve_plan_context
  build_create_plan-subscribed params created raw subscription result lawful built own stored plain
        h =
      let b = build_subscribe-IsSubscribed program subscription result lawful h in
      let (credential, mint) =
        settle_plan-fetched program created.plan_address
          (flat_plan (shown program created.plan_address raw)) subscription b.settled lawful plain
          (fetch_plan_of-flat program created raw stored) b.settled_as in
      let kept : unless_default_key raw.billing_mint ≡ some created.billing_mint_address =
        ap unless_default_key stored.mint
        ∙ unless_default-some created.billing_mint_address lawful own in
      let shown_mint : b.settled.billing_mint ≡ some created.billing_mint_address =
        mint ∙ rw kept refl in
      let billed =
        settle_billing_mint-some b.settled.billing_mint created.billing_mint_address b.billing_mint
          shown_mint b.minted in
      (
        b.billed_in ∙ billed,
        b.token_config
            ∙ ap (λ m. (Pda.token_config m program.program_id).0) billed
            ∙ sym (build_create_plan-token_config params created built),
        sym b.credential
            ∙ ap (λ m. associated_token_address m subscription.subscriber token_2022_program_id)
                (credential ∙ stored.credential),
      )

  -- A plain subscription to a usage plan that was created for a mint, and that stands at its address with
  -- the keys of its creation, has the credential account of the created credential's mint, but it is
  -- billed in the default mint of the protocol, whatever the mint of the plan is.
  pub build_create_usage_plan-subscribed :
      (params : CreateUsagePlanParams Key) (created : CreatedPlan Key) (mint : Key)
      (raw : AnchorVelaUsagePlan Key) (config : AnchorProtocolConfig Key)
      (subscription : SubscribeParams Key) (result : SubscribeResult Key)
      → IsLawful platform
      → params.billing_mint ≡ some mint
      → build_create_usage_plan program params ≡ ok created
      → IsUsageStored program created raw
      → program.fetch_protocol_config (Pda.config program.program_id).0 ≡ ok config
      → IsPlain created.plan_address subscription
      → build_subscribe program subscription ≡ ok result
      → (created.billing_mint_address ≡ mint)
        × (result.billing_mint_address ≡ config.wrapped_usdc_mint)
        × (result.credential_account_address
            ≡ associated_token_address created.credential_mint_address subscription.subscriber
                token_2022_program_id)
  unfolding resolve_plan_context
  build_create_usage_plan-subscribed params created mint raw config subscription result lawful given
        built stored configured plain h =
      let b = build_subscribe-IsSubscribed program subscription result lawful h in
      let (credential, settled_mint) =
        settle_plan-fetched program created.plan_address
          (usage_plan (shown_usage program created.plan_address raw)) subscription b.settled lawful
          plain (fetch_plan_of-usage program created raw stored) b.settled_as in
      (
        build_create_usage_plan-mint params created mint given built,
        b.billed_in
            ∙ settle_billing_mint-none b.settled.billing_mint config b.billing_mint settled_mint
                configured b.minted,
        sym b.credential
            ∙ ap (λ m. associated_token_address m subscription.subscriber token_2022_program_id)
                (credential ∙ stored.credential),
      )
