-- ===== src/Instructions/Subscriptions.antt =====
-- Subscriptions: src/instructions/subscribe.ts and cancel.ts.
pub mod Settled
pub mod Funding
pub mod Wrapping
use Prim.Native.String.{String}
use vela_sdk.Prelude.{Bool, true, false, Option, none, some, List, [], ◌∷◌, ℤ, pos, if◌then◌else◌}
use vela_sdk.Prelude.Result.{Result, ok, err, ◌>>=◌}
use vela_sdk.Accounts.Platform.{Platform}
use vela_sdk.Accounts.Pda
use vela_sdk.Accounts.Pda.{token_2022_program_id, associated_token_program_id}
use vela_sdk.Accounts.PullApproval.{or_else}
use vela_sdk.Accounts.Plans.{
  SubscribablePlan, flat_plan, usage_plan, resolve_plan_context, get_subscribable_plan,
}
use vela_sdk.Instructions.{
  TransactionInstruction, AccountMeta, meta, system_program_id, token_program_id,
}
use vela_sdk.Instructions.Anchor.{
  bn, AnchorCall, AnchorProgram, BuildError, required, plan_failed, anchor_failed, with_error,
  get_associated_token_address,
}

-- `VelaSubscribeParams` with the subscriber and the overrides of the credential.
pub record SubscribeParams (Key : Type 0) : Type 0 where
  pub subscriber : Key
  pub plan_address : Key
  pub merchant_address : Option Key
  pub billing_mint : Option Key
  pub credential_mint : Option Key
  pub credential_mint_address : Option Key

pub record SubscribeResult (Key : Type 0) : Type 0 where
  pub instruction : TransactionInstruction Key
  pub mandate_address : Key
  pub credential_account_address : Key
  pub billing_mint_address : Key
  pub token_config_address : Key

pub record CancelParams (Key : Type 0) : Type 0 where
  pub mandate_address : Option Key
  pub authority : Key
  pub subscriber_address : Key
  pub plan_address : Key
  pub usdc_mint_address : Key
  pub credential_mint : Option Key
  pub credential_mint_address : Option Key

-- What the first part of `buildSubscribeInstruction` settles.
pub record SubscribedPlan (Key : Type 0) : Type 0 where
  pub credential_mint : Key
  pub merchant : Key
  pub billing_mint : Option Key

abbrev pub plan_number : {Key : Type 0} → SubscribablePlan Key → ℤ
plan_number (flat_plan plan) = plan.plan_id
plan_number (usage_plan plan) = plan.plan_id

-- `resolvedPlan.plan.billingType === "flat" ? (resolvedPlan.plan.billingMint ?? given) : given`
abbrev pub billing_mint_of : {Key : Type 0} → SubscribablePlan Key → Option Key → Option Key
billing_mint_of (flat_plan plan) given = elim plan.billing_mint [
  | some mint ↦ some mint
  | none ↦ given
]
billing_mint_of (usage_plan plan) given = given

-- `a ?? b`
abbrev pub either : {A : Type 0} → Option A → Option A → Option A
either (some a) b = some a
either none b = b

module _ {Key : Type 0} ⦃platform : Platform Key⦄ where
  -- The plan's own credential, or the credential of the plan's number or the merchant's if it is one.
  unfoldable pub choose_credential_mint : SubscribablePlan Key → Key → Key
  choose_credential_mint plan program_id =
      let resolved = resolve_plan_context plan in
      let merchant_credential_mint = (Pda.credential resolved.merchant program_id).0 in
      let legacy_credential_mint =
        (Pda.credential_v1 resolved.merchant (plan_number plan) program_id).0 in
      if platform.equals resolved.credential_mint legacy_credential_mint
      then legacy_credential_mint
      else if platform.equals resolved.credential_mint merchant_credential_mint
      then merchant_credential_mint
      else resolved.credential_mint

  unfoldable pub subscribe_call :
      SubscribeParams Key
      → (program_id : Key) → SubscribedPlan Key
      → (billing_mint mandate_address credential_account : Key) → AnchorCall Key
  subscribe_call params program_id plan billing_mint mandate_address credential_account = record {
    method = "subscribe";
    args = [];
    accounts =
        ("subscriber", params.subscriber)
        ∷ ("merchant", plan.merchant)
        ∷ ("merchantState", (Pda.merchant_state plan.merchant program_id).0)
        ∷ ("plan", params.plan_address)
        ∷ ("mandate", mandate_address)
        ∷ ("credentialMint", plan.credential_mint)
        ∷ ("billingMint", billing_mint)
        ∷ ("tokenConfig", (Pda.token_config billing_mint program_id).0)
        ∷ ("subscriberCredentialAccount", credential_account)
        ∷ ("tokenProgram", token_program_id)
        ∷ ("token2022Program", token_2022_program_id)
        ∷ ("associatedTokenProgram", associated_token_program_id)
        ∷ ("systemProgram", system_program_id)
        ∷ ("rent", platform.of_base58 "SysvarRent111111111111111111111111111111111")
        ∷ [];
  }

module _ {Key : Type 0} ⦃platform : Platform Key⦄ (program : AnchorProgram Key) where
  abbrev pub fetch_plan_of : Key → Result (BuildError Key) (SubscribablePlan Key)
  fetch_plan_of address =
      with_error plan_failed
        (get_subscribable_plan program.fetch_plan program.fetch_usage_plan address)

  unfoldable pub settle_fetched : SubscribeParams Key → Result (BuildError Key) (SubscribedPlan Key)
  settle_fetched params = do
    plan ← fetch_plan_of params.plan_address
    ok (record {
      credential_mint = choose_credential_mint plan program.program_id;
      merchant = (resolve_plan_context plan).merchant;
      billing_mint = billing_mint_of plan params.billing_mint;
    })

  -- A credential and a merchant that are both given, or those of the fetched plan.
  unfoldable pub settle_from :
      (credential_mint merchant : Option Key)
      → SubscribeParams Key
      → Result (BuildError Key) (SubscribedPlan Key)
  settle_from (some credential_mint) (some merchant) params = ok (record {
    credential_mint = credential_mint;
    merchant = merchant;
    billing_mint = params.billing_mint;
  })
  settle_from (some credential_mint) none params = settle_fetched params
  settle_from none merchant params = settle_fetched params

  unfoldable pub settle_plan : SubscribeParams Key → Result (BuildError Key) (SubscribedPlan Key)
  settle_plan params =
      settle_from (either params.credential_mint params.credential_mint_address)
        params.merchant_address params

  -- `fetchDefaultBillingMint`, if no mint has been settled.
  unfoldable pub settle_billing_mint : Option Key → Result (BuildError Key) Key
  settle_billing_mint (some mint) = ok mint
  settle_billing_mint none = do
    raw ← with_error anchor_failed (program.fetch_protocol_config (Pda.config program.program_id).0)
    ok raw.wrapped_usdc_mint

  unfoldable pub build_subscribe :
      SubscribeParams Key → Result (BuildError Key) (SubscribeResult Key)
  build_subscribe params = do
    let program_id = program.program_id
    plan ← settle_plan params
    billing_mint ← settle_billing_mint plan.billing_mint
    counter ←
        with_error anchor_failed
          (program.fetch_mandate_counter (Pda.merchant_state plan.merchant program_id).0)
    let mandate_index = or_else counter (pos 0)
    let mandate_address = (Pda.mandate params.subscriber plan.merchant mandate_index program_id).0
    credential_account ←
        get_associated_token_address program plan.credential_mint params.subscriber false
          token_2022_program_id
    instruction ← with_error anchor_failed (
        program.instruction
          (subscribe_call params program_id plan billing_mint mandate_address credential_account))
    ok (record {
      instruction = instruction;
      mandate_address = mandate_address;
      credential_account_address = credential_account;
      billing_mint_address = billing_mint;
      token_config_address = (Pda.token_config billing_mint program_id).0;
    })

  -- The instruction, and the mandate that is cancelled.
  unfoldable pub build_cancel :
      CancelParams Key → Result (BuildError Key) (TransactionInstruction Key × Key)
  build_cancel params = elim params.mandate_address [
    | none ↦ err (required "mandateAddress")
    | some mandate_address ↦ do
      plan ← fetch_plan_of params.plan_address
      let merchant = (resolve_plan_context plan).merchant
      let credential_mint =
          or_else (either params.credential_mint params.credential_mint_address)
            (choose_credential_mint plan program.program_id)
      credential_account ←
          get_associated_token_address program credential_mint params.subscriber_address false
            token_2022_program_id
      token_account ←
          get_associated_token_address program params.usdc_mint_address params.subscriber_address
            false token_program_id
      instruction ← with_error anchor_failed (
          program.instruction (record {
            method = "cancel";
            args = [];
            accounts =
                ("authority", params.authority)
                ∷ ("subscriber", params.subscriber_address)
                ∷ ("merchant", merchant)
                ∷ ("merchantState", (Pda.merchant_state merchant program.program_id).0)
                ∷ ("plan", params.plan_address)
                ∷ ("mandate", mandate_address)
                ∷ ("subscriberCredentialAccount", credential_account)
                ∷ ("credentialMint", credential_mint)
                ∷ ("token2022Program", token_2022_program_id)
                ∷ ("subscriberTokenAccount", token_account)
                ∷ ("tokenProgram", token_program_id)
                ∷ [];
          }))
      ok (instruction, mandate_address)
  ]
