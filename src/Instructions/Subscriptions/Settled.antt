-- ===== src/Instructions/Subscriptions/Settled.antt =====
-- What a subscription is built from: the credential and the merchant that `buildSubscribeInstruction`
-- settles, and the addresses that it derives from them.
use vela_sdk.Prelude.{
  ◌≡◌, refl, sym, ap, ◌∙◌, inl, inr, Bool, true, false, Bool-cases, Option, none, some, ℤ, pos, not,
  ◌&&◌,
}
use vela_sdk.Prelude.Result.{ok, bind-eq-ok, ok-injective, throw_if}
use vela_sdk.Accounts.Platform.{Platform, IsLawful}
use vela_sdk.Accounts.Pda
use vela_sdk.Accounts.Pda.{token_2022_program_id, associated_token_address}
use vela_sdk.Accounts.PullApproval.{or_else}
use vela_sdk.Accounts.Plans.{SubscribablePlan, resolve_plan_context}
use vela_sdk.Instructions.Anchor.{
  AnchorProgram, anchor_failed, owner_off_curve, with_error, with_error-eq-ok,
  get_associated_token_address,
}
use vela_sdk.Instructions.Subscriptions.{
  SubscribeParams, SubscribeResult, SubscribedPlan, plan_number, choose_credential_mint,
  settle_from, either, subscribe_call, fetch_plan_of, settle_fetched, settle_plan,
  settle_billing_mint, build_subscribe,
}

module _ {Key : Type 0} ⦃platform : Platform Key⦄ where
  -- Whatever branch is taken, the credential is the one that the plan names.
  pub choose_credential_mint_lem :
      (plan : SubscribablePlan Key) (program_id : Key)
      → IsLawful platform
      → choose_credential_mint plan program_id ≡ (resolve_plan_context plan).credential_mint
  unfolding choose_credential_mint
  choose_credential_mint_lem plan program_id lawful =
      let resolved = resolve_plan_context plan in
      let same : (key : Key)
          → platform.equals resolved.credential_mint key ≡ true
          → key ≡ resolved.credential_mint =
        λ key h. sym ((lawful.equals_iff resolved.credential_mint key).0 h) in
      let legacy = (Pda.credential_v1 resolved.merchant (plan_number plan) program_id).0 in
      let merchant = (Pda.credential resolved.merchant program_id).0 in
      elim (Bool-cases (platform.equals resolved.credential_mint legacy)) [
        | inl h ↦ rw h (same legacy h)
        | inr h ↦ elim (Bool-cases (platform.equals resolved.credential_mint merchant)) [
          | inl g ↦ rw h rw g (same merchant g)
          | inr g ↦ rw h rw g refl
        ]
      ]

  -- The credential and the merchant of a subscription: those given, or those of the plan at the address.
  pub data IsSettled (program : AnchorProgram Key) (params : SubscribeParams Key)
      : SubscribedPlan Key → Type 0 where
    as_given :
        (credential merchant : Key) {settled : SubscribedPlan Key}
        → either params.credential_mint params.credential_mint_address ≡ some credential
        → params.merchant_address ≡ some merchant
        → settled.credential_mint ≡ credential
        → settled.merchant ≡ merchant
        → IsSettled program params settled
    as_fetched :
        (plan : SubscribablePlan Key) {settled : SubscribedPlan Key}
        → fetch_plan_of program params.plan_address ≡ ok plan
        → settled.credential_mint ≡ (resolve_plan_context plan).credential_mint
        → settled.merchant ≡ (resolve_plan_context plan).merchant
        → IsSettled program params settled

  settle_fetched-IsSettled :
      (program : AnchorProgram Key) (params : SubscribeParams Key) (settled : SubscribedPlan Key)
      → IsLawful platform
      → settle_fetched program params ≡ ok settled
      → IsSettled program params settled
  unfolding settle_fetched
  settle_fetched-IsSettled program params settled lawful h =
      let (plan, fetched, done) = bind-eq-ok (fetch_plan_of program params.plan_address) _ h in
      let same = sym (ok-injective done) in
      as_fetched plan fetched
        (ap (λ s. s.credential_mint) same
          ∙ choose_credential_mint_lem plan program.program_id lawful)
        (ap (λ s. s.merchant) same)

  settle_from-IsSettled :
      (program : AnchorProgram Key) (params : SubscribeParams Key) (settled : SubscribedPlan Key)
      (credential_mint merchant : Option Key)
      → IsLawful platform
      → either params.credential_mint params.credential_mint_address ≡ credential_mint
      → params.merchant_address ≡ merchant
      → settle_from program credential_mint merchant params ≡ ok settled
      → IsSettled program params settled
  unfolding settle_from
  settle_from-IsSettled program params settled (some c) (some m) lawful given named h =
      let same = sym (ok-injective h) in
      as_given c m given named (ap (λ s. s.credential_mint) same) (ap (λ s. s.merchant) same)
  settle_from-IsSettled program params settled (some c) none lawful given named h =
      settle_fetched-IsSettled program params settled lawful h
  settle_from-IsSettled program params settled none merchant lawful given named h =
      settle_fetched-IsSettled program params settled lawful h

  pub derived_address :
      (program : AnchorProgram Key) (mint owner token_program : Key) (allow : Bool) (account : Key)
      → get_associated_token_address program mint owner allow token_program ≡ ok account
      → associated_token_address mint owner token_program ≡ account
  unfolding get_associated_token_address
  derived_address program mint owner token_program allow account h =
      let off = not allow && not (program.is_on_curve owner) in
      let (_, _, done) = bind-eq-ok (throw_if off (owner_off_curve owner)) _ h in ok-injective done

  -- What a subscription is built from.
  pub record IsSubscribed (program : AnchorProgram Key) (params : SubscribeParams Key)
      (result : SubscribeResult Key) : Type 0 where
    pub settled : SubscribedPlan Key
    pub billing_mint : Key
    pub mandate_index : ℤ
    pub is_settled : IsSettled program params settled
    pub settled_as : settle_plan program params ≡ ok settled
    pub minted : settle_billing_mint program settled.billing_mint ≡ ok billing_mint
    pub billed_in : result.billing_mint_address ≡ billing_mint
    pub token_config :
        result.token_config_address ≡ (Pda.token_config billing_mint program.program_id).0
    pub credential :
        associated_token_address settled.credential_mint params.subscriber token_2022_program_id
        ≡ result.credential_account_address
    pub mandate :
        result.mandate_address
        ≡ (Pda.mandate params.subscriber settled.merchant mandate_index program.program_id).0
    pub laid_out :
        program.instruction (
          subscribe_call params program.program_id settled billing_mint result.mandate_address
            result.credential_account_address)
        ≡ ok result.instruction

  pub build_subscribe-IsSubscribed :
      (program : AnchorProgram Key) (params : SubscribeParams Key) (result : SubscribeResult Key)
      → IsLawful platform
      → build_subscribe program params ≡ ok result
      → IsSubscribed program params result
  unfolding build_subscribe settle_plan
  build_subscribe-IsSubscribed program params result lawful h =
      let program_id = program.program_id in
      let (plan, settled, h1) = bind-eq-ok (settle_plan program params) _ h in
      let (billing_mint, minted, h2) =
        bind-eq-ok (settle_billing_mint program plan.billing_mint) _ h1 in
      let (counter, counted, h3) =
        bind-eq-ok
          (with_error anchor_failed
            (program.fetch_mandate_counter (Pda.merchant_state plan.merchant program_id).0))
          _ h2 in
      let mandate_index = or_else counter (pos 0) in
      let mandate = (Pda.mandate params.subscriber plan.merchant mandate_index program_id).0 in
      let (account, derived, h4) =
        bind-eq-ok
          (get_associated_token_address program plan.credential_mint params.subscriber false
            token_2022_program_id)
          _ h3 in
      let call = subscribe_call params program_id plan billing_mint mandate account in
      let (ix, laid_out, h5) =
        bind-eq-ok (with_error anchor_failed (program.instruction call)) _ h4 in
      let same = ok-injective h5 in
      record {
        settled = plan;
        billing_mint = billing_mint;
        mandate_index = mandate_index;
        is_settled =
            settle_from-IsSettled program params plan
              (either params.credential_mint params.credential_mint_address) params.merchant_address
              lawful refl refl settled;
        settled_as = settled;
        minted = minted;
        billed_in = sym (ap (λ r. r.billing_mint_address) same);
        token_config = sym (ap (λ r. r.token_config_address) same);
        credential =
            derived_address program plan.credential_mint params.subscriber token_2022_program_id
              false account derived
            ∙ ap (λ r. r.credential_account_address) same;
        mandate = sym (ap (λ r. r.mandate_address) same);
        laid_out =
            ap
              (λ r. program.instruction (
                subscribe_call params program_id plan billing_mint r.mandate_address
                  r.credential_account_address))
              (sym same)
            ∙ with_error-eq-ok anchor_failed (program.instruction call) laid_out
            ∙ ap (λ r. ok r.instruction) same;
      }
