-- ===== src/Instructions/Subscriptions/Funding.antt =====
-- The balance that `buildWrapAndSubscribeInstructions` wraps belongs to the mandate that it creates.
use Prim.Native.String.{String}
use text.Mathlib.Text.{◌==◌ as str_eq}
use vela_sdk.Prelude.{
  ◌≡◌, refl, sym, ap, subst, true, false, Option, none, some, List, [], ◌∷◌, if◌then◌else◌,
}
use vela_sdk.Prelude.Result.{ok, bind-eq-ok, ok-injective}
use vela_sdk.Accounts.Platform.{Platform, IsLawful}
use vela_sdk.Accounts.Pda.{token_2022_program_id, associated_token_address}
use vela_sdk.Instructions.{TransactionInstruction, token_program_id}
use vela_sdk.Instructions.Anchor.{
  bn, AnchorCall, AnchorProgram, anchor_failed, with_error-eq-ok, get_associated_token_address,
}
use vela_sdk.Instructions.Subscriptions.{SubscribeParams, SubscribeResult, build_subscribe}
use vela_sdk.Instructions.Subscriptions.Wrapping.{
  WrapAndSubscribeParams, WrapAndSubscribeResult, create_associated_token_account_idempotent,
  wrap_call, wrap_destination, build_wrap, build_wrap_and_subscribe,
}
use vela_sdk.Instructions.Subscriptions.Settled.{
  IsSubscribed, build_subscribe-IsSubscribed, derived_address,
}

-- The key that a call passes under a name.
abbrev pub passed : {Key : Type 0} → String → List (String × Key) → Option Key
passed name [] = none
passed name ((other, key) ∷ rest) = if str_eq other name then some key else passed name rest

module _ {Key : Type 0} ⦃platform : Platform Key⦄ where
  abbrev pub subscribe_params : WrapAndSubscribeParams Key → SubscribeParams Key
  subscribe_params params = record {
    subscriber = params.subscriber;
    plan_address = params.plan_address;
    merchant_address = params.merchant_address;
    billing_mint = some params.wrapped_usdc_mint;
    credential_mint = none;
    credential_mint_address = params.credential_mint_address;
  }

  -- The call that moves the amount from the subscriber's account into an account of the owner.
  pub record IsWrapInto (params : WrapAndSubscribeParams Key) (owner destination : Key)
      (call : AnchorCall Key) : Type 0 where
    pub method : call.method ≡ "wrap"
    pub amount : call.args ≡ bn params.amount ∷ []
    pub source :
        passed "subscriberUsdcAccount" call.accounts
        ≡ some (associated_token_address params.spl_usdc_mint params.subscriber token_program_id)
    pub authority : passed "destinationAuthority" call.accounts ≡ some owner
    pub account : passed "destinationWrappedAccount" call.accounts ≡ some destination
    pub mint : passed "wrappedUsdcMint" call.accounts ≡ some params.wrapped_usdc_mint

  pub record Funds (program : AnchorProgram Key) (params : WrapAndSubscribeParams Key)
      (result : WrapAndSubscribeResult Key) : Type 0 where
    pub subscribed : SubscribeResult Key
    pub wrap : AnchorCall Key
    pub wrap_instruction : TransactionInstruction Key
    pub is_subscribed : IsSubscribed program (subscribe_params params) subscribed
    pub mandate : result.mandate_address ≡ subscribed.mandate_address
    pub wraps :
        IsWrapInto params result.mandate_address
          (associated_token_address params.wrapped_usdc_mint result.mandate_address
            token_2022_program_id)
          wrap
    pub laid_out : program.instruction wrap ≡ ok wrap_instruction
    pub instructions :
        result.instructions
        ≡ subscribed.instruction
          ∷ create_associated_token_account_idempotent params.subscriber
              (associated_token_address params.wrapped_usdc_mint result.mandate_address
                token_2022_program_id)
              result.mandate_address
              params.wrapped_usdc_mint
              token_2022_program_id
          ∷ wrap_instruction
          ∷ []

  wrap_into :
      (program : AnchorProgram Key) (params : WrapAndSubscribeParams Key) (owner account : Key)
      (ix : TransactionInstruction Key)
      → build_wrap program (record {
        subscriber = params.subscriber;
        amount = params.amount;
        spl_usdc_mint = params.spl_usdc_mint;
        wrapped_usdc_mint = params.wrapped_usdc_mint;
        wrapping_vault = params.wrapping_vault;
        destination_owner = some owner;
        destination_wrapped_account = some account;
      })
        ≡ ok ix
      → (call : AnchorCall Key) × IsWrapInto params owner account call
        × (program.instruction call ≡ ok ix)
  unfolding build_wrap wrap_call wrap_destination
  wrap_into program params owner account ix h =
      let (source, derived, h1) =
        bind-eq-ok
          (get_associated_token_address program params.spl_usdc_mint params.subscriber false
            token_program_id)
          _ h in
      let from =
        derived_address program params.spl_usdc_mint params.subscriber token_program_id false source
          derived in
      (
        _,
        record {
          method = refl;
          amount = refl;
          source = ap some (sym from);
          authority = refl;
          account = refl;
          mint = refl;
        },
        with_error-eq-ok anchor_failed (program.instruction _) h1,
      )

  pub build_wrap_and_subscribe-Funds :
      (program : AnchorProgram Key) (params : WrapAndSubscribeParams Key)
      (result : WrapAndSubscribeResult Key)
      → IsLawful platform
      → build_wrap_and_subscribe program params ≡ ok result
      → Funds program params result
  unfolding build_wrap_and_subscribe
  build_wrap_and_subscribe-Funds program params result lawful h =
      let (subscribed, built, h1) =
        bind-eq-ok (build_subscribe program (subscribe_params params)) _ h in
      let (account, derived, h2) =
        bind-eq-ok
          (get_associated_token_address program params.wrapped_usdc_mint subscribed.mandate_address
            true token_2022_program_id)
          _ h1 in
      let (ix, wrapped, h3) = bind-eq-ok (build_wrap program _) _ h2 in
      let (call, into, laid_out) =
        wrap_into program params subscribed.mandate_address account ix wrapped in
      let at =
        derived_address program params.wrapped_usdc_mint subscribed.mandate_address
          token_2022_program_id true account derived in
      subst (λ r. Funds program params r) (ok-injective h3)
        (record {
          subscribed = subscribed;
          wrap = call;
          wrap_instruction = ix;
          is_subscribed =
              build_subscribe-IsSubscribed program (subscribe_params params) subscribed lawful
                built;
          mandate = refl;
          wraps = subst (λ a. IsWrapInto params subscribed.mandate_address a call) (sym at) into;
          laid_out = laid_out;
          instructions =
              ap
                (λ a.
                  subscribed.instruction
                  ∷ create_associated_token_account_idempotent params.subscriber a
                      subscribed.mandate_address params.wrapped_usdc_mint token_2022_program_id
                  ∷ ix
                  ∷ [])
                (sym at);
        })
