-- ===== src/Instructions/Subscriptions/Wrapping.antt =====
-- The wrapped balance that a subscription is paid from: src/instructions/wrap.ts, unwrap.ts and
-- wrap-and-subscribe.ts. What @solana/spl-token derives for unwrap.ts is a parameter.
use vela_sdk.Prelude.{Bool, true, false, Option, none, some, List, [], ◌∷◌, ℤ}
use vela_sdk.Prelude.Result.{Result, ok, ◌>>=◌}
use vela_sdk.Accounts.Platform.{Platform}
use vela_sdk.Accounts.Pda
use vela_sdk.Accounts.Pda.{token_2022_program_id, associated_token_program_id}
use vela_sdk.Accounts.PullApproval.{or_else}
use vela_sdk.Instructions.{TransactionInstruction, meta, system_program_id, token_program_id}
use vela_sdk.Instructions.Anchor.{
  bn, AnchorCall, AnchorProgram, BuildError, anchor_failed, with_error,
  get_associated_token_address,
}
use vela_sdk.Instructions.Subscriptions.{build_subscribe}

pub record WrapParams (Key : Type 0) : Type 0 where
  pub subscriber : Key
  pub amount : ℤ
  pub spl_usdc_mint : Key
  pub wrapped_usdc_mint : Key
  pub wrapping_vault : Key
  pub destination_owner : Option Key
  pub destination_wrapped_account : Option Key

pub record UnwrapParams (Key : Type 0) : Type 0 where
  pub user : Key
  pub amount : ℤ
  pub spl_usdc_mint : Key
  pub wrapped_usdc_mint : Key
  pub wrapping_vault : Key

pub record WrapAndSubscribeParams (Key : Type 0) : Type 0 where
  pub subscriber : Key
  pub plan_address : Key
  pub merchant_address : Option Key
  pub spl_usdc_mint : Key
  pub wrapped_usdc_mint : Key
  pub wrapping_vault : Key
  pub amount : ℤ
  pub credential_mint_address : Option Key

pub record WrapAndSubscribeResult (Key : Type 0) : Type 0 where
  pub instructions : List (TransactionInstruction Key)
  pub mandate_address : Key
  pub credential_account_address : Key

module _ {Key : Type 0} ⦃platform : Platform Key⦄ where
  -- `createAssociatedTokenAccountIdempotentInstruction`
  unfoldable pub create_associated_token_account_idempotent :
      (payer associated_token owner mint token_program : Key) → TransactionInstruction Key
  create_associated_token_account_idempotent payer associated_token owner mint token_program =
      record {
        program_id = associated_token_program_id;
        keys =
            meta payer true true
            ∷ meta associated_token false true
            ∷ meta owner false false
            ∷ meta mint false false
            ∷ meta system_program_id false false
            ∷ meta token_program false false
            ∷ [];
        contents = 1 ∷ [];
      }

  unfoldable pub wrap_call :
      WrapParams Key
      → (program_id subscriber_usdc_account destination_owner destination_wrapped_account : Key)
      → AnchorCall Key
  wrap_call params program_id subscriber_usdc_account destination_owner
        destination_wrapped_account =
      record {
        method = "wrap";
        args = bn params.amount ∷ [];
        accounts =
            ("subscriber", params.subscriber)
            ∷ ("config", (Pda.config program_id).0)
            ∷ ("splUsdcMint", params.spl_usdc_mint)
            ∷ ("wrappedUsdcMint", params.wrapped_usdc_mint)
            ∷ ("subscriberUsdcAccount", subscriber_usdc_account)
            ∷ ("destinationWrappedAccount", destination_wrapped_account)
            ∷ ("destinationAuthority", destination_owner)
            ∷ ("wrappingVault", params.wrapping_vault)
            ∷ ("mintAuthority", (Pda.mint_authority program_id).0)
            ∷ ("splTokenProgram", token_program_id)
            ∷ ("token2022Program", token_2022_program_id)
            ∷ [];
      }

module _ {Key : Type 0} ⦃platform : Platform Key⦄ (program : AnchorProgram Key) where
  -- `destinationWrappedAccount ?? getAssociatedTokenAddress(…)`
  unfoldable pub wrap_destination : Option Key → (mint owner : Key) → Result (BuildError Key) Key
  wrap_destination (some account) mint owner = ok account
  wrap_destination none mint owner =
      get_associated_token_address program mint owner true token_2022_program_id

  unfoldable pub build_wrap : WrapParams Key → Result (BuildError Key) (TransactionInstruction Key)
  build_wrap params = do
    let destination_owner = or_else params.destination_owner params.subscriber
    subscriber_usdc_account ←
        get_associated_token_address program params.spl_usdc_mint params.subscriber false
          token_program_id
    destination ←
        wrap_destination params.destination_wrapped_account params.wrapped_usdc_mint
          destination_owner
    with_error anchor_failed (
        program.instruction (
          wrap_call params program.program_id subscriber_usdc_account destination_owner
            destination))

  -- `derive mint owner allowOwnerOffCurve program` is `getAssociatedTokenAddressSync`.
  unfoldable pub build_unwrap :
      (derive : (mint owner : Key) → Bool → Key → Result (BuildError Key) Key)
      → UnwrapParams Key
      → Result (BuildError Key) (TransactionInstruction Key)
  build_unwrap derive params = do
    user_wrapped_account ← derive params.wrapped_usdc_mint params.user false token_2022_program_id
    user_usdc_account ← derive params.spl_usdc_mint params.user false token_program_id
    with_error anchor_failed (
        program.instruction (record {
          method = "unwrapTokens";
          args = bn params.amount ∷ [];
          accounts =
              ("user", params.user)
              ∷ ("config", (Pda.config program.program_id).0)
              ∷ ("splUsdcMint", params.spl_usdc_mint)
              ∷ ("wrappedUsdcMint", params.wrapped_usdc_mint)
              ∷ ("userWrappedAccount", user_wrapped_account)
              ∷ ("userUsdcAccount", user_usdc_account)
              ∷ ("wrappingVault", params.wrapping_vault)
              ∷ ("mintAuthority", (Pda.mint_authority program.program_id).0)
              ∷ ("splTokenProgram", token_program_id)
              ∷ ("token2022Program", token_2022_program_id)
              ∷ [];
        }))

  unfoldable pub build_wrap_and_subscribe :
      WrapAndSubscribeParams Key → Result (BuildError Key) (WrapAndSubscribeResult Key)
  build_wrap_and_subscribe params = do
    subscribed ← build_subscribe program (record {
      subscriber = params.subscriber;
      plan_address = params.plan_address;
      merchant_address = params.merchant_address;
      billing_mint = some params.wrapped_usdc_mint;
      credential_mint = none;
      credential_mint_address = params.credential_mint_address;
    })
    wrapped_ata ←
        get_associated_token_address program params.wrapped_usdc_mint subscribed.mandate_address
          true token_2022_program_id
    wrap_ix ← build_wrap (record {
      subscriber = params.subscriber;
      amount = params.amount;
      spl_usdc_mint = params.spl_usdc_mint;
      wrapped_usdc_mint = params.wrapped_usdc_mint;
      wrapping_vault = params.wrapping_vault;
      destination_owner = some subscribed.mandate_address;
      destination_wrapped_account = some wrapped_ata;
    })
    ok (record {
      instructions =
          subscribed.instruction
          ∷ create_associated_token_account_idempotent params.subscriber wrapped_ata
              subscribed.mandate_address params.wrapped_usdc_mint token_2022_program_id
          ∷ wrap_ix
          ∷ [];
      mandate_address = subscribed.mandate_address;
      credential_account_address = subscribed.credential_account_address;
    })
