-- ===== src/Instructions/PlanChanges.antt =====
-- The instructions that change the plan of a mandate: src/instructions/schedule-plan-change.ts,
-- cancel-plan-change.ts and update-mandate-plan.ts, and how the program reads them. Each also returns
-- the address of the mandate.
use Prim.Native.String.{String}
use vela_sdk.Prelude.{ℕ, ◌≡◌, refl, sym, true, false, Option, some, List, [], ◌∷◌, append-nil}
use vela_sdk.Prelude.Result.{Result, ok, ◌>>=◌}
use vela_sdk.Accounts.Platform.{Platform, IsLawful, instruction_discriminator}
use vela_sdk.Accounts.Pda
use vela_sdk.Accounts.Pda.{token_2022_program_id, associated_token_address}
use vela_sdk.Accounts.PullApproval.{or_else}
use vela_sdk.Accounts.VelaMandate.{VelaMandate, fetch_mandate}
use vela_sdk.Instructions.{
  AccountMeta, TransactionInstruction, meta, system_program_id, transfer_hook_program_id,
}
use vela_sdk.Instructions.Anchor.{
  AnchorProgram, AnchorProtocolConfig, BuildError, read_failed, anchor_failed, with_error,
}
use vela_sdk.Instructions.Idl.{
  IdlInstruction, interpret, decode_args, idl_schedule_plan_change, idl_cancel_plan_change,
  idl_update_mandate_plan,
}
use vela_sdk.Instructions.Idl.Binding.{interpret_lem}

module _ {Key : Type 0} ⦃platform : Platform Key⦄ where
  unfoldable pub build_schedule_plan_change :
      (mandate authority new_plan program_id : Key) → TransactionInstruction Key × Key
  build_schedule_plan_change mandate authority new_plan program_id = (
    record {
      program_id = program_id;
      keys =
          meta authority true true
          ∷ meta new_plan false false
          ∷ meta mandate false true
          ∷ meta (Pda.config program_id).0 false false
          ∷ [];
      contents = instruction_discriminator platform "schedule_plan_change";
    },
    mandate,
  )

  unfoldable pub build_cancel_plan_change :
      (mandate authority program_id : Key) → TransactionInstruction Key × Key
  build_cancel_plan_change mandate authority program_id = (
    record {
      program_id = program_id;
      keys =
          meta authority true true
          ∷ meta mandate false true
          ∷ meta (Pda.config program_id).0 false false
          ∷ [];
      contents = instruction_discriminator platform "cancel_plan_change";
    },
    mandate,
  )

  -- The accounts of an immediate change, which settles the mandate in the protocol's wrapped mint.
  unfoldable pub update_plan_keys :
      (mandate authority new_plan program_id : Key)
      → VelaMandate Key
      → (mint vault hook : Key) → List (AccountMeta Key)
  update_plan_keys mandate authority new_plan program_id m mint vault hook =
      meta authority true true
      ∷ meta new_plan false false
      ∷ meta mandate false true
      ∷ meta (associated_token_address mint mandate token_2022_program_id) false true
      ∷ meta (associated_token_address mint m.merchant token_2022_program_id) false true
      ∷ meta mint false true
      ∷ meta (Pda.approval mandate program_id).0 false true
      ∷ meta (Pda.token_config mint program_id).0 false false
      ∷ meta (Pda.config program_id).0 false false
      ∷ meta vault false true
      ∷ meta hook false false
      ∷ meta (Pda.extra_account_metas mint hook).0 false false
      ∷ meta program_id false false
      ∷ meta token_2022_program_id false false
      ∷ meta system_program_id false false
      ∷ []

  unfoldable pub build_update_mandate_plan :
      AnchorProgram Key
      → (Key → Option (List ℕ))
      → (mandate authority new_plan : Key)
      → Result (BuildError Key) (TransactionInstruction Key × Key)
  build_update_mandate_plan program get_account_info mandate authority new_plan = do
    m ← with_error read_failed (fetch_mandate get_account_info mandate)
    raw ← with_error anchor_failed (program.fetch_protocol_config (Pda.config program.program_id).0)
    let hook = or_else raw.transfer_hook_program_id transfer_hook_program_id
    ok (
      record {
        program_id = program.program_id;
        keys =
            update_plan_keys mandate authority new_plan program.program_id m raw.wrapped_usdc_mint
              raw.wrapping_vault hook;
        contents = instruction_discriminator platform "update_mandate_plan";
      },
      mandate,
    )

  abbrev IsReadAs :
      TransactionInstruction Key
      → IdlInstruction
      → (program_id : Key) → List (String × Key)
      → Type 0
  IsReadAs ix idl program_id accounts =
      (ix.program_id ≡ program_id) × (interpret idl ix ≡ some (accounts, []))

  -- A scheduled change is read with the authority, the new plan and the mandate, and the withdrawal
  -- of a change with the authority and the mandate.
  pub plan_change-IsReadAs :
      (mandate authority new_plan program_id : Key)
      → IsLawful platform
      → IsReadAs
          (build_schedule_plan_change mandate authority new_plan program_id).0
          idl_schedule_plan_change
          program_id
          (("authority", authority)
            ∷ ("new_plan", new_plan)
            ∷ ("mandate", mandate)
            ∷ ("protocol_config", (Pda.config program_id).0)
            ∷ [])
        × IsReadAs
            (build_cancel_plan_change mandate authority program_id).0
            idl_cancel_plan_change
            program_id
            (("authority", authority)
              ∷ ("mandate", mandate)
              ∷ ("protocol_config", (Pda.config program_id).0)
              ∷ [])
  unfolding build_schedule_plan_change build_cancel_plan_change decode_args
  plan_change-IsReadAs mandate authority new_plan program_id lawful = (
    (refl, interpret_lem idl_schedule_plan_change _ [] [] lawful (sym (append-nil _)) refl refl),
    (refl, interpret_lem idl_cancel_plan_change _ [] [] lawful (sym (append-nil _)) refl refl),
  )

  -- An immediate change of a mandate that reads is read with the mandate's wrapped account as the
  -- source, that of its merchant as the destination, and the configured mint, vault and hook, or the
  -- default hook where none is configured.
  pub build_update_mandate_plan-IsReadAs :
      (program : AnchorProgram Key) (get_account_info : Key → Option (List ℕ))
      (mandate authority new_plan : Key) (m : VelaMandate Key) (config : AnchorProtocolConfig Key)
      → IsLawful platform
      → fetch_mandate get_account_info mandate ≡ ok m
      → program.fetch_protocol_config (Pda.config program.program_id).0 ≡ ok config
      → (ix : TransactionInstruction Key) × (build_update_mandate_plan program get_account_info
            mandate authority new_plan
          ≡ ok (ix, mandate))
        × IsReadAs ix idl_update_mandate_plan program.program_id (
            let mint = config.wrapped_usdc_mint in
            let program_id = program.program_id in
            let hook = or_else config.transfer_hook_program_id transfer_hook_program_id in
            ("authority", authority)
            ∷ ("new_plan", new_plan)
            ∷ ("mandate", mandate)
            ∷ (
              "subscriber_wrapped_account",
              associated_token_address mint mandate token_2022_program_id,
            )
            ∷ (
              "merchant_wrapped_account",
              associated_token_address mint m.merchant token_2022_program_id,
            )
            ∷ ("wrapped_usdc_mint", mint)
            ∷ ("pull_approval", (Pda.approval mandate program_id).0)
            ∷ ("token_config", (Pda.token_config mint program_id).0)
            ∷ ("protocol_config", (Pda.config program_id).0)
            ∷ ("wrapping_vault", config.wrapping_vault)
            ∷ ("hook_program", hook)
            ∷ ("extra_account_meta_list", (Pda.extra_account_metas mint hook).0)
            ∷ ("protocol_program", program_id)
            ∷ ("token_2022_program", token_2022_program_id)
            ∷ ("system_program", system_program_id)
            ∷ [])
  unfolding build_update_mandate_plan update_plan_keys decode_args with_error
  build_update_mandate_plan-IsReadAs program get_account_info mandate authority new_plan m config
        lawful fetched stored =
      let ix : TransactionInstruction Key = record {
        program_id = program.program_id;
        keys =
            update_plan_keys mandate authority new_plan program.program_id m
              config.wrapped_usdc_mint config.wrapping_vault
              (or_else config.transfer_hook_program_id transfer_hook_program_id);
        contents = instruction_discriminator platform "update_mandate_plan";
      } in
      (
        ix,
        rw (fetched, with_error) rw (stored, with_error) refl,
        (
          refl,
          interpret_lem idl_update_mandate_plan ix [] [] lawful (sym (append-nil _)) refl refl,
        ),
      )
