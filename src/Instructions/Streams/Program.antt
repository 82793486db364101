-- ===== src/Instructions/Streams/Program.antt =====
-- How the program takes the instructions on a stream apart: the accounts under their names, and the
-- arguments.
use Prim.Native.String.{String}
use vela_sdk.Prelude.{
  ℕ, ◌≡◌, refl, sym, Option, true, false, some, List, [], ◌∷◌, ◌++◌, append-nil, ℤ,
}
use vela_sdk.Prelude.Result.{ok}
use vela_sdk.Errors.{Checked}
use vela_sdk.Bytes.{option_u64_le, concat_bytes}
use vela_sdk.Bytes.Integers.{IsU64}
use vela_sdk.Accounts.Platform.{Platform, IsLawful, instruction_discriminator}
use vela_sdk.Accounts.Pda
use vela_sdk.Accounts.Pda.{token_2022_program_id, associated_token_address}
use vela_sdk.Accounts.StreamMandate.{StreamMandate, fetch_stream_mandate}
use vela_sdk.Accounts.StreamMandate.Layout.{IsOptional}
use vela_sdk.Instructions.{TransactionInstruction, meta, system_program_id}
use vela_sdk.Instructions.Idl.{
  IdlInstruction, Value, option_u64, optional, interpret, idl_execute_stream, idl_pause_stream,
  idl_cancel_stream, idl_resume_stream, idl_update_stream_rate, decode_args,
}
use vela_sdk.Instructions.Idl.Binding.{interpret_lem}
use vela_sdk.Instructions.Idl.Arguments.{decode_option_u64-option_u64_le, decode_args-cons}
use vela_sdk.Instructions.Streams.{
  ProtocolConfigValues, execute_stream_keys, pause_stream_keys, build_execute_stream,
  build_pause_stream, build_cancel_stream, build_resume_stream, build_update_stream_rate,
}
use vela_sdk.Instructions.Streams.Config.{
  StoredConfig, stored_config_bytes, values_of, fetch_protocol_config_values-ok,
  fetch_protocol_config_values_checked-ok,
}

module _ {Key : Type 0} ⦃platform : Platform Key⦄ where
  -- The builder returns an instruction for the program, which reads it so.
  abbrev pub IsReadAs :
      Checked (TransactionInstruction Key)
      → IdlInstruction
      → (program_id : Key) → List (String × Key)
      → List Value
      → Type 0
  IsReadAs built idl program_id accounts values =
      (ix : TransactionInstruction Key) × (built ≡ ok ix)
      × (ix.program_id ≡ program_id)
      × (interpret idl ix ≡ some (accounts, values))

  -- The accounts of a settlement by their names.
  abbrev pub settle_accounts_of :
      (mandate authority program_id : Key)
      → StreamMandate Key
      → ProtocolConfigValues Key
      → List (String × Key)
  settle_accounts_of mandate authority program_id m config =
      ("authority", authority)
      ∷ ("mandate", mandate)
      ∷ (
        "subscriber_wrapped_account",
        associated_token_address m.mint mandate token_2022_program_id,
      )
      ∷ (
        "merchant_wrapped_account",
        associated_token_address m.mint m.merchant token_2022_program_id,
      )
      ∷ ("wrapped_usdc_mint", m.mint)
      ∷ ("pull_approval", (Pda.approval mandate program_id).0)
      ∷ ("token_config", (Pda.token_config m.mint program_id).0)
      ∷ ("protocol_config", (Pda.config program_id).0)
      ∷ ("wrapping_vault", config.wrapping_vault)
      ∷ ("hook_program", config.hook_program_id)
      ∷ ("extra_account_meta_list", (Pda.extra_account_metas m.mint config.hook_program_id).0)
      ∷ ("protocol_program", program_id)
      ∷ ("token_2022_program", token_2022_program_id)
      ∷ ("system_program", system_program_id)
      ∷ []

  abbrev pub execute_accounts_of :
      (mandate payer program_id : Key)
      → StreamMandate Key
      → ProtocolConfigValues Key
      → List (String × Key)
  execute_accounts_of mandate payer program_id m config =
      ("payer", payer)
      ∷ ("subscriber", m.subscriber)
      ∷ ("merchant", m.merchant)
      ∷ ("keeper_config", (Pda.keeper_config program_id).0)
      ∷ ("stream_mandate", mandate)
      ∷ (
        "subscriber_wrapped_account",
        associated_token_address m.mint mandate token_2022_program_id,
      )
      ∷ (
        "merchant_wrapped_account",
        associated_token_address m.mint m.merchant token_2022_program_id,
      )
      ∷ ("wrapped_usdc_mint", m.mint)
      ∷ ("pull_approval", (Pda.approval mandate program_id).0)
      ∷ ("token_config", (Pda.token_config m.mint program_id).0)
      ∷ ("protocol_config", (Pda.config program_id).0)
      ∷ ("wrapping_vault", config.wrapping_vault)
      ∷ ("hook_program", config.hook_program_id)
      ∷ ("extra_account_meta_list", (Pda.extra_account_metas m.mint config.hook_program_id).0)
      ∷ ("protocol_program", program_id)
      ∷ ("token_2022_program", token_2022_program_id)
      ∷ ("system_program", system_program_id)
      ∷ []

module _ {Key : Type 0} ⦃platform : Platform Key⦄ (get_account_info : Key → Option (List ℕ)) where
  -- When the mandate reads and the configuration is as the program stores it, an execution is read
  -- with the accounts of the mandate, the stored vault and the stored hook.
  pub build_execute_stream-IsReadAs :
      (mandate payer program_id : Key) (m : StreamMandate Key) (c : StoredConfig Key)
      (rest : List ℕ)
      → IsLawful platform
      → fetch_stream_mandate get_account_info mandate ≡ ok m
      → get_account_info (Pda.config program_id).0 ≡ some (stored_config_bytes c rest)
      → IsReadAs
          (build_execute_stream get_account_info mandate payer program_id)
          idl_execute_stream
          program_id
          (execute_accounts_of mandate payer program_id m (values_of c))
          []
  unfolding build_execute_stream execute_stream_keys decode_args
  build_execute_stream-IsReadAs mandate payer program_id m c rest lawful fetched stored =
      let ix : TransactionInstruction Key = record {
        program_id = program_id;
        keys = execute_stream_keys mandate payer program_id m (values_of c);
        contents = instruction_discriminator platform "execute_stream";
      } in
      (
        ix,
        rw fetched rw
            (fetch_protocol_config_values_checked-ok get_account_info program_id c rest lawful
              stored)
            refl,
        refl,
        interpret_lem idl_execute_stream ix [] [] lawful (sym (append-nil _)) refl refl,
      )

  pause_ix :
      (mandate authority program_id : Key)
      → StreamMandate Key
      → StoredConfig Key
      → List ℕ
      → TransactionInstruction Key
  pause_ix mandate authority program_id m c contents = record {
    program_id = program_id;
    keys = pause_stream_keys mandate authority program_id m (values_of c);
    contents = contents;
  }

  build_pause_stream-ok :
      (mandate authority program_id : Key) (m : StreamMandate Key) (c : StoredConfig Key)
      (rest : List ℕ)
      → IsLawful platform
      → fetch_stream_mandate get_account_info mandate ≡ ok m
      → get_account_info (Pda.config program_id).0 ≡ some (stored_config_bytes c rest)
      → build_pause_stream get_account_info mandate authority program_id
        ≡ ok (
            pause_ix mandate authority program_id m c
              (instruction_discriminator platform "pause_stream"))
  unfolding build_pause_stream pause_ix
  build_pause_stream-ok mandate authority program_id m c rest lawful fetched stored =
      rw fetched rw
        (fetch_protocol_config_values-ok get_account_info program_id c rest lawful stored) refl

  -- Pausing, cancelling and changing the rate settle the stream over the same accounts, those of the
  -- mandate with the stored vault and the stored hook, and a change of the rate is read with the two
  -- values that were given.
  pub settling-IsReadAs :
      (mandate authority program_id : Key) (new_rate new_authorized_max_rate : Option ℤ)
      (m : StreamMandate Key) (c : StoredConfig Key) (rest : List ℕ)
      → IsLawful platform
      → IsOptional IsU64 new_rate
      → IsOptional IsU64 new_authorized_max_rate
      → fetch_stream_mandate get_account_info mandate ≡ ok m
      → get_account_info (Pda.config program_id).0 ≡ some (stored_config_bytes c rest)
      → IsReadAs
          (build_pause_stream get_account_info mandate authority program_id)
          idl_pause_stream
          program_id
          (settle_accounts_of mandate authority program_id m (values_of c))
          []
        × IsReadAs
            (build_cancel_stream get_account_info mandate authority program_id)
            idl_cancel_stream
            program_id
            (settle_accounts_of mandate authority program_id m (values_of c))
            []
        × IsReadAs
            (build_update_stream_rate get_account_info mandate authority new_rate
              new_authorized_max_rate program_id)
            idl_update_stream_rate
            program_id
            (settle_accounts_of mandate authority program_id m (values_of c))
            (optional new_rate ∷ optional new_authorized_max_rate ∷ [])
  unfolding build_cancel_stream build_update_stream_rate pause_ix pause_stream_keys decode_args
      concat_bytes
  settling-IsReadAs mandate authority program_id new_rate new_max m c rest lawful h k fetched
        stored =
      let paused =
        build_pause_stream-ok mandate authority program_id m c rest lawful fetched stored in
      let ix = pause_ix mandate authority program_id m c in
      let pause = ix (instruction_discriminator platform "pause_stream") in
      let cancel = ix (instruction_discriminator platform "cancel_stream") in
      let args = option_u64_le new_rate ++ (option_u64_le new_max ++ []) in
      let update = ix (instruction_discriminator platform "update_stream_rate" ++ args) in
      let decoded : decode_args idl_update_stream_rate.args args
          ≡ some (optional new_rate ∷ optional new_max ∷ []) =
        decode_args-cons option_u64 (option_u64 ∷ []) args _ _ _
          (decode_option_u64-option_u64_le new_rate (option_u64_le new_max ++ []) h)
          (decode_args-cons option_u64 [] _ [] _ [] (decode_option_u64-option_u64_le new_max [] k)
            refl) in
      (
        (
          pause,
          paused,
          refl,
          interpret_lem idl_pause_stream pause [] [] lawful (sym (append-nil _)) refl refl,
        ),
        (
          cancel,
          rw fetched rw paused refl,
          refl,
          interpret_lem idl_cancel_stream cancel [] [] lawful (sym (append-nil _)) refl refl,
        ),
        (
          update,
          rw fetched rw paused refl,
          refl,
          interpret_lem idl_update_stream_rate update args _ lawful refl refl decoded,
        ),
      )

  -- A resumption names the authority and a stream mandate that reads.
  pub build_resume_stream-IsReadAs :
      (mandate authority program_id : Key) (m : StreamMandate Key)
      → IsLawful platform
      → fetch_stream_mandate get_account_info mandate ≡ ok m
      → IsReadAs
          (build_resume_stream get_account_info mandate authority program_id)
          idl_resume_stream
          program_id
          (("authority", authority) ∷ ("mandate", mandate) ∷ [])
          []
  unfolding build_resume_stream decode_args
  build_resume_stream-IsReadAs mandate authority program_id m lawful fetched =
      let ix : TransactionInstruction Key = record {
        program_id = program_id;
        keys = meta authority true true ∷ meta mandate false true ∷ [];
        contents = instruction_discriminator platform "resume_stream";
      } in
      (
        ix,
        rw fetched refl,
        refl,
        interpret_lem idl_resume_stream ix [] [] lawful (sym (append-nil _)) refl refl,
      )
