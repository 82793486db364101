-- ===== src/Instructions/Streams.antt =====
-- The instructions on streams: src/instructions/create-stream.ts, execute-stream.ts, pause-stream.ts,
-- cancel-stream.ts, resume-stream.ts and update-stream-rate.ts. `get_account_info` is the RPC call,
-- and one instruction is built over one state of the chain.
pub mod Config
pub mod Program
pub mod Creation
pub mod NewStream
use vela_sdk.Prelude.{
  ℕ, ◌+◌, true, false, Option, none, some, List, [], ◌∷◌, ◌++◌, ℤ, pos, length, ltb, replicate,
  if◌then◌else◌,
}
use vela_sdk.Prelude.Result.{ok, err, ◌>>=◌, ◌>>◌, throw_if}
use vela_sdk.Errors.{AccountKind}
use vela_sdk.Errors.{Checked, truncated, account_not_found}
use vela_sdk.Bytes.{read_u64_le, option_u64_le, concat_bytes}
use vela_sdk.Accounts.Platform.{Platform, read_key, instruction_discriminator}
use vela_sdk.Accounts.Pda
use vela_sdk.Accounts.Pda.{token_2022_program_id, associated_token_address}
use vela_sdk.Accounts.StreamMandate.{StreamMandate, fetch_stream_mandate}
use vela_sdk.Instructions.{
  AccountMeta, TransactionInstruction, meta, system_program_id, transfer_hook_program_id,
  write_u64_le, write_u32_le,
}

-- The arguments of `buildCreateStreamMandateInstruction` but for the connection.
pub record CreateStreamArgs (Key : Type 0) : Type 0 where
  pub subscriber : Key
  pub merchant : Key
  pub mint : Key
  pub rate_per_second : ℤ
  pub authorized_max_rate : ℤ
  pub max_streamed : Option ℤ
  pub min_settle_interval : ℤ
  pub program_id : Key

pub record ProtocolConfigValues (Key : Type 0) : Type 0 where
  pub wrapping_vault : Key
  pub hook_program_id : Key

-- `encodeOptionU64` of create-stream.ts.
unfoldable pub encode_option_u64 : Option ℤ → Checked (List ℕ)
encode_option_u64 none = ok (0 ∷ [])
encode_option_u64 (some value) = write_u64_le (1 ∷ replicate 8 0) value 1

module _ {Key : Type 0} ⦃platform : Platform Key⦄ where
  -- The bytes of the instruction: a buffer of the parts' lengths, then the numbers at fixed places.
  unfoldable pub create_stream_contents : CreateStreamArgs Key → Checked (List ℕ)
  create_stream_contents args = do
    limit ← encode_option_u64 args.max_streamed
    let buffer =
        instruction_discriminator platform "create_stream_mandate"
        ++ (replicate 8 0 ++ (replicate 8 0 ++ (limit ++ replicate 4 0)))
    buffer ← write_u64_le buffer args.rate_per_second 8
    buffer ← write_u64_le buffer args.authorized_max_rate 16
    write_u32_le buffer args.min_settle_interval 33

  -- The end of `fetchProtocolConfigValues`.
  unfoldable pub config_values : List ℕ → ProtocolConfigValues Key
  config_values contents =
      let hook_program_id = read_key contents 154 in
      record {
        wrapping_vault = read_key contents 113;
        hook_program_id =
            if platform.equals hook_program_id platform.default_key
            then transfer_hook_program_id
            else hook_program_id;
      }

  unfoldable pub execute_stream_keys :
      (mandate payer program_id : Key)
      → StreamMandate Key
      → ProtocolConfigValues Key
      → List (AccountMeta Key)
  execute_stream_keys mandate payer program_id m config =
      meta payer true true
      ∷ meta m.subscriber false false
      ∷ meta m.merchant false false
      ∷ meta (Pda.keeper_config program_id).0 false false
      ∷ meta mandate false true
      ∷ meta (associated_token_address m.mint mandate token_2022_program_id) false true
      ∷ meta (associated_token_address m.mint m.merchant token_2022_program_id) false true
      ∷ meta m.mint false true
      ∷ meta (Pda.approval mandate program_id).0 false true
      ∷ meta (Pda.token_config m.mint program_id).0 false false
      ∷ meta (Pda.config program_id).0 false false
      ∷ meta config.wrapping_vault false true
      ∷ meta config.hook_program_id false false
      ∷ meta (Pda.extra_account_metas m.mint config.hook_program_id).0 false false
      ∷ meta program_id false false
      ∷ meta token_2022_program_id false false
      ∷ meta system_program_id false false
      ∷ []

  unfoldable pub pause_stream_keys :
      (mandate authority program_id : Key)
      → StreamMandate Key
      → ProtocolConfigValues Key
      → List (AccountMeta Key)
  pause_stream_keys mandate authority program_id m config =
      meta authority true true
      ∷ meta mandate false true
      ∷ meta (associated_token_address m.mint mandate token_2022_program_id) false true
      ∷ meta (associated_token_address m.mint m.merchant token_2022_program_id) false true
      ∷ meta m.mint false true
      ∷ meta (Pda.approval mandate program_id).0 false true
      ∷ meta (Pda.token_config m.mint program_id).0 false false
      ∷ meta (Pda.config program_id).0 false false
      ∷ meta config.wrapping_vault false true
      ∷ meta config.hook_program_id false false
      ∷ meta (Pda.extra_account_metas m.mint config.hook_program_id).0 false false
      ∷ meta program_id false false
      ∷ meta token_2022_program_id false false
      ∷ meta system_program_id false false
      ∷ []

module _ {Key : Type 0} ⦃platform : Platform Key⦄ (get_account_info : Key → Option (List ℕ)) where
  unfoldable pub fetch_stream_mandate_counter : Key → Key → Checked ℤ
  fetch_stream_mandate_counter merchant program_id =
      let address = (Pda.merchant_state merchant program_id).0 in
      elim (get_account_info address) [
        | none ↦ err (account_not_found AccountKind.merchant_state (platform.to_base58 address))
        | some contents ↦ do
          throw_if (ltb (length contents) 97)
              (truncated AccountKind.merchant_state (platform.to_base58 address))
          read_u64_le contents 89
      ]

  unfoldable pub build_create_stream_mandate :
      CreateStreamArgs Key → Checked (TransactionInstruction Key)
  build_create_stream_mandate args = do
    let merchant_state = (Pda.merchant_state args.merchant args.program_id).0
    mandate_index ← fetch_stream_mandate_counter args.merchant args.program_id
    let mandate = (Pda.stream args.subscriber args.merchant mandate_index args.program_id).0
    let token_config = (Pda.token_config args.mint args.program_id).0
    contents ← create_stream_contents args
    ok (record {
      program_id = args.program_id;
      keys =
          meta args.subscriber true true
          ∷ meta merchant_state false true
          ∷ meta mandate false true
          ∷ meta args.mint false false
          ∷ meta token_config false false
          ∷ meta args.subscriber true false
          ∷ meta system_program_id false false
          ∷ [];
      contents = contents;
    })

  -- `fetchProtocolConfigValues` of execute-stream.ts tests the length, that of pause-stream.ts
  -- does not.
  unfoldable pub fetch_protocol_config_values_checked : Key → Checked (ProtocolConfigValues Key)
  fetch_protocol_config_values_checked program_id =
      let address = (Pda.config program_id).0 in
      elim (get_account_info address) [
        | none ↦ err (account_not_found AccountKind.protocol_config (platform.to_base58 address))
        | some contents ↦ do
          throw_if (ltb (length contents) 154)
              (truncated AccountKind.protocol_config (platform.to_base58 address))
          ok (config_values contents)
      ]

  unfoldable pub fetch_protocol_config_values : Key → Checked (ProtocolConfigValues Key)
  fetch_protocol_config_values program_id =
      let address = (Pda.config program_id).0 in
      elim (get_account_info address) [
        | none ↦ err (account_not_found AccountKind.protocol_config (platform.to_base58 address))
        | some contents ↦ ok (config_values contents)
      ]

  unfoldable pub build_execute_stream :
      (mandate payer program_id : Key) → Checked (TransactionInstruction Key)
  build_execute_stream mandate payer program_id = do
    m ← fetch_stream_mandate get_account_info mandate
    config ← fetch_protocol_config_values_checked program_id
    ok (record {
      program_id = program_id;
      keys = execute_stream_keys mandate payer program_id m config;
      contents = instruction_discriminator platform "execute_stream";
    })

  unfoldable pub build_pause_stream :
      (mandate authority program_id : Key) → Checked (TransactionInstruction Key)
  build_pause_stream mandate authority program_id = do
    m ← fetch_stream_mandate get_account_info mandate
    config ← fetch_protocol_config_values program_id
    ok (record {
      program_id = program_id;
      keys = pause_stream_keys mandate authority program_id m config;
      contents = instruction_discriminator platform "pause_stream";
    })

  -- The mandate is read, and the accounts are those of a pause.
  unfoldable pub build_cancel_stream :
      (mandate authority program_id : Key) → Checked (TransactionInstruction Key)
  build_cancel_stream mandate authority program_id = do
    m ← fetch_stream_mandate get_account_info mandate
    base ← build_pause_stream mandate authority program_id
    ok (record {
      program_id = program_id;
      keys = base.keys;
      contents = instruction_discriminator platform "cancel_stream";
    })

  unfoldable pub build_resume_stream :
      (mandate authority program_id : Key) → Checked (TransactionInstruction Key)
  build_resume_stream mandate authority program_id = do
    m ← fetch_stream_mandate get_account_info mandate
    ok (record {
      program_id = program_id;
      keys = meta authority true true ∷ meta mandate false true ∷ [];
      contents = instruction_discriminator platform "resume_stream";
    })

  unfoldable pub build_update_stream_rate :
      (mandate authority : Key)
      → (new_rate new_authorized_max_rate : Option ℤ) → (program_id : Key)
      → Checked (TransactionInstruction Key)
  build_update_stream_rate mandate authority new_rate new_authorized_max_rate program_id = do
    m ← fetch_stream_mandate get_account_info mandate
    base ← build_pause_stream mandate authority program_id
    ok (record {
      program_id = program_id;
      keys = base.keys;
      contents = concat_bytes (
          some (instruction_discriminator platform "update_stream_rate")
          ∷ some (option_u64_le new_rate)
          ∷ some (option_u64_le new_authorized_max_rate)
          ∷ []);
    })
