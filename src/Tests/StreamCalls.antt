-- ===== src/Tests/StreamCalls.antt =====
-- The chain holds a configuration at 1, the state of a merchant at 2 and a stream at 50: the
-- instructions on them.
use vela_sdk.Prelude.{
  ℕ, ◌≡◌, refl, Option, none, some, List, [], ◌∷◌, ◌++◌, pos, replicate, arith, ◌==◌, if◌then◌else◌,
}
use vela_sdk.Prelude.Result.{ok, err}
use vela_sdk.Errors.{write_out_of_range}
use vela_sdk.Bytes.{le_bytes, u64_le, i64_le, subarray, slice_equals, starts_with, read_u64_le}
use vela_sdk.Accounts.Pda
use vela_sdk.Accounts.Platform.{account_discriminator}
use vela_sdk.Accounts.StreamMandate.{
  StreamMandate, deserialize_stream_mandate, fetch_stream_mandate,
}
use vela_sdk.Accounts.StreamMandate.Layout.{
  stream_mandate_bytes, pending_bytes, deserialize_stream_mandate-bytes_2,
}
use vela_sdk.Instructions.{system_program_id}
use vela_sdk.Instructions.Idl.{
  number, optional, idl_execute_stream, idl_pause_stream, idl_cancel_stream, idl_update_stream_rate,
  idl_create_stream_mandate,
}
use vela_sdk.Instructions.Streams.{
  CreateStreamArgs, build_execute_stream, build_pause_stream, build_cancel_stream,
  build_update_stream_rate, build_create_stream_mandate, fetch_stream_mandate_counter,
}
use vela_sdk.Instructions.Streams.Config.{StoredConfig, stored_config_bytes, values_of}
use vela_sdk.Instructions.Streams.Program.{
  IsReadAs, execute_accounts_of, settle_accounts_of, build_execute_stream-IsReadAs,
  settling-IsReadAs,
}
use vela_sdk.Instructions.Streams.NewStream.{
  build_create_stream_mandate-unlimited, build_create_stream_mandate-IsReadAs,
}
use vela_sdk.Tests.Toy.{toy_platform, toy_platform-IsLawful}
use vela_sdk.Tests.Streams.{stream_2, rest}

abbrev stream : StreamMandate ℕ
stream = record stream_2 { address = 50 }

abbrev config : StoredConfig ℕ
config = record {
  admin = 20;
  cluster_pubkey = 21;
  cluster_type = 1;
  cluster_offset = pos 5;
  wrapped_usdc_mint = 4;
  wrapping_vault = 22;
  paused = 0;
  paused_at = pos 0;
  transfer_hook_program_id = 0;
  bump = 255;
  version = 1;
  mxe_program_id = 23;
}

abbrev stream_bytes : List ℕ
stream_bytes = stream_mandate_bytes stream (pending_bytes stream rest)

abbrev config_bytes : List ℕ
config_bytes = stored_config_bytes config []

abbrev merchant_bytes : List ℕ
merchant_bytes = replicate 89 0 ++ u64_le (pos 9)

abbrev chain : ℕ → Option (List ℕ)
chain key =
    if key == 1
    then some config_bytes
    else if key == 2
    then some merchant_bytes
    else if key == 50
    then some stream_bytes
    else none

read_back : deserialize_stream_mandate 50 stream_bytes ≡ ok stream
unfolding stream_mandate_bytes pending_bytes account_discriminator u64_le i64_le le_bytes
read_back =
    deserialize_stream_mandate-bytes_2 stream rest toy_platform-IsLawful
      (record {
        rate_per_second = (omega arith, omega arith);
        authorized_max_rate = (omega arith, omega arith);
        last_settled_ts = (omega arith, omega arith);
        total_streamed = (omega arith, omega arith);
        max_streamed = (omega arith, omega arith);
        paused_at = tt;
        min_settle_interval = omega arith;
        mandate_index = (omega arith, omega arith);
      })
      (record {
        rate = (omega arith, omega arith);
        max_rate = (omega arith, omega arith);
        effective_at = (omega arith, omega arith);
        nonce = refl;
      })
      refl (omega arith)

fetched : fetch_stream_mandate chain 50 ≡ ok stream
unfolding fetch_stream_mandate subarray slice_equals starts_with account_discriminator u64_le i64_le
    le_bytes stream_mandate_bytes pending_bytes
fetched = rw read_back refl

build_execute_stream-IsReadAs_example :
    IsReadAs
      (build_execute_stream chain 50 8 9)
      idl_execute_stream
      9
      (execute_accounts_of 50 8 9 stream (values_of config))
      []
unfolding Pda.config
build_execute_stream-IsReadAs_example =
    build_execute_stream-IsReadAs chain 50 8 9 stream config [] toy_platform-IsLawful fetched refl

settling-IsReadAs_example :
    IsReadAs
      (build_pause_stream chain 50 8 9)
      idl_pause_stream
      9
      (settle_accounts_of 50 8 9 stream (values_of config))
      []
    × IsReadAs
        (build_cancel_stream chain 50 8 9)
        idl_cancel_stream
        9
        (settle_accounts_of 50 8 9 stream (values_of config))
        []
    × IsReadAs
        (build_update_stream_rate chain 50 8 (some (pos 400)) none 9)
        idl_update_stream_rate
        9
        (settle_accounts_of 50 8 9 stream (values_of config))
        (optional (some (pos 400)) ∷ optional none ∷ [])
unfolding Pda.config
settling-IsReadAs_example =
    settling-IsReadAs chain 50 8 9 (some (pos 400)) none stream config [] toy_platform-IsLawful
      (omega arith, omega arith) tt fetched refl

abbrev unlimited : CreateStreamArgs ℕ
unlimited = record {
  subscriber = 2;
  merchant = 3;
  mint = 4;
  rate_per_second = pos 300;
  authorized_max_rate = pos 500;
  max_streamed = none;
  min_settle_interval = pos 60;
  program_id = 9;
}

abbrev limited : CreateStreamArgs ℕ
limited = record unlimited { max_streamed = some (pos 90_000) }

counted : fetch_stream_mandate_counter chain 3 9 ≡ ok (pos 9)
unfolding fetch_stream_mandate_counter Pda.merchant_state subarray slice_equals starts_with
    account_discriminator u64_le le_bytes read_u64_le
counted = refl

build_create_stream_mandate-unlimited_example :
    build_create_stream_mandate chain unlimited ≡ err (write_out_of_range 33 4 29)
build_create_stream_mandate-unlimited_example =
    build_create_stream_mandate-unlimited chain unlimited 60 (pos 9) toy_platform-IsLawful
      (record {
        rate_per_second = (omega arith, omega arith);
        authorized_max_rate = (omega arith, omega arith);
        min_settle_interval = refl;
        interval_fits = omega arith;
      })
      refl counted

build_create_stream_mandate-IsReadAs_example :
    IsReadAs
      (build_create_stream_mandate chain limited)
      idl_create_stream_mandate
      9
      (("subscriber", 2)
        ∷ ("merchant_state", 2)
        ∷ ("mandate", 4)
        ∷ ("mint", 4)
        ∷ ("token_config", 2)
        ∷ ("payer", 2)
        ∷ ("system_program", system_program_id)
        ∷ [])
      (number (pos 300) ∷ number (pos 500) ∷ optional (some (pos 90_000)) ∷ number (pos 60) ∷ [])
unfolding Pda.merchant_state Pda.stream Pda.token_config
build_create_stream_mandate-IsReadAs_example =
    build_create_stream_mandate-IsReadAs chain limited (pos 90_000) 60 (pos 9) toy_platform-IsLawful
      (record {
        rate_per_second = (omega arith, omega arith);
        authorized_max_rate = (omega arith, omega arith);
        min_settle_interval = refl;
        interval_fits = omega arith;
      })
      (omega arith, omega arith) refl counted
