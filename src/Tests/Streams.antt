-- ===== src/Tests/Streams.antt =====
-- Stream mandates of both versions, written and read back.
use vela_sdk.Prelude.{ℕ, ◌≡◌, refl, none, some, List, [], pos, negsuc, replicate, arith}
use vela_sdk.Prelude.Result.{ok}
use vela_sdk.Accounts.StreamMandate.{StreamMandate, paused, deserialize_stream_mandate}
use vela_sdk.Accounts.StreamMandate.Layout.{
  stream_mandate_bytes, pending_bytes, deserialize_stream_mandate-bytes_2,
}
use vela_sdk.Bytes.{le_bytes, u64_le, i64_le}
use vela_sdk.Accounts.Platform.{account_discriminator}
use vela_sdk.Tests.Toy.{toy_platform, toy_platform-IsLawful}

abbrev stream_1 : StreamMandate ℕ
stream_1 = record {
  address = 1;
  subscriber = 2;
  merchant = 3;
  mint = 4;
  rate_per_second = pos 300;
  authorized_max_rate = pos 500;
  last_settled_ts = pos 1_000;
  total_streamed = pos 70_000;
  max_streamed = some (pos 90_000);
  paused_at = none;
  min_settle_interval = 60;
  status = paused;
  mandate_index = pos 9;
  bump = 254;
  version = 1;
  pending_new_rate_per_second = pos 0;
  pending_new_authorized_max_rate = pos 0;
  pending_effective_at = pos 0;
  pending_change_type = 0;
  pending_nonce_short = [];
}

abbrev pub stream_2 : StreamMandate ℕ
stream_2 = record stream_1 {
  version = 2;
  pending_new_rate_per_second = pos 350;
  pending_new_authorized_max_rate = pos 700;
  pending_effective_at = negsuc 4;
  pending_change_type = 1;
  pending_nonce_short = replicate 8 5;
}

abbrev pub rest : List ℕ
rest = replicate 60 0

deserialize_stream_mandate-bytes_2_example :
    deserialize_stream_mandate 1 (stream_mandate_bytes stream_2 (pending_bytes stream_2 rest))
    ≡ ok stream_2
unfolding stream_mandate_bytes pending_bytes account_discriminator u64_le i64_le le_bytes
deserialize_stream_mandate-bytes_2_example =
    deserialize_stream_mandate-bytes_2 stream_2 rest toy_platform-IsLawful
      (record {
        rate_per_second = (omega arith, omega arith);
        authorized_max_rate = (omega arith, omega arith);
        last_settled_ts = (omega arith, omega arith);
        total_streamed = (omega arith, omega arith);
        max_streamed = (omega arith, omega arith);
        paused_at = tt;
        min_settle_interval = omega arith;
        mandate_index = (omega arith, omega arith);
      })
      (record {
        rate = (omega arith, omega arith);
        max_rate = (omega arith, omega arith);
        effective_at = (omega arith, omega arith);
        nonce = refl;
      })
      refl (omega arith)
