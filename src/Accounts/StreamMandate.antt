-- ===== src/Accounts/StreamMandate.antt =====
-- The StreamMandate account: src/types/stream-mandate.ts and `deserializeStreamMandate` of
-- src/accounts/deserialize.ts.
pub mod Layout
use Prim.Native.Nat.{min}
use vela_sdk.Prelude.{
  ℕ, ◌+◌, not, ◌&&◌, ◌||◌, Option, none, some, List, [], ℤ, pos, length, ltb, leb, ◌==◌,
  if◌then◌else◌,
}
use vela_sdk.Prelude.Result.{ok, err, ◌>>=◌, ◌>>◌, throw_if}
use vela_sdk.Errors.{AccountKind}
use vela_sdk.Errors.{
  Checked, truncated, account_not_found, wrong_account_type, unsupported_version, unknown_variant,
}
use vela_sdk.Bytes.{
  subarray, slice_equals, hex_from_bytes, read_u8, read_u32_le, read_u64_le, read_i64_le,
}
use vela_sdk.Accounts.Platform.{Platform, read_key, account_discriminator}

pub data StreamStatus : Type 0 where
  active paused cancelled : StreamStatus

pub record StreamMandate (Key : Type 0) : Type 0 where
  pub address : Key
  pub version : ℕ
  pub subscriber : Key
  pub merchant : Key
  pub mint : Key
  pub rate_per_second : ℤ
  pub authorized_max_rate : ℤ
  pub last_settled_ts : ℤ
  pub total_streamed : ℤ
  pub max_streamed : Option ℤ
  pub paused_at : Option ℤ
  pub min_settle_interval : ℕ
  pub status : StreamStatus
  pub mandate_index : ℤ
  pub bump : ℕ
  pub pending_new_rate_per_second : ℤ
  pub pending_new_authorized_max_rate : ℤ
  pub pending_effective_at : ℤ
  pub pending_change_type : ℕ
  pub pending_nonce_short : List ℕ

unfoldable pub map_stream_status : ℕ → Checked StreamStatus
map_stream_status raw =
    if raw == 0
    then ok active
    else if raw == 1
    then ok paused
    else if raw == 2
    then ok cancelled
    else err (unknown_variant "StreamStatus" raw)

-- `readOptionU64` and `readOptionI64`: the value, and always nine bytes further.
unfoldable pub read_option_u64 : List ℕ → ℕ → Checked (Option ℤ × ℕ)
read_option_u64 bytes offset = do
  tag ← read_u8 bytes offset
  let present : Checked (Option ℤ × ℕ) = do
    value ← read_u64_le bytes (offset + 1)
    ok (some value, offset + 9)
  if tag == 0 then ok (none, offset + 9) else present

unfoldable pub read_option_i64 : List ℕ → ℕ → Checked (Option ℤ × ℕ)
read_option_i64 bytes offset = do
  tag ← read_u8 bytes offset
  let present : Checked (Option ℤ × ℕ) = do
    value ← read_i64_le bytes (offset + 1)
    ok (some value, offset + 9)
  if tag == 0 then ok (none, offset + 9) else present

-- The scheduled change that version 2 appends: rate, largest rate, time, kind, nonce.
abbrev pub PendingChange : Type 0
PendingChange = ℤ × ℤ × ℤ × ℕ × List ℕ

unfoldable pub read_version_2 : List ℕ → ℕ → Checked PendingChange
read_version_2 bytes offset = do
  rate ← read_u64_le bytes offset
  let offset = offset + 8
  max_rate ← read_u64_le bytes offset
  let offset = offset + 8
  effective_at ← read_i64_le bytes offset
  let offset = offset + 8
  change_type ← read_u8 bytes offset
  let offset = offset + 1
  ok (rate, max_rate, effective_at, change_type, subarray bytes offset (offset + 8))

unfoldable pub read_pending : List ℕ → ℕ → ℕ → Checked PendingChange
read_pending bytes offset version =
    if leb 2 version then read_version_2 bytes offset else ok (pos 0, pos 0, pos 0, 0, [])

module _ {Key : Type 0} ⦃platform : Platform Key⦄ where
  unfoldable pub deserialize_stream_mandate : Key → List ℕ → Checked (StreamMandate Key)
  deserialize_stream_mandate address bytes = do
    throw_if (ltb (length bytes) 225)
        (truncated AccountKind.stream_mandate (platform.to_base58 address))
    let got_discriminator = subarray bytes 0 8
    throw_if
        (not (slice_equals got_discriminator (account_discriminator platform "StreamMandate") 0))
        (wrong_account_type AccountKind.stream_mandate (platform.to_base58 address)
          (hex_from_bytes got_discriminator))
    version ← read_u8 bytes 8
    throw_if (not (version == 1) && not (version == 2)) (unsupported_version version)
    let offset : ℕ = 9
    let subscriber = read_key bytes offset
    let offset = offset + 32
    let merchant = read_key bytes offset
    let offset = offset + 32
    let mint = read_key bytes offset
    let offset = offset + 32
    rate_per_second ← read_u64_le bytes offset
    let offset = offset + 8
    authorized_max_rate ← read_u64_le bytes offset
    let offset = offset + 8
    last_settled_ts ← read_i64_le bytes offset
    let offset = offset + 8
    total_streamed ← read_u64_le bytes offset
    let offset = offset + 8
    (max_streamed, offset) ← read_option_u64 bytes offset
    (paused_at, offset) ← read_option_i64 bytes offset
    min_settle_interval ← read_u32_le bytes offset
    let offset = offset + 4
    status ← do map_stream_status (← read_u8 bytes offset)
    let offset = offset + 1
    mandate_index ← read_u64_le bytes offset
    let offset = offset + 8
    bump ← read_u8 bytes offset
    let offset = offset + 1
    (rate, max_rate, effective_at, change_type, nonce) ← read_pending bytes offset version
    ok (record {
      address = address;
      version = version;
      subscriber = subscriber;
      merchant = merchant;
      mint = mint;
      rate_per_second = rate_per_second;
      authorized_max_rate = authorized_max_rate;
      last_settled_ts = last_settled_ts;
      total_streamed = total_streamed;
      max_streamed = max_streamed;
      paused_at = paused_at;
      min_settle_interval = min_settle_interval;
      status = status;
      mandate_index = mandate_index;
      bump = bump;
      pending_new_rate_per_second = rate;
      pending_new_authorized_max_rate = max_rate;
      pending_effective_at = effective_at;
      pending_change_type = change_type;
      pending_nonce_short = nonce;
    })

  -- `fetchStreamMandate`; `get_account_info` is the RPC call.
  unfoldable pub fetch_stream_mandate : (Key → Option (List ℕ)) → Key → Checked (StreamMandate Key)
  fetch_stream_mandate get_account_info address = elim (get_account_info address) [
    | none ↦ err (account_not_found AccountKind.stream_mandate (platform.to_base58 address))
    | some bytes ↦ do
      let got_discriminator = subarray bytes 0 (min 8 (length bytes))
      throw_if
          (ltb (length bytes) 8
            || not
                (slice_equals got_discriminator (account_discriminator platform "StreamMandate") 0))
          (wrong_account_type AccountKind.stream_mandate (platform.to_base58 address)
            (hex_from_bytes got_discriminator))
      deserialize_stream_mandate address bytes
  ]
