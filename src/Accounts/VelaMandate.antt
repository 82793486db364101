-- ===== src/Accounts/VelaMandate.antt =====
-- The VelaMandate account: `VelaMandate` of src/types.ts, and `deserializeMandateAccount` and
-- `fetchMandate` of src/accounts/deserialize.ts.
pub mod Layout
use vela_sdk.Prelude.{ℕ, ◌+◌, not, Option, none, some, List, ℤ, length, ltb, if◌then◌else◌}
use vela_sdk.Prelude.Result.{ok, err, ◌>>=◌, ◌>>◌, throw_if}
use vela_sdk.Errors.{AccountKind}
use vela_sdk.Errors.{Checked, truncated, account_not_found, wrong_account_type}
use vela_sdk.Bytes.{subarray, slice_equals, hex_from_bytes, read_u8, read_u64_le, read_i64_le}
use vela_sdk.Accounts.Platform.{Platform, read_key, account_discriminator}
use vela_sdk.Accounts.Status.{
  MandateStatus, BillingType, map_mandate_status_byte, map_billing_type_byte,
}

-- A field that may be absent is an `Option`.
pub record VelaMandate (Key : Type 0) : Type 0 where
  pub address : Key
  pub subscriber : Key
  pub plan : Option Key
  pub merchant : Key
  pub mandate_index : Option ℤ
  pub amount : ℤ
  pub frequency : ℤ
  pub start_date : ℤ
  pub expiry : ℤ
  pub max_pulls : ℤ
  pub pulls_executed : ℤ
  pub next_payment_due : ℤ
  pub status : MandateStatus
  pub bump : ℕ
  pub billing_type : BillingType
  pub version : ℕ
  pub last_pull_at : Option ℤ
  pub last_billing_recorded_pull : Option ℤ
  pub validation_request_nonce : Option ℤ
  pub billing_request_nonce : Option ℤ
  pub credit_balance : Option ℤ
  pub pending_new_plan : Option Key
  pub pending_effective_at : Option ℤ
  pub pending_change_type : Option ℕ
  pub pending_nonce_short : Option (List ℕ)
  pub reserved : Option (List ℕ)

module _ {Key : Type 0} ⦃platform : Platform Key⦄ where
  -- `key.equals(PublicKey.default) ? undefined : key`
  unfoldable pub unless_default : Key → Option Key
  unless_default key = if platform.equals key platform.default_key then none else some key

  unfoldable pub deserialize_mandate_account : Key → List ℕ → Checked (VelaMandate Key)
  deserialize_mandate_account address bytes = do
    throw_if (ltb (length bytes) 268)
        (truncated AccountKind.vela_mandate (platform.to_base58 address))
    let got_discriminator = subarray bytes 0 8
    throw_if (not (slice_equals got_discriminator (account_discriminator platform "VelaMandate") 0))
        (wrong_account_type AccountKind.vela_mandate (platform.to_base58 address)
          (hex_from_bytes got_discriminator))
    let offset : ℕ = 8
    let subscriber = read_key bytes offset
    let offset = offset + 32
    let plan = read_key bytes offset
    let offset = offset + 32
    let merchant = read_key bytes offset
    let offset = offset + 32
    amount ← read_u64_le bytes offset
    let offset = offset + 8
    frequency ← read_u64_le bytes offset
    let offset = offset + 8
    start_date ← read_i64_le bytes offset
    let offset = offset + 8
    expiry ← read_i64_le bytes offset
    let offset = offset + 8
    max_pulls ← read_u64_le bytes offset
    let offset = offset + 8
    pulls_executed ← read_u64_le bytes offset
    let offset = offset + 8
    next_payment_due ← read_i64_le bytes offset
    let offset = offset + 8
    last_pull_at ← read_i64_le bytes offset
    let offset = offset + 8
    last_billing_recorded_pull ← read_u64_le bytes offset
    let offset = offset + 8
    validation_request_nonce ← read_u64_le bytes offset
    let offset = offset + 8
    billing_request_nonce ← read_u64_le bytes offset
    let offset = offset + 8
    status ← do map_mandate_status_byte (← read_u8 bytes offset)
    let offset = offset + 1
    bump ← read_u8 bytes offset
    let offset = offset + 1
    billing_type ← do map_billing_type_byte (← read_u8 bytes offset)
    let offset = offset + 1
    mandate_index ← read_u64_le bytes offset
    let offset = offset + 8
    version ← read_u8 bytes offset
    let offset = offset + 1
    credit_balance ← read_u64_le bytes offset
    let offset = offset + 8
    let pending_plan = read_key bytes offset
    let offset = offset + 32
    pending_effective_at ← read_i64_le bytes offset
    let offset = offset + 8
    pending_change_type ← read_u8 bytes offset
    let offset = offset + 1
    let pending_nonce_short = subarray bytes offset (offset + 8)
    let offset = offset + 8
    let reserved = subarray bytes offset (offset + 7)
    ok (record {
      address = address;
      subscriber = subscriber;
      plan = unless_default plan;
      merchant = merchant;
      mandate_index = some mandate_index;
      amount = amount;
      frequency = frequency;
      start_date = start_date;
      expiry = expiry;
      max_pulls = max_pulls;
      pulls_executed = pulls_executed;
      next_payment_due = next_payment_due;
      status = status;
      bump = bump;
      billing_type = billing_type;
      version = version;
      last_pull_at = some last_pull_at;
      last_billing_recorded_pull = some last_billing_recorded_pull;
      validation_request_nonce = some validation_request_nonce;
      billing_request_nonce = some billing_request_nonce;
      credit_balance = some credit_balance;
      pending_new_plan = unless_default pending_plan;
      pending_effective_at = some pending_effective_at;
      pending_change_type = some pending_change_type;
      pending_nonce_short = some pending_nonce_short;
      reserved = some reserved;
    })

  unfoldable pub fetch_mandate : (Key → Option (List ℕ)) → Key → Checked (VelaMandate Key)
  fetch_mandate get_account_info address = elim (get_account_info address) [
    | none ↦ err (account_not_found AccountKind.vela_mandate (platform.to_base58 address))
    | some bytes ↦ deserialize_mandate_account address bytes
  ]
