-- ===== src/Accounts/VelaMandate/Layout.antt =====
-- The structure of a VelaMandate account as the program stores it (idl/vela_protocol.json), its
-- bytes, and what `deserialize_mandate_account` reads from them.
use vela_sdk.Prelude.{
  ℕ, ◌≡◌, refl, ap, some, List, [], ◌∷◌, ◌++◌, ℤ, length, arith, not-ltb_of_le, length-drop,
  length-append,
}
use vela_sdk.Prelude.Result.{ok}
use vela_sdk.Bytes.{u64_le, i64_le}
use vela_sdk.Bytes.Integers.{IsU64, IsI64}
use vela_sdk.Bytes.Readers.{slice_equals_self}
use vela_sdk.Accounts.Platform.{
  Platform, IsLawful, account_discriminator, length-account_discriminator,
}
use vela_sdk.Accounts.Steps.{u8_step, u64_step, i64_step, bytes_step, key_step}
use vela_sdk.Accounts.Status.{
  MandateStatus, BillingType, mandate_status_byte, billing_type_byte, map_mandate_status_byte_lem,
  map_billing_type_byte_lem,
}
use vela_sdk.Accounts.VelaMandate.{VelaMandate, unless_default, deserialize_mandate_account}

pub record Stored (Key : Type 0) : Type 0 where
  pub subscriber : Key
  pub plan : Key
  pub merchant : Key
  pub amount : ℤ
  pub frequency : ℤ
  pub start_date : ℤ
  pub expiry : ℤ
  pub max_pulls : ℤ
  pub pulls_executed : ℤ
  pub next_payment_due : ℤ
  pub last_pull_at : ℤ
  pub last_billing_recorded_pull : ℤ
  pub validation_request_nonce : ℤ
  pub billing_request_nonce : ℤ
  pub status : MandateStatus
  pub bump : ℕ
  pub billing_type : BillingType
  pub mandate_index : ℤ
  pub version : ℕ
  pub credit_balance : ℤ
  pub pending_new_plan : Key
  pub pending_effective_at : ℤ
  pub pending_change_type : ℕ
  pub pending_nonce_short : List ℕ
  pub reserved : List ℕ

module _ {Key : Type 0} ⦃platform : Platform Key⦄ where
  unfoldable pub stored_bytes : Stored Key → List ℕ → List ℕ
  stored_bytes m rest =
      account_discriminator platform "VelaMandate"
      ++ (platform.to_bytes m.subscriber
          ++ (platform.to_bytes m.plan
              ++ (platform.to_bytes m.merchant
                  ++ (u64_le m.amount
                      ++ (u64_le m.frequency
                          ++ (i64_le m.start_date
                              ++ (i64_le m.expiry
                                  ++ (u64_le m.max_pulls
                                      ++ (u64_le m.pulls_executed
                                          ++ (i64_le m.next_payment_due
                                              ++ (i64_le m.last_pull_at
                                                  ++ (u64_le m.last_billing_recorded_pull
                                                      ++ (u64_le m.validation_request_nonce
                                                          ++ (u64_le m.billing_request_nonce
                                                            ++ ((mandate_status_byte m.status ∷ [])
                                                            ++ ((m.bump ∷ [])
                                                            ++ ((billing_type_byte m.billing_type
                                                            ∷ [])
                                                            ++ (u64_le m.mandate_index
                                                            ++ ((m.version ∷ [])
                                                            ++ (u64_le m.credit_balance
                                                            ++ (platform.to_bytes m.pending_new_plan
                                                            ++ (i64_le m.pending_effective_at
                                                            ++ ((m.pending_change_type ∷ [])
                                                            ++ (m.pending_nonce_short
                                                            ++ (m.reserved
                                                            ++ rest)))))))))))))))))))))))))

  pub record Fits (m : Stored Key) : Type 0 where
    pub amount : IsU64 m.amount
    pub frequency : IsU64 m.frequency
    pub start_date : IsI64 m.start_date
    pub expiry : IsI64 m.expiry
    pub max_pulls : IsU64 m.max_pulls
    pub pulls_executed : IsU64 m.pulls_executed
    pub next_payment_due : IsI64 m.next_payment_due
    pub last_pull_at : IsI64 m.last_pull_at
    pub last_billing_recorded_pull : IsU64 m.last_billing_recorded_pull
    pub validation_request_nonce : IsU64 m.validation_request_nonce
    pub billing_request_nonce : IsU64 m.billing_request_nonce
    pub mandate_index : IsU64 m.mandate_index
    pub credit_balance : IsU64 m.credit_balance
    pub pending_effective_at : IsI64 m.pending_effective_at
    pub pending_nonce_short : length m.pending_nonce_short ≡ 8
    pub reserved : length m.reserved ≡ 7

  -- What the SDK shows of it: the all-zero key stands for an absent plan.
  unfoldable pub view : Key → Stored Key → VelaMandate Key
  view address m = record {
    address = address;
    subscriber = m.subscriber;
    plan = unless_default m.plan;
    merchant = m.merchant;
    mandate_index = some m.mandate_index;
    amount = m.amount;
    frequency = m.frequency;
    start_date = m.start_date;
    expiry = m.expiry;
    max_pulls = m.max_pulls;
    pulls_executed = m.pulls_executed;
    next_payment_due = m.next_payment_due;
    status = m.status;
    bump = m.bump;
    billing_type = m.billing_type;
    version = m.version;
    last_pull_at = some m.last_pull_at;
    last_billing_recorded_pull = some m.last_billing_recorded_pull;
    validation_request_nonce = some m.validation_request_nonce;
    billing_request_nonce = some m.billing_request_nonce;
    credit_balance = some m.credit_balance;
    pending_new_plan = unless_default m.pending_new_plan;
    pending_effective_at = some m.pending_effective_at;
    pending_change_type = some m.pending_change_type;
    pending_nonce_short = some m.pending_nonce_short;
    reserved = some m.reserved;
  }

  -- The bytes of a stored account whose fields fit are read as that account, whatever follows.
  pub deserialize_mandate_account-bytes :
      (address : Key) (m : Stored Key) (rest : List ℕ)
      → IsLawful platform
      → Fits m
      → deserialize_mandate_account address (stored_bytes m rest) ≡ ok (view address m)
  unfolding deserialize_mandate_account stored_bytes view
  deserialize_mandate_account-bytes address m rest lawful fits =
      let bytes = stored_bytes m rest in
      let disc = account_discriminator platform "VelaMandate" in
      let (got, h0) =
        bytes_step bytes 0 8 disc refl
          (length-account_discriminator platform "VelaMandate" lawful) in
      let (subscriber, h1) = key_step lawful bytes 8 m.subscriber h0 in
      let (plan, h2) = key_step lawful bytes 40 m.plan h1 in
      let (merchant, h3) = key_step lawful bytes 72 m.merchant h2 in
      let (amount, h4) = u64_step bytes 104 m.amount h3 fits.amount in
      let (frequency, h5) = u64_step bytes 112 m.frequency h4 fits.frequency in
      let (start_date, h6) = i64_step bytes 120 m.start_date h5 fits.start_date in
      let (expiry, h7) = i64_step bytes 128 m.expiry h6 fits.expiry in
      let (max_pulls, h8) = u64_step bytes 136 m.max_pulls h7 fits.max_pulls in
      let (pulls_executed, h9) = u64_step bytes 144 m.pulls_executed h8 fits.pulls_executed in
      let (next_payment_due, h10) =
        i64_step bytes 152 m.next_payment_due h9 fits.next_payment_due in
      let (last_pull_at, h11) = i64_step bytes 160 m.last_pull_at h10 fits.last_pull_at in
      let (last_billing_recorded_pull, h12) =
        u64_step bytes 168 m.last_billing_recorded_pull h11 fits.last_billing_recorded_pull in
      let (validation_request_nonce, h13) =
        u64_step bytes 176 m.validation_request_nonce h12 fits.validation_request_nonce in
      let (billing_request_nonce, h14) =
        u64_step bytes 184 m.billing_request_nonce h13 fits.billing_request_nonce in
      let (status, h15) = u8_step bytes 192 (mandate_status_byte m.status) h14 in
      let (bump, h16) = u8_step bytes 193 m.bump h15 in
      let (billing_type, h17) = u8_step bytes 194 (billing_type_byte m.billing_type) h16 in
      let (mandate_index, h18) = u64_step bytes 195 m.mandate_index h17 fits.mandate_index in
      let (version, h19) = u8_step bytes 203 m.version h18 in
      let (credit_balance, h20) = u64_step bytes 204 m.credit_balance h19 fits.credit_balance in
      let (pending_new_plan, h21) = key_step lawful bytes 212 m.pending_new_plan h20 in
      let (pending_effective_at, h22) =
        i64_step bytes 244 m.pending_effective_at h21 fits.pending_effective_at in
      let (pending_change_type, h23) = u8_step bytes 252 m.pending_change_type h22 in
      let (pending_nonce_short, h24) =
        bytes_step bytes 253 8 m.pending_nonce_short h23 fits.pending_nonce_short in
      let (reserved, h25) = bytes_step bytes 261 7 m.reserved h24 fits.reserved in
      rw
        (not-ltb_of_le (length bytes) 268
          (omega (arith, length-drop 261 bytes, ap length h24, length-append m.reserved rest)))
        (rw got (
          rw (slice_equals_self disc) (
            rw
              (
                subscriber, plan, merchant, amount, frequency, start_date, expiry, max_pulls,
                pulls_executed,
              )
              (rw
                (
                  next_payment_due,
                  last_pull_at,
                  last_billing_recorded_pull,
                  validation_request_nonce,
                  billing_request_nonce,
                  status,
                  map_mandate_status_byte_lem m.status,
                  bump,
                  billing_type,
                )
                (rw (
                  map_billing_type_byte_lem m.billing_type,
                  mandate_index,
                  version,
                  credit_balance,
                  pending_new_plan,
                  pending_effective_at,
                  pending_change_type,
                  pending_nonce_short,
                  reserved,
                ))))))
