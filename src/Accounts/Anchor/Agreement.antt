-- ===== src/Accounts/Anchor/Agreement.antt =====
-- The two readers of a mandate account, the one of its bytes and the one of Anchor's object.
use vela_sdk.Prelude.{ℕ, ◌≡◌, refl, sym, ap, ◌∙◌, ◌≤◌, true, false, none, some, List, leb, arith}
use vela_sdk.Prelude.Result.{ok, ok-injective}
use vela_sdk.Accounts.Platform.{Platform, IsLawful}
use vela_sdk.Accounts.Status.{MandateStatus, BillingType}
use vela_sdk.Accounts.VelaMandate.{unless_default, deserialize_mandate_account}
use vela_sdk.Accounts.VelaMandate.Layout.{
  Stored, stored_bytes, Fits, view, deserialize_mandate_account-bytes,
}
use vela_sdk.Accounts.Anchor.{
  MandateStatusKeys, BillingTypeKeys, AnchorVelaMandate, map_mandate_status, map_billing_type,
  deserialize_mandate,
}

-- The keys of the object that Anchor makes of an enum.
abbrev pub status_keys : MandateStatus → MandateStatusKeys
status_keys MandateStatus.active = record { active = true; cancelled = false; expired = false }
status_keys MandateStatus.cancelled = record { active = false; cancelled = true; expired = false }
status_keys MandateStatus.expired = record { active = false; cancelled = false; expired = true }

abbrev pub billing_keys : BillingType → BillingTypeKeys
billing_keys BillingType.flat = record { flat = true; usage = false }
billing_keys BillingType.usage = record { flat = false; usage = true }

map_mandate_status-status_keys : (s : MandateStatus) → map_mandate_status (status_keys s) ≡ ok s
unfolding map_mandate_status
map_mandate_status-status_keys MandateStatus.active = refl
map_mandate_status-status_keys MandateStatus.cancelled = refl
map_mandate_status-status_keys MandateStatus.expired = refl

map_billing_type-billing_keys : (b : BillingType) → map_billing_type (some (billing_keys b)) ≡ ok b
unfolding map_billing_type
map_billing_type-billing_keys BillingType.flat = refl
map_billing_type-billing_keys BillingType.usage = refl

module _ {Key : Type 0} ⦃platform : Platform Key⦄ where
  -- The object with every field of a stored mandate.
  abbrev pub anchor_of : Stored Key → AnchorVelaMandate Key
  anchor_of m = record {
    subscriber = m.subscriber;
    plan = some m.plan;
    merchant = m.merchant;
    mandate_index = some m.mandate_index;
    amount = m.amount;
    frequency = m.frequency;
    start_date = m.start_date;
    expiry = m.expiry;
    max_pulls = m.max_pulls;
    pulls_executed = m.pulls_executed;
    next_payment_due = m.next_payment_due;
    status = status_keys m.status;
    bump = m.bump;
    billing_type = some (billing_keys m.billing_type);
    version = some m.version;
    last_pull_at = some m.last_pull_at;
    last_billing_recorded_pull = some m.last_billing_recorded_pull;
    validation_request_nonce = some m.validation_request_nonce;
    billing_request_nonce = some m.billing_request_nonce;
    credit_balance = some m.credit_balance;
    pending_new_plan = some m.pending_new_plan;
    pending_effective_at = some m.pending_effective_at;
    pending_change_type = some m.pending_change_type;
    pending_nonce_short = some m.pending_nonce_short;
    reserved = some m.reserved;
  }

  -- What the reader of the object gives: what the reader of the bytes shows, but for the plan, which
  -- is kept when it is the all-zero key.
  deserialize_mandate_lem :
      (address : Key) (m : Stored Key)
      → 1 ≤ m.version
      → deserialize_mandate address (anchor_of m)
        ≡ ok (record (view address m) { plan = some m.plan })
  unfolding deserialize_mandate view
  deserialize_mandate_lem address m h =
      let indexed : leb 1 m.version ≡ true = ground arith in
      rw (map_mandate_status-status_keys m.status)
        (rw (map_billing_type-billing_keys m.billing_type) (rw indexed refl))

  -- On a mandate of version 1 or later with a plan, the reader of Anchor's object and the reader of
  -- the account's bytes give the same.
  pub deserialize_mandate-deserialize_mandate_account :
      (address : Key) (m : Stored Key) (rest : List ℕ)
      → IsLawful platform
      → Fits m
      → 1 ≤ m.version
      → platform.equals m.plan platform.default_key ≡ false
      → deserialize_mandate address (anchor_of m)
        ≡ deserialize_mandate_account address (stored_bytes m rest)
  unfolding view unless_default
  deserialize_mandate-deserialize_mandate_account address m rest lawful fits h planned =
      let shown : unless_default m.plan ≡ some m.plan = rw planned refl in
      deserialize_mandate_lem address m h
      ∙ (λ i. ok (record (view address m) { plan = sym shown i }))
      ∙ sym (deserialize_mandate_account-bytes address m rest lawful fits)

  -- On the all-zero plan they differ: Anchor's reader shows it as a plan, that of the bytes as none.
  pub deserialize_mandate_differs :
      (address : Key) (m : Stored Key) (rest : List ℕ)
      → IsLawful platform
      → Fits m
      → 1 ≤ m.version
      → platform.equals m.plan platform.default_key ≡ true
      → ¬ (
          deserialize_mandate address (anchor_of m)
          ≡ deserialize_mandate_account address (stored_bytes m rest))
  unfolding view unless_default
  deserialize_mandate_differs address m rest lawful fits h unplanned same =
      let shown : unless_default m.plan ≡ none = rw unplanned refl in
      let equal : record (view address m) { plan = some m.plan } ≡ view address m = ok-injective (
        sym (deserialize_mandate_lem address m h)
        ∙ same
        ∙ deserialize_mandate_account-bytes address m rest lawful fits) in
      let plans : some m.plan ≡ none = ap (λ v. v.plan) equal ∙ shown in cc
