-- ===== src/Accounts/Merchant.antt =====
-- `MerchantState` of src/types.ts and its reader for the objects that Anchor has decoded,
-- `deserializeMerchantState` of src/accounts/deserialize.ts.
use vela_sdk.Prelude.{ℕ, Option, none, some, List, ℤ, pos}
use vela_sdk.Accounts.PullApproval.{or_else}

pub record AnchorMerchantState (Key : Type 0) : Type 0 where
  pub merchant : Key
  pub plan_count : ℤ
  pub bump : ℕ
  pub credential_mint : Option Key
  pub mandate_counter : Option ℤ
  pub version : Option ℕ
  pub reserved : Option (List ℕ)

pub record MerchantState (Key : Type 0) : Type 0 where
  pub address : Key
  pub merchant : Key
  pub plan_count : ℤ
  pub bump : ℕ
  pub credential_mint : Option Key
  pub mandate_counter : ℤ
  pub version : Option ℕ
  pub reserved : Option (List ℕ)

-- `version != null ? value : other`
abbrev pub if_version {ℓ} : {A : Type ℓ} → Option ℕ → A → A → A
if_version none value other = other
if_version (some version) value other = value

unfoldable pub deserialize_merchant_state :
    {Key : Type 0} → Key → AnchorMerchantState Key → MerchantState Key
deserialize_merchant_state address raw = record {
  address = address;
  merchant = raw.merchant;
  plan_count = raw.plan_count;
  bump = raw.bump;
  credential_mint = if_version raw.version raw.credential_mint none;
  mandate_counter = if_version raw.version (or_else raw.mandate_counter (pos 0)) (pos 0);
  version = raw.version;
  reserved = raw.reserved;
}
