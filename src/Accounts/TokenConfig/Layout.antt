-- ===== src/Accounts/TokenConfig/Layout.antt =====
-- The structure of a TokenConfig account as the program stores it (idl/vela_protocol.json), its
-- bytes, and what `deserialize_token_config_account` reads from them.
use vela_sdk.Prelude.{
  ℕ, ◌≡◌, refl, ap, Bool, true, false, none, some, List, [], ◌∷◌, ◌++◌, ℤ, length, arith, ◌==◌,
  not-ltb_of_le, length-drop, length-append,
}
use vela_sdk.Prelude.Result.{ok}
use vela_sdk.Bytes.{i64_le}
use vela_sdk.Bytes.Integers.{IsI64}
use vela_sdk.Bytes.Readers.{slice_equals_self}
use vela_sdk.Accounts.Platform.{
  Platform, IsLawful, account_discriminator, length-account_discriminator,
}
use vela_sdk.Accounts.Steps.{u8_step, i64_step, bytes_step, key_step}
use vela_sdk.Accounts.Status.{BillingRail, billing_rail_byte, map_billing_rail_byte_lem}
use vela_sdk.Accounts.TokenConfig.{TokenConfig, deserialize_token_config_account}

pub record Stored (Key : Type 0) : Type 0 where
  pub mint : Key
  pub token_program : Key
  pub billing_rail : BillingRail
  pub decimals : ℕ
  pub enabled : Bool
  pub oracle_reference : Key
  pub admin : Key
  pub created_at : ℤ
  pub bump : ℕ
  pub version : ℕ
  pub reserved : List ℕ

abbrev bool_byte : Bool → ℕ
bool_byte true = 1
bool_byte false = 0

bool_byte-eq-one : (b : Bool) → (bool_byte b == 1) ≡ b
bool_byte-eq-one true = refl
bool_byte-eq-one false = refl

module _ {Key : Type 0} ⦃platform : Platform Key⦄ where
  unfoldable pub stored_bytes : Stored Key → List ℕ → List ℕ
  stored_bytes m rest =
      account_discriminator platform "TokenConfig"
      ++ (platform.to_bytes m.mint
          ++ (platform.to_bytes m.token_program
              ++ ((billing_rail_byte m.billing_rail ∷ [])
                  ++ ((m.decimals ∷ [])
                      ++ ((bool_byte m.enabled ∷ [])
                          ++ (platform.to_bytes m.oracle_reference
                              ++ (platform.to_bytes m.admin
                                  ++ (i64_le m.created_at
                                      ++ ((m.bump ∷ [])
                                          ++ ((m.version ∷ []) ++ (m.reserved ++ rest)))))))))))

  pub record Fits (m : Stored Key) : Type 0 where
    pub created_at : IsI64 m.created_at
    pub reserved : length m.reserved ≡ 64

  -- What the SDK shows of it.
  unfoldable pub view : Key → Stored Key → TokenConfig Key
  view address m = record {
    address = some address;
    mint = m.mint;
    token_program = m.token_program;
    billing_rail = m.billing_rail;
    decimals = m.decimals;
    enabled = m.enabled;
    oracle_reference = m.oracle_reference;
    admin = some m.admin;
    created_at = some m.created_at;
    bump = some m.bump;
    version = some m.version;
    token_symbol = none;
    reserved = some m.reserved;
  }

  -- The bytes of a stored account whose fields fit are read as that account, whatever follows.
  pub deserialize_token_config_account-bytes :
      (address : Key) (m : Stored Key) (rest : List ℕ)
      → IsLawful platform
      → Fits m
      → deserialize_token_config_account address (stored_bytes m rest) ≡ ok (view address m)
  unfolding deserialize_token_config_account stored_bytes view
  deserialize_token_config_account-bytes address m rest lawful fits =
      let bytes = stored_bytes m rest in
      let disc = account_discriminator platform "TokenConfig" in
      let (got, h0) =
        bytes_step bytes 0 8 disc refl
          (length-account_discriminator platform "TokenConfig" lawful) in
      let (mint, h1) = key_step lawful bytes 8 m.mint h0 in
      let (token_program, h2) = key_step lawful bytes 40 m.token_program h1 in
      let (billing_rail, h3) = u8_step bytes 72 (billing_rail_byte m.billing_rail) h2 in
      let (decimals, h4) = u8_step bytes 73 m.decimals h3 in
      let (enabled, h5) = u8_step bytes 74 (bool_byte m.enabled) h4 in
      let (oracle_reference, h6) = key_step lawful bytes 75 m.oracle_reference h5 in
      let (admin, h7) = key_step lawful bytes 107 m.admin h6 in
      let (created_at, h8) = i64_step bytes 139 m.created_at h7 fits.created_at in
      let (bump, h9) = u8_step bytes 147 m.bump h8 in
      let (version, h10) = u8_step bytes 148 m.version h9 in
      let (reserved, h11) = bytes_step bytes 149 64 m.reserved h10 fits.reserved in
      rw
        (not-ltb_of_le (length bytes) 213
          (omega (arith, length-drop 149 bytes, ap length h10, length-append m.reserved rest)))
        (rw got (
          rw (slice_equals_self disc) (
            rw
              (
                mint,
                token_program,
                billing_rail,
                map_billing_rail_byte_lem m.billing_rail,
                decimals,
                enabled,
                bool_byte-eq-one m.enabled,
                oracle_reference,
                admin,
              )
              (rw (created_at, bump, version, reserved)))))
