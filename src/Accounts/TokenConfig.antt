-- ===== src/Accounts/TokenConfig.antt =====
-- The TokenConfig account: `TokenConfig` of src/types.ts, `deserializeTokenConfigAccount` and
-- `fetchTokenConfig` of src/accounts/deserialize.ts, and `resolveTokenConfig` of
-- src/token/resolve-token-config.ts, with `getTokenSymbol` of src/token/token-symbols.ts.
pub mod Layout
pub mod Enabled
use Prim.Native.String.{String}
use text.Mathlib.Text.{◌==◌ as str_eq}
use vela_sdk.Prelude.{
  ℕ, ◌+◌, Bool, not, Option, none, some, List, ℤ, length, ltb, ◌==◌, if◌then◌else◌,
}
use vela_sdk.Prelude.Result.{Result, ok, err, ◌>>=◌, ◌>>◌, throw_if}
use vela_sdk.Errors.{AccountKind}
use vela_sdk.Errors.{Checked, truncated, account_not_found, wrong_account_type}
use vela_sdk.Bytes.{subarray, slice_equals, hex_from_bytes, read_u8, read_i64_le}
use vela_sdk.Accounts.Platform.{Platform, read_key, account_discriminator}
use vela_sdk.Accounts.Pda
use vela_sdk.Accounts.Status.{BillingRail, map_billing_rail_byte}

pub record TokenConfig (Key : Type 0) : Type 0 where
  pub address : Option Key
  pub mint : Key
  pub token_program : Key
  pub billing_rail : BillingRail
  pub decimals : ℕ
  pub enabled : Bool
  pub oracle_reference : Key
  pub admin : Option Key
  pub created_at : Option ℤ
  pub bump : Option ℕ
  pub version : Option ℕ
  pub token_symbol : Option String
  pub reserved : Option (List ℕ)

-- The two errors of `resolveTokenConfig`, with the mint.
pub data TokenConfigError (Key : Type 0) : Type 0 where
  disabled not_found : Key → TokenConfigError Key

module _ {Key : Type 0} ⦃platform : Platform Key⦄ where
  unfoldable pub deserialize_token_config_account : Key → List ℕ → Checked (TokenConfig Key)
  deserialize_token_config_account address bytes = do
    throw_if (ltb (length bytes) 213)
        (truncated AccountKind.token_config (platform.to_base58 address))
    let got_discriminator = subarray bytes 0 8
    throw_if (not (slice_equals got_discriminator (account_discriminator platform "TokenConfig") 0))
        (wrong_account_type AccountKind.token_config (platform.to_base58 address)
          (hex_from_bytes got_discriminator))
    let offset : ℕ = 8
    let mint = read_key bytes offset
    let offset = offset + 32
    let token_program = read_key bytes offset
    let offset = offset + 32
    billing_rail ← do map_billing_rail_byte (← read_u8 bytes offset)
    let offset = offset + 1
    decimals ← read_u8 bytes offset
    let offset = offset + 1
    enabled ← read_u8 bytes offset
    let offset = offset + 1
    let oracle_reference = read_key bytes offset
    let offset = offset + 32
    let admin = read_key bytes offset
    let offset = offset + 32
    created_at ← read_i64_le bytes offset
    let offset = offset + 8
    bump ← read_u8 bytes offset
    let offset = offset + 1
    version ← read_u8 bytes offset
    let offset = offset + 1
    let reserved = subarray bytes offset (offset + 64)
    ok (record {
      address = some address;
      mint = mint;
      token_program = token_program;
      billing_rail = billing_rail;
      decimals = decimals;
      enabled = enabled == 1;
      oracle_reference = oracle_reference;
      admin = some admin;
      created_at = some created_at;
      bump = some bump;
      version = some version;
      token_symbol = none;
      reserved = some reserved;
    })

  unfoldable pub fetch_token_config : (Key → Option (List ℕ)) → Key → Checked (TokenConfig Key)
  fetch_token_config get_account_info address = elim (get_account_info address) [
    | none ↦ err (account_not_found AccountKind.token_config (platform.to_base58 address))
    | some bytes ↦ deserialize_token_config_account address bytes
  ]

  -- The keys of `TOKEN_SYMBOLS` are the texts of the mints of src/constants.ts.
  unfoldable pub get_token_symbol : Key → String
  get_token_symbol mint =
      let key = platform.to_base58 mint in
      if str_eq key "4zMMC9srt5Ri5X14GAgXhaHii3GnPAEERYPJgZJDncDU"
      then "USDC"
      else if str_eq key "EPjFWdd5AufqSSqeM2qN1xzybapC8G4wEGGkZwyTDt1v"
      then "USDC"
      else if str_eq key "2b1kV6DkPAnxd5ixfnxCpjxmKwqjjaYmCZfHsFu24GXo"
      then "PYUSD"
      else if str_eq key "HzwqbKZw8HxMN6bF2yFZNrht3c2iXXzpKcFu7uBEDKtr"
      then "EURC"
      else if str_eq key "Fx217d3isRNyu8VtW7WQvuHwwRWeXbwdXhpAmhT9Xdgx"
      then "VelaUSD"
      else "TOKEN"

  -- `resolveTokenConfig`: whatever fails but the check itself is reported as absent.
  unfoldable pub resolve_token_config :
      (Key → Option (List ℕ)) → Key → Key → Result (TokenConfigError Key) (TokenConfig Key)
  resolve_token_config get_account_info mint program_id =
      elim (fetch_token_config get_account_info (Pda.token_config mint program_id).0) [
        | err e ↦ err (not_found mint)
        | ok config ↦
            let with_symbol : TokenConfig Key = record config {
              token_symbol = some (get_token_symbol config.mint);
            } in
            if not with_symbol.enabled then err (disabled mint) else ok with_symbol
      ]
