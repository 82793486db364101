-- ===== src/Accounts/TokenConfig/Enabled.antt =====
-- `getEnabledTokens` of src/token/get-enabled-tokens.ts, over a connection that offers getProgramAccounts,
-- and what `resolveTokenConfig` of src/token/resolve-token-config.ts returns.
use vela_sdk.Prelude.{
  ℕ, ◌≡◌, refl, ap, Option, none, some, List, [], ◌∷◌, map, All, if◌then◌else◌, Bool-cases, inl,
  inr,
}
use vela_sdk.Prelude.Result.{Result, ok, err, ◌>>=◌}
use vela_sdk.Errors.{Checked}
use vela_sdk.Accounts.Platform.{Platform, IsLawful}
use vela_sdk.Accounts.Pda
use vela_sdk.Accounts.TokenConfig.{
  TokenConfig, TokenConfigError, disabled, not_found, get_token_symbol, fetch_token_config,
  resolve_token_config, deserialize_token_config_account,
}
use vela_sdk.Accounts.TokenConfig.Layout.{
  Stored, Fits, stored_bytes, view, deserialize_token_config_account-bytes,
}

abbrev token_config_account_size : ℕ
token_config_account_size = 213

module _ {Key : Type 0} ⦃platform : Platform Key⦄ where
  -- The configuration with the symbol of its mint.
  unfoldable pub with_symbol : TokenConfig Key → TokenConfig Key
  with_symbol config = record config { token_symbol = some (get_token_symbol config.mint) }

  unfoldable pub read_token_configs : List (Key × List ℕ) → Checked (List (TokenConfig Key))
  read_token_configs [] = ok []
  read_token_configs ((pubkey, bytes) ∷ accounts) = do
    config ← deserialize_token_config_account pubkey bytes
    configs ← read_token_configs accounts
    ok (with_symbol config ∷ configs)

  unfoldable pub keep_enabled : List (TokenConfig Key) → List (TokenConfig Key)
  keep_enabled [] = []
  keep_enabled (config ∷ configs) =
      let rest = keep_enabled configs in if config.enabled then config ∷ rest else rest

  -- `get_program_accounts` is asked for the accounts of a program of a size.
  unfoldable pub get_enabled_tokens :
      (Key → ℕ → List (Key × List ℕ)) → Key → Checked (List (TokenConfig Key))
  get_enabled_tokens get_program_accounts program_id = do
    configs ← read_token_configs (get_program_accounts program_id token_config_account_size)
    ok (keep_enabled configs)

  -- The accounts of a chain that stores these configurations.
  abbrev pub accounts_of : List (Key × Stored Key) → List (Key × List ℕ)
  accounts_of = map (λ m. (m.0, stored_bytes m.1 []))

  -- Those that are enabled, in order, as the SDK shows them with their symbols.
  abbrev pub enabled_of : List (Key × Stored Key) → List (TokenConfig Key)
  enabled_of [] = []
  enabled_of ((address, m) ∷ ms) =
      if m.enabled
      then record (view address m) { token_symbol = some (get_token_symbol m.mint) } ∷ enabled_of ms
      else enabled_of ms

  read_token_configs-accounts_of :
      (ms : List (Key × Stored Key))
      → IsLawful platform
      → All (λ m. Fits m.1) ms
      → read_token_configs (accounts_of ms) ≡ ok (map (λ m. with_symbol (view m.0 m.1)) ms)
  unfolding read_token_configs
  read_token_configs-accounts_of [] lawful fits = refl
  read_token_configs-accounts_of ((address, m) ∷ ms) lawful (here, there) =
      rw (deserialize_token_config_account-bytes address m [] lawful here) rw
        (read_token_configs-accounts_of ms lawful there) refl

  keep_enabled-map :
      (ms : List (Key × Stored Key))
      → keep_enabled (map (λ m. with_symbol (view m.0 m.1)) ms) ≡ enabled_of ms
  unfolding keep_enabled with_symbol view
  keep_enabled-map [] = refl
  keep_enabled-map ((address, m) ∷ ms) = elim (Bool-cases m.enabled) [
    | inl on ↦ rw on rw (keep_enabled-map ms) refl
    | inr off ↦ rw off rw (keep_enabled-map ms) refl
  ]

  -- When the accounts of the size of a configuration are configurations as the program stores them,
  -- the call succeeds and returns those that are enabled, in order, each with its symbol.
  pub get_enabled_tokens_lem :
      (get_program_accounts : Key → ℕ → List (Key × List ℕ)) (program_id : Key)
      (ms : List (Key × Stored Key))
      → IsLawful platform
      → All (λ m. Fits m.1) ms
      → get_program_accounts program_id 213 ≡ accounts_of ms
      → get_enabled_tokens get_program_accounts program_id ≡ ok (enabled_of ms)
  unfolding get_enabled_tokens
  get_enabled_tokens_lem get_program_accounts program_id ms lawful fits h =
      rw h rw (read_token_configs-accounts_of ms lawful fits) (ap ok (keep_enabled-map ms))

  -- What the chain has at an address: nothing, or a configuration with bytes after it.
  abbrev pub bytes_at : Option (Stored Key × List ℕ) → Option (List ℕ)
  bytes_at none = none
  bytes_at (some (m, rest)) = some (stored_bytes m rest)

  abbrev pub FitsAt : Option (Stored Key × List ℕ) → Type 0
  FitsAt none = Unit
  FitsAt (some (m, rest)) = Fits m

  abbrev pub resolved :
      (address mint : Key)
      → Option (Stored Key × List ℕ)
      → Result (TokenConfigError Key) (TokenConfig Key)
  resolved address mint none = err (not_found mint)
  resolved address mint (some (m, rest)) =
      if m.enabled
      then ok (record (view address m) { token_symbol = some (get_token_symbol m.mint) })
      else err (disabled mint)

  -- With the account absent or a configuration as the program stores it, the mint resolves to the
  -- configuration with its symbol exactly if it is enabled, and to one of two errors otherwise.
  pub resolve_token_config_lem :
      (get_account_info : Key → Option (List ℕ)) (mint program_id : Key)
      (found : Option (Stored Key × List ℕ))
      → IsLawful platform
      → FitsAt found
      → get_account_info (Pda.token_config mint program_id).0 ≡ bytes_at found
      → resolve_token_config get_account_info mint program_id
        ≡ resolved (Pda.token_config mint program_id).0 mint found
  unfolding resolve_token_config fetch_token_config view
  resolve_token_config_lem get_account_info mint program_id none lawful fits h =
      rw (h, resolve_token_config, fetch_token_config) refl
  resolve_token_config_lem get_account_info mint program_id (some (m, rest)) lawful fits h =
      rw
        (
          h,
          deserialize_token_config_account-bytes (Pda.token_config mint program_id).0 m rest lawful
              fits,
          resolve_token_config,
          fetch_token_config,
        )
        elim (Bool-cases m.enabled) [ inl on ↦ rw on refl | inr off ↦ rw off refl ]
