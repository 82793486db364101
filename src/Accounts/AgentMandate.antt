-- ===== src/Accounts/AgentMandate.antt =====
-- The AgentMandate account: `AgentMandate` and `AgentServiceLimit` of src/types.ts, and
-- `readAgentMandateAccount`, `fetchAgentMandate` and `listAgentMandates` of
-- src/accounts/fetchers.ts, over a connection that offers `getAccountInfo` and
-- `getProgramAccounts`.
pub mod Layout
pub mod Listing
use vela_sdk.Prelude.{
  ℕ, zero, suc, ◌+◌, Bool, not, ◌&&◌, Option, none, some, List, [], ◌∷◌, ℤ, length, ltb, leb,
  if◌then◌else◌,
}
use vela_sdk.Prelude.Result.{ok, err, ◌>>=◌, ◌>>◌, throw_if}
use vela_sdk.Errors.{AccountKind}
use vela_sdk.Errors.{Checked, truncated, account_not_found, not_an_account}
use vela_sdk.Bytes.{subarray, slice_equals, read_u8, read_u32_le, read_u64_le, read_i64_le}
use vela_sdk.Accounts.Platform.{Platform, read_key}
use vela_sdk.Accounts.Status.{AgentMandateStatus, map_agent_mandate_status}

abbrev pub agent_mandate_discriminator : List ℕ
agent_mandate_discriminator = 31 ∷ 231 ∷ 224 ∷ 237 ∷ 201 ∷ 149 ∷ 38 ∷ 235 ∷ []

pub record AgentServiceLimit (Key : Type 0) : Type 0 where
  pub service : Key
  pub daily_limit : ℤ
  pub daily_spent : ℤ
  pub last_reset : ℤ

pub record AgentMandate (Key : Type 0) : Type 0 where
  pub address : Key
  pub authority : Key
  pub agent : Key
  pub daily_limit : ℤ
  pub daily_spent : ℤ
  pub daily_last_reset : ℤ
  pub lifetime_cap : ℤ
  pub total_spent : ℤ
  pub min_pull_amount : ℤ
  pub min_pull_interval : ℤ
  pub last_pull_at : ℤ
  pub status : AgentMandateStatus
  pub services : List (AgentServiceLimit Key)
  pub bump : ℕ
  pub version : Option ℕ
  pub reserved : Option (List ℕ)

module _ {Key : Type 0} ⦃platform : Platform Key⦄ where
  -- One entry of the services, with the offset behind it.
  unfoldable pub read_service : List ℕ → ℕ → Checked (AgentServiceLimit Key × ℕ)
  read_service bytes offset = do
    let service = read_key bytes offset
    let offset = offset + 32
    daily_limit ← read_u64_le bytes offset
    let offset = offset + 8
    daily_spent ← read_u64_le bytes offset
    let offset = offset + 8
    last_reset ← read_i64_le bytes offset
    let offset = offset + 8
    let entry : AgentServiceLimit Key = record {
      service = service;
      daily_limit = daily_limit;
      daily_spent = daily_spent;
      last_reset = last_reset;
    }
    ok (entry, offset)

  -- `Array.from({ length }, …)`: so many entries, one after another.
  unfoldable pub read_services : List ℕ → ℕ → ℕ → Checked (List (AgentServiceLimit Key) × ℕ)
  read_services bytes zero offset = ok ([], offset)
  read_services bytes (suc count) offset = do
    (entry, offset) ← read_service bytes offset
    (entries, offset) ← read_services bytes count offset
    ok (entry ∷ entries, offset)

  unfoldable pub read_agent_mandate_account : Key → List ℕ → Checked (AgentMandate Key)
  read_agent_mandate_account address bytes = do
    throw_if (ltb (length bytes) 170)
        (truncated AccountKind.agent_mandate (platform.to_base58 address))
    throw_if (not (slice_equals bytes agent_mandate_discriminator 0))
        (not_an_account AccountKind.agent_mandate (platform.to_base58 address))
    let offset : ℕ = 8
    let authority = read_key bytes offset
    let offset = offset + 32
    let agent = read_key bytes offset
    let offset = offset + 32
    daily_limit ← read_u64_le bytes offset
    let offset = offset + 8
    daily_spent ← read_u64_le bytes offset
    let offset = offset + 8
    daily_last_reset ← read_i64_le bytes offset
    let offset = offset + 8
    lifetime_cap ← read_u64_le bytes offset
    let offset = offset + 8
    total_spent ← read_u64_le bytes offset
    let offset = offset + 8
    min_pull_amount ← read_u64_le bytes offset
    let offset = offset + 8
    min_pull_interval ← read_i64_le bytes offset
    let offset = offset + 8
    last_pull_at ← read_i64_le bytes offset
    let offset = offset + 8
    status ← do map_agent_mandate_status (← read_u8 bytes offset)
    let offset = offset + 1
    services_len ← read_u32_le bytes offset
    let offset = offset + 4
    (services, offset) ← read_services bytes services_len offset
    bump ← read_u8 bytes offset
    let offset = offset + 1
    version ← read_u8 bytes offset
    let offset = offset + 1
    let reserved = subarray bytes offset (offset + 64)
    ok (record {
      address = address;
      authority = authority;
      agent = agent;
      daily_limit = daily_limit;
      daily_spent = daily_spent;
      daily_last_reset = daily_last_reset;
      lifetime_cap = lifetime_cap;
      total_spent = total_spent;
      min_pull_amount = min_pull_amount;
      min_pull_interval = min_pull_interval;
      last_pull_at = last_pull_at;
      status = status;
      services = services;
      bump = bump;
      version = some version;
      reserved = some reserved;
    })

  unfoldable pub fetch_agent_mandate : (Key → Option (List ℕ)) → Key → Checked (AgentMandate Key)
  fetch_agent_mandate get_account_info address = elim (get_account_info address) [
    | none ↦ err (account_not_found AccountKind.agent_mandate (platform.to_base58 address))
    | some bytes ↦ read_agent_mandate_account address bytes
  ]

  -- The filter of `listAgentMandates`.
  unfoldable pub is_mandate_of : Key → List ℕ → Bool
  is_mandate_of authority bytes =
      leb 72 (length bytes)
      && (slice_equals bytes agent_mandate_discriminator 0
          && platform.equals authority (platform.of_bytes (subarray bytes 8 40)))

  unfoldable pub keep_mandates_of : Key → List (Key × List ℕ) → List (Key × List ℕ)
  keep_mandates_of authority [] = []
  keep_mandates_of authority (account ∷ accounts) =
      let rest = keep_mandates_of authority accounts in
      if is_mandate_of authority account.1 then account ∷ rest else rest

  unfoldable pub read_agent_mandates : List (Key × List ℕ) → Checked (List (AgentMandate Key))
  read_agent_mandates [] = ok []
  read_agent_mandates ((pubkey, bytes) ∷ accounts) = do
    mandate ← read_agent_mandate_account pubkey bytes
    mandates ← read_agent_mandates accounts
    ok (mandate ∷ mandates)

  -- `accounts` is what `getProgramAccounts` returned.
  unfoldable pub list_agent_mandates : List (Key × List ℕ) → Key → Checked (List (AgentMandate Key))
  list_agent_mandates accounts authority = read_agent_mandates (keep_mandates_of authority accounts)
