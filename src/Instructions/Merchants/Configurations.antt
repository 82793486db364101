-- ===== src/Instructions/Merchants/Configurations.antt =====
-- The configurations that the administrator sets, and what it stops:
-- src/instructions/init-keeper-config.ts, update-keeper-config.ts, init-token-config.ts,
-- update-token-config.ts, pause-protocol.ts, unpause-protocol.ts and admin-cancel.ts. The endpoint of a
-- keeper is given by its bytes.
use Prim.Native.String.{String}
use vela_sdk.Prelude.{
  ℕ, Bool, false, Option, none, some, List, [], ◌∷◌, ℤ, length, ltb, if◌then◌else◌, ◌==◌,
}
use vela_sdk.Prelude.Result.{Result, ok, ◌>>=◌, ◌>>◌, throw_if}
use vela_sdk.Accounts.Platform.{Platform}
use vela_sdk.Accounts.Pda
use vela_sdk.Accounts.Pda.{token_2022_program_id}
use vela_sdk.Accounts.PullApproval.{or_else}
use vela_sdk.Accounts.Plans.{resolve_plan_context}
use vela_sdk.Instructions.{TransactionInstruction, system_program_id}
use vela_sdk.Instructions.Anchor.{
  bytes, token_settings, token_changes, variant, optional_bytes, optional_key, AnchorProgram,
  BuildError, endpoint_empty, endpoint_too_long,
}
use vela_sdk.Instructions.Subscriptions.{fetch_plan_of}
use vela_sdk.Instructions.Merchants.{lay_out}

pub data KeeperMode : Type 0 where
  centralized tuktuk : KeeperMode

pub record UpdateKeeperConfigParams (Key : Type 0) : Type 0 where
  pub admin : Key
  pub mode : Option KeeperMode
  pub keeper_endpoint : Option (List ℕ)
  pub keeper_authority : Option Key

pub record AdminCancelParams (Key : Type 0) : Type 0 where
  pub authority : Key
  pub mandate_address : Key
  pub subscriber_address : Key
  pub plan_address : Key
  pub credential_mint_address : Option Key

abbrev pub mode_variant : KeeperMode → String
mode_variant centralized = "centralized"
mode_variant tuktuk = "tukTuk"

unfoldable pub check_endpoint : {Key : Type 0} → List ℕ → Result (BuildError Key) (Unit {0})
check_endpoint endpoint = do
  throw_if (length endpoint == 0) endpoint_empty
  throw_if (ltb 128 (length endpoint)) (endpoint_too_long (length endpoint))

module _ {Key : Type 0} ⦃platform : Platform Key⦄ (program : AnchorProgram Key) where
  -- The instruction, and the address of the keeper's configuration.
  unfoldable pub build_init_keeper_config :
      (admin : Key)
      → KeeperMode
      → (endpoint : List ℕ) → (keeper_authority : Key)
      → Result (BuildError Key) (TransactionInstruction Key × Key)
  build_init_keeper_config admin mode endpoint keeper_authority = do
    let keeper_config = (Pda.keeper_config program.program_id).0
    check_endpoint endpoint
    instruction ← lay_out program (record {
      method = "initKeeperConfig";
      args =
          variant (some (mode_variant mode))
          ∷ bytes endpoint
          ∷ optional_key (some keeper_authority)
          ∷ [];
      accounts =
          ("admin", admin)
          ∷ ("protocolConfig", (Pda.config program.program_id).0)
          ∷ ("keeperConfig", keeper_config)
          ∷ ("systemProgram", system_program_id)
          ∷ [];
    })
    ok (instruction, keeper_config)

  abbrev pub check_given_endpoint : Option (List ℕ) → Result (BuildError Key) (Unit {0})
  check_given_endpoint none = ok tt
  check_given_endpoint (some endpoint) = check_endpoint endpoint

  abbrev pub given_variant : Option KeeperMode → Option String
  given_variant none = none
  given_variant (some mode) = some (mode_variant mode)

  unfoldable pub build_update_keeper_config :
      UpdateKeeperConfigParams Key → Result (BuildError Key) (TransactionInstruction Key × Key)
  build_update_keeper_config params = do
    let keeper_config = (Pda.keeper_config program.program_id).0
    check_given_endpoint params.keeper_endpoint
    instruction ← lay_out program (record {
      method = "updateKeeperConfig";
      args =
          variant (given_variant params.mode)
          ∷ optional_bytes params.keeper_endpoint
          ∷ optional_key params.keeper_authority
          ∷ [];
      accounts =
          ("admin", params.admin)
          ∷ ("protocolConfig", (Pda.config program.program_id).0)
          ∷ ("keeperConfig", keeper_config)
          ∷ [];
    })
    ok (instruction, keeper_config)

  -- The instruction, and the configuration of the token. `hook` is whether the rail is the hook.
  unfoldable pub build_init_token_config :
      (admin mint : Key)
      → (hook : Bool) → (decimals : ℤ) → Result (BuildError Key) (TransactionInstruction Key × Key)
  build_init_token_config admin mint hook decimals = do
    let token_config = (Pda.token_config mint program.program_id).0
    instruction ← lay_out program (record {
      method = "initTokenConfig";
      args = token_settings (if hook then "transferHook" else "tokenDelegate") decimals ∷ [];
      accounts =
          ("admin", admin)
          ∷ ("protocolConfig", (Pda.config program.program_id).0)
          ∷ ("mint", mint)
          ∷ ("tokenConfig", token_config)
          ∷ ("systemProgram", system_program_id)
          ∷ [];
    })
    ok (instruction, token_config)

  unfoldable pub build_update_token_config :
      (admin mint : Key)
      → (enabled : Option Bool) → (oracle_reference : Option Key)
      → Result (BuildError Key) (TransactionInstruction Key × Key)
  build_update_token_config admin mint enabled oracle_reference = do
    let token_config = (Pda.token_config mint program.program_id).0
    instruction ← lay_out program (record {
      method = "updateTokenConfig";
      args = token_changes enabled oracle_reference ∷ [];
      accounts =
          ("admin", admin)
          ∷ ("protocolConfig", (Pda.config program.program_id).0)
          ∷ ("tokenConfig", token_config)
          ∷ [];
    })
    ok (instruction, token_config)

  -- The method, and the configuration that it changes.
  unfoldable pub build_protocol_switch :
      String → Key → Result (BuildError Key) (TransactionInstruction Key × Key)
  build_protocol_switch method authority = do
    let config = (Pda.config program.program_id).0
    instruction ← lay_out program (record {
      method = method;
      args = [];
      accounts = ("admin", authority) ∷ ("config", config) ∷ [];
    })
    ok (instruction, config)

  unfoldable pub build_pause_protocol :
      Key → Result (BuildError Key) (TransactionInstruction Key × Key)
  build_pause_protocol authority = build_protocol_switch "pauseProtocol" authority

  unfoldable pub build_unpause_protocol :
      Key → Result (BuildError Key) (TransactionInstruction Key × Key)
  build_unpause_protocol authority = build_protocol_switch "unpauseProtocol" authority

  -- `derive mint owner allowOwnerOffCurve program` is `getAssociatedTokenAddressSync`.
  unfoldable pub build_admin_cancel :
      (derive : (mint owner : Key) → Bool → Key → Result (BuildError Key) Key)
      → AdminCancelParams Key
      → Result (BuildError Key) (TransactionInstruction Key × Key)
  build_admin_cancel derive params = do
    let program_id = program.program_id
    plan ← fetch_plan_of program params.plan_address
    let resolved = resolve_plan_context plan
    let credential_mint = or_else params.credential_mint_address resolved.credential_mint
    credential_account ←
        derive credential_mint params.subscriber_address false token_2022_program_id
    instruction ← lay_out program (record {
      method = "adminCancel";
      args = [];
      accounts =
          ("admin", params.authority)
          ∷ ("protocolConfig", (Pda.config program_id).0)
          ∷ ("merchant", resolved.merchant)
          ∷ ("merchantState", (Pda.merchant_state resolved.merchant program_id).0)
          ∷ ("subscriber", params.subscriber_address)
          ∷ ("plan", params.plan_address)
          ∷ ("mandate", params.mandate_address)
          ∷ ("subscriberCredentialAccount", credential_account)
          ∷ ("credentialMint", credential_mint)
          ∷ ("token2022Program", token_2022_program_id)
          ∷ [];
    })
    ok (instruction, params.mandate_address)
