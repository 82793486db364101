-- ===== src/Instructions/Agents.antt =====
-- The payment from an agent mandate: src/instructions/agent-mandate-shared.ts and agent-pull.ts. A key
-- that a fetched object lacks is none.
pub mod Payment
pub mod Management
use Prim.Native.String.{String}
use vela_sdk.Prelude.{
  ℕ, Bool, true, false, not, Option, none, some, List, [], ◌∷◌, ℤ, if◌then◌else◌,
}
use vela_sdk.Prelude.Result.{Result, ok, err, ◌>>=◌, ◌>>◌, throw_if}
use vela_sdk.Accounts.Platform.{Platform}
use vela_sdk.Accounts.Pda
use vela_sdk.Accounts.Pda.{token_2022_program_id, associated_token_program_id}
use vela_sdk.Accounts.PullApproval.{or_else}
use vela_sdk.Instructions.{TransactionInstruction, system_program_id, token_program_id}
use vela_sdk.Instructions.Anchor.{
  AnchorArg, bn, optional_bn, services, optional_services, AnchorCall, AnchorProgram, BuildError,
  type_error, hook_mismatch, mandate_mismatch, anchor_failed, with_error,
  get_associated_token_address,
}

pub record AgentMandateContext (Key : Type 0) : Type 0 where
  pub mandate_address : Key
  pub mandate_wrapped_account : Key

pub record AgentProtocolAccounts (Key : Type 0) : Type 0 where
  pub protocol_config : Key
  pub wrapped_usdc_mint : Key
  pub wrapping_vault : Key
  pub hook_program_id : Option Key

-- `VelaAgentPullParams` of src/types.ts, with the payer and the agent.
pub record AgentPullParams (Key : Type 0) : Type 0 where
  pub payer : Key
  pub agent : Key
  pub mandate_address : Option Key
  pub authority : Key
  pub service_wrapped_account : Key
  pub amount : ℤ
  pub wrapped_usdc_mint : Option Key
  pub wrapping_vault : Option Key
  pub hook_program_id : Option Key

pub record AgentPullResult (Key : Type 0) : Type 0 where
  pub instruction : TransactionInstruction Key
  pub mandate_address : Key
  pub mandate_wrapped_account : Key
  pub pull_approval_address : Key

module _ {Key : Type 0} ⦃platform : Platform Key⦄ where
  unfoldable pub derive_agent_mandate_context :
      (authority agent wrapped_usdc_mint program_id : Key) → AgentMandateContext Key
  derive_agent_mandate_context authority agent wrapped_usdc_mint program_id =
      let mandate_address = (Pda.agent_mandate authority agent program_id).0 in
      record {
        mandate_address = mandate_address;
        mandate_wrapped_account = Pda.agent_mandate_wrapped_ata mandate_address wrapped_usdc_mint;
      }

  -- `overrides.hookProgramId && !overrides.hookProgramId.equals(hookProgramId)`: to compare with a key
  -- that is not there is a TypeError.
  unfoldable pub check_hook : Option Key → Option Key → Result (BuildError Key) (Unit {0})
  check_hook none hook = ok tt
  check_hook (some override) none = err type_error
  check_hook (some override) (some hook) =
      if not (platform.equals override hook) then err (hook_mismatch override hook) else ok tt

  unfoldable pub check_mandate : Option Key → Key → Result (BuildError Key) (Unit {0})
  check_mandate none mandate = ok tt
  check_mandate (some expected) mandate =
      if not (platform.equals expected mandate)
      then err (mandate_mismatch expected mandate)
      else ok tt

  abbrev pub need : Option Key → Result (BuildError Key) Key
  need none = err type_error
  need (some key) = ok key

  unfoldable pub agent_pull_call :
      AgentPullParams Key
      → (program_id hook : Key) → AgentProtocolAccounts Key
      → AgentMandateContext Key
      → AnchorCall Key
  agent_pull_call params program_id hook accounts context = record {
    method = "agentPull";
    args = bn params.amount ∷ [];
    accounts =
        ("payer", params.payer)
        ∷ ("agent", params.agent)
        ∷ ("authority", params.authority)
        ∷ ("agentMandate", context.mandate_address)
        ∷ ("mandateWrappedAccount", context.mandate_wrapped_account)
        ∷ ("serviceWrappedAccount", params.service_wrapped_account)
        ∷ ("pullApproval", (Pda.approval context.mandate_address program_id).0)
        ∷ ("tokenConfig", (Pda.token_config accounts.wrapped_usdc_mint program_id).0)
        ∷ ("wrappedUsdcMint", accounts.wrapped_usdc_mint)
        ∷ ("protocolConfig", accounts.protocol_config)
        ∷ ("wrappingVault", accounts.wrapping_vault)
        ∷ ("hookProgram", hook)
        ∷ ("extraAccountMetaList", (Pda.extra_account_metas accounts.wrapped_usdc_mint hook).0)
        ∷ ("protocolProgram", program_id)
        ∷ ("token2022Program", token_2022_program_id)
        ∷ ("systemProgram", system_program_id)
        ∷ [];
  }

module _ {Key : Type 0} ⦃platform : Platform Key⦄ (program : AnchorProgram Key) where
  unfoldable pub resolve_agent_protocol_accounts :
      (wrapped_usdc_mint wrapping_vault hook_program_id : Option Key)
      → Result (BuildError Key) (AgentProtocolAccounts Key)
  resolve_agent_protocol_accounts wrapped_usdc_mint wrapping_vault hook_program_id = do
    let protocol_config = (Pda.config program.program_id).0
    raw ← with_error anchor_failed (program.fetch_protocol_config protocol_config)
    check_hook hook_program_id raw.transfer_hook_program_id
    ok (record {
      protocol_config = protocol_config;
      wrapped_usdc_mint = or_else wrapped_usdc_mint raw.wrapped_usdc_mint;
      wrapping_vault = or_else wrapping_vault raw.wrapping_vault;
      hook_program_id = raw.transfer_hook_program_id;
    })

  unfoldable pub build_agent_pull :
      AgentPullParams Key → Result (BuildError Key) (AgentPullResult Key)
  build_agent_pull params = do
    accounts ←
        resolve_agent_protocol_accounts params.wrapped_usdc_mint params.wrapping_vault
          params.hook_program_id
    let context =
        derive_agent_mandate_context params.authority params.agent accounts.wrapped_usdc_mint
          program.program_id
    check_mandate params.mandate_address context.mandate_address
    hook ← need accounts.hook_program_id
    instruction ←
        with_error anchor_failed
          (program.instruction (agent_pull_call params program.program_id hook accounts context))
    ok (record {
      instruction = instruction;
      mandate_address = context.mandate_address;
      mandate_wrapped_account = context.mandate_wrapped_account;
      pull_approval_address = (Pda.approval context.mandate_address program.program_id).0;
    })
