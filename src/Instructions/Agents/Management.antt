-- ===== src/Instructions/Agents/Management.antt =====
-- The life of an agent mandate: src/instructions/create-agent-mandate.ts,
-- adjust-agent-mandate.ts, revoke-agent-mandate.ts, drain-agent-mandate.ts, pause-agent-mandate.ts and
-- resume-agent-mandate.ts.
use Prim.Native.String.{String}
use vela_sdk.Prelude.{false, Option, none, some, List, [], ◌∷◌, ℤ}
use vela_sdk.Prelude.Result.{Result, ok, ◌>>=◌}
use vela_sdk.Accounts.Platform.{Platform}
use vela_sdk.Accounts.Pda
use vela_sdk.Accounts.Pda.{token_2022_program_id, associated_token_program_id}
use vela_sdk.Instructions.{TransactionInstruction, system_program_id, token_program_id}
use vela_sdk.Instructions.Anchor.{
  bn, optional_bn, services, optional_services, AnchorProgram, BuildError, anchor_failed,
  with_error, get_associated_token_address,
}
use vela_sdk.Instructions.Agents.{derive_agent_mandate_context, resolve_agent_protocol_accounts}

pub record CreateAgentMandateParams (Key : Type 0) : Type 0 where
  pub authority : Key
  pub agent : Key
  pub spl_usdc_mint : Key
  pub authority_usdc_account : Option Key
  pub wrapped_usdc_mint : Option Key
  pub wrapping_vault : Option Key
  pub daily_limit : ℤ
  pub lifetime_cap : ℤ
  pub min_pull_amount : ℤ
  pub min_pull_interval : ℤ
  pub services : List (Key × ℤ)
  pub funded_amount : ℤ

pub record AdjustAgentMandateParams (Key : Type 0) : Type 0 where
  pub authority : Key
  pub agent : Key
  pub daily_limit : Option ℤ
  pub lifetime_cap : Option ℤ
  pub min_pull_amount : Option ℤ
  pub min_pull_interval : Option ℤ
  pub services : Option (List (Key × ℤ))
  pub wrapped_usdc_mint : Option Key

-- `VelaRevokeAgentMandateParams` and `VelaDrainAgentMandateParams`, with the authority.
pub record ReclaimParams (Key : Type 0) : Type 0 where
  pub authority : Key
  pub agent : Key
  pub spl_usdc_mint : Key
  pub authority_usdc_account : Option Key
  pub wrapped_usdc_mint : Option Key
  pub wrapping_vault : Option Key

-- The instruction, the mandate and its wrapped account.
pub record AgentMandateResult (Key : Type 0) : Type 0 where
  pub instruction : TransactionInstruction Key
  pub mandate_address : Key
  pub mandate_wrapped_account : Key

module _ {Key : Type 0} ⦃platform : Platform Key⦄ (program : AnchorProgram Key) where
  -- `params.authorityUsdcAccount ?? deriveAuthorityUsdcAccount(authority, splUsdcMint)`
  unfoldable pub authority_usdc :
      Option Key → (authority spl_usdc_mint : Key) → Result (BuildError Key) Key
  authority_usdc (some account) authority spl_usdc_mint = ok account
  authority_usdc none authority spl_usdc_mint =
      get_associated_token_address program spl_usdc_mint authority false token_program_id

  unfoldable pub build_create_agent_mandate :
      CreateAgentMandateParams Key → Result (BuildError Key) (AgentMandateResult Key)
  build_create_agent_mandate params = do
    accounts ←
        resolve_agent_protocol_accounts program params.wrapped_usdc_mint params.wrapping_vault none
    let context =
        derive_agent_mandate_context params.authority params.agent accounts.wrapped_usdc_mint
          program.program_id
    authority_usdc_account ←
        authority_usdc params.authority_usdc_account params.authority params.spl_usdc_mint
    instruction ← with_error anchor_failed (
        program.instruction (record {
          method = "createAgentMandate";
          args =
              bn params.daily_limit
              ∷ bn params.lifetime_cap
              ∷ bn params.min_pull_amount
              ∷ bn params.min_pull_interval
              ∷ services params.services
              ∷ bn params.funded_amount
              ∷ [];
          accounts =
              ("authority", params.authority)
              ∷ ("agent", params.agent)
              ∷ ("agentMandate", context.mandate_address)
              ∷ ("authorityUsdcAccount", authority_usdc_account)
              ∷ ("mandateWrappedAccount", context.mandate_wrapped_account)
              ∷ ("wrappedUsdcMint", accounts.wrapped_usdc_mint)
              ∷ ("protocolConfig", accounts.protocol_config)
              ∷ ("splUsdcMint", params.spl_usdc_mint)
              ∷ ("wrappingVault", accounts.wrapping_vault)
              ∷ ("mintAuthority", (Pda.mint_authority program.program_id).0)
              ∷ ("splTokenProgram", token_program_id)
              ∷ ("token2022Program", token_2022_program_id)
              ∷ ("associatedTokenProgram", associated_token_program_id)
              ∷ ("systemProgram", system_program_id)
              ∷ [];
        }))
    ok (record {
      instruction = instruction;
      mandate_address = context.mandate_address;
      mandate_wrapped_account = context.mandate_wrapped_account;
    })

  unfoldable pub build_adjust_agent_mandate :
      AdjustAgentMandateParams Key → Result (BuildError Key) (AgentMandateResult Key)
  build_adjust_agent_mandate params = do
    let protocol_config = (Pda.config program.program_id).0
    wrapped_usdc_mint ← elim params.wrapped_usdc_mint [
      | some mint ↦ ok mint
      | none ↦ do
        raw ← with_error anchor_failed (program.fetch_protocol_config protocol_config)
        ok raw.wrapped_usdc_mint
    ]
    let context =
        derive_agent_mandate_context params.authority params.agent wrapped_usdc_mint
          program.program_id
    instruction ← with_error anchor_failed (
        program.instruction (record {
          method = "adjustAgentMandate";
          args =
              optional_bn params.daily_limit
              ∷ optional_bn params.lifetime_cap
              ∷ optional_bn params.min_pull_amount
              ∷ optional_bn params.min_pull_interval
              ∷ optional_services params.services
              ∷ [];
          accounts =
              ("authority", params.authority)
              ∷ ("agent", params.agent)
              ∷ ("agentMandate", context.mandate_address)
              ∷ ("mandateWrappedAccount", context.mandate_wrapped_account)
              ∷ ("wrappedUsdcMint", wrapped_usdc_mint)
              ∷ ("protocolConfig", protocol_config)
              ∷ ("token2022Program", token_2022_program_id)
              ∷ [];
        }))
    ok (record {
      instruction = instruction;
      mandate_address = context.mandate_address;
      mandate_wrapped_account = context.mandate_wrapped_account;
    })

  -- The two builders that return the wrapped balance to the authority differ by the method.
  unfoldable pub build_reclaim :
      String → ReclaimParams Key → Result (BuildError Key) (AgentMandateResult Key)
  build_reclaim method params = do
    accounts ←
        resolve_agent_protocol_accounts program params.wrapped_usdc_mint params.wrapping_vault none
    let context =
        derive_agent_mandate_context params.authority params.agent accounts.wrapped_usdc_mint
          program.program_id
    authority_usdc_account ←
        authority_usdc params.authority_usdc_account params.authority params.spl_usdc_mint
    instruction ← with_error anchor_failed (
        program.instruction (record {
          method = method;
          args = [];
          accounts =
              ("authority", params.authority)
              ∷ ("agent", params.agent)
              ∷ ("agentMandate", context.mandate_address)
              ∷ ("mandateWrappedAccount", context.mandate_wrapped_account)
              ∷ ("authorityUsdcAccount", authority_usdc_account)
              ∷ ("wrappedUsdcMint", accounts.wrapped_usdc_mint)
              ∷ ("protocolConfig", accounts.protocol_config)
              ∷ ("splUsdcMint", params.spl_usdc_mint)
              ∷ ("wrappingVault", accounts.wrapping_vault)
              ∷ ("mintAuthority", (Pda.mint_authority program.program_id).0)
              ∷ ("splTokenProgram", token_program_id)
              ∷ ("token2022Program", token_2022_program_id)
              ∷ [];
        }))
    ok (record {
      instruction = instruction;
      mandate_address = context.mandate_address;
      mandate_wrapped_account = context.mandate_wrapped_account;
    })

  unfoldable pub build_revoke_agent_mandate :
      ReclaimParams Key → Result (BuildError Key) (AgentMandateResult Key)
  build_revoke_agent_mandate params = build_reclaim "revokeAgentMandate" params

  unfoldable pub build_drain_agent_mandate :
      ReclaimParams Key → Result (BuildError Key) (AgentMandateResult Key)
  build_drain_agent_mandate params = build_reclaim "drainAgentMandate" params

  -- The method, and the mandate of an authority and an agent.
  unfoldable pub build_switch :
      String → (authority agent : Key) → Result (BuildError Key) (TransactionInstruction Key × Key)
  build_switch method authority agent = do
    let mandate_address = (Pda.agent_mandate authority agent program.program_id).0
    instruction ← with_error anchor_failed (
        program.instruction (record {
          method = method;
          args = [];
          accounts =
              ("authority", authority) ∷ ("agent", agent) ∷ ("agentMandate", mandate_address) ∷ [];
        }))
    ok (instruction, mandate_address)

  unfoldable pub build_pause_agent_mandate :
      (authority agent : Key) → Result (BuildError Key) (TransactionInstruction Key × Key)
  build_pause_agent_mandate authority agent = build_switch "pauseAgentMandate" authority agent

  unfoldable pub build_resume_agent_mandate :
      (authority agent : Key) → Result (BuildError Key) (TransactionInstruction Key × Key)
  build_resume_agent_mandate authority agent = build_switch "resumeAgentMandate" authority agent
