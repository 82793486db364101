-- ===== src/Tests/AgentPayments.antt =====
-- A payment by an agent, and the transaction in which the middleware looks for it.
use Prim.Native.String.{String}
use vela_sdk.Prelude.{
  ℕ, ◌≡◌, refl, sym, ap, subst, ◌∙◌, ◌⊎◌, inl, inr, true, false, none, some, List, [], ◌∷◌, ◌++◌,
  map, pos, replicate,
}
use vela_sdk.Prelude.Result.{ok, ok-injective}
use vela_sdk.Bytes.{codes}
use vela_sdk.Accounts.Pda
use vela_sdk.Accounts.Pda.{token_2022_program_id, associated_token_address}
use vela_sdk.Accounts.Platform.{instruction_discriminator}
use vela_sdk.Instructions.{meta}
use vela_sdk.Instructions.Anchor.{AnchorCall, with_error}
use vela_sdk.Instructions.Agents.{
  AgentPullParams, AgentPullResult, AgentProtocolAccounts, agent_pull_call,
  derive_agent_mandate_context, check_hook, check_mandate, resolve_agent_protocol_accounts,
  build_agent_pull,
}
use vela_sdk.Instructions.Agents.Payment.{Has, LaysOut, IsReported, build_agent_pull-found}
use vela_sdk.X402.Proof.{PaymentChallenge}
use vela_sdk.X402.Transaction.{
  Instruction, Transaction, key_text, data_bytes, extract_instructions, instruction_program_id,
  instruction_accounts, keys_at, decode_instruction_data, has_expected_agent_pull_instruction,
}
use vela_sdk.Tests.Toy.{toy_platform, toy_platform-IsLawful}
use vela_sdk.Tests.AnchorCalls.{program, lay_out}

abbrev params : AgentPullParams ℕ
params = record {
  payer = 8;
  agent = 10;
  mandate_address = some 3;
  authority = 11;
  service_wrapped_account = 12;
  amount = pos 250;
  wrapped_usdc_mint = none;
  wrapping_vault = none;
  hook_program_id = some 42;
}

abbrev protocol : AgentProtocolAccounts ℕ
protocol = record {
  protocol_config = 1;
  wrapped_usdc_mint = 40;
  wrapping_vault = 41;
  hook_program_id = some 42;
}

abbrev payment : AgentPullResult ℕ
payment = record {
  instruction =
      lay_out "agentPull"
        (agent_pull_call params 9 42 protocol
          (record { mandate_address = 3; mandate_wrapped_account = 3 })).accounts;
  mandate_address = 3;
  mandate_wrapped_account = 3;
  pull_approval_address = 2;
}

built : build_agent_pull program params ≡ ok payment
unfolding build_agent_pull resolve_agent_protocol_accounts check_hook check_mandate
    derive_agent_mandate_context agent_pull_call with_error Pda.config Pda.agent_mandate
    Pda.approval Pda.agent_mandate_wrapped_ata associated_token_address
built = refl

Has-lay_out :
    (key : ℕ) (accounts : List (String × ℕ))
    → Has key (map (λ a. a.1) accounts)
    → Has key (map (λ m. m.pubkey) (map (λ a. meta {Key = ℕ} a.1 false true) accounts))
Has-lay_out key [] h = h
Has-lay_out key (a ∷ accounts) (inl e) = inl e
Has-lay_out key (a ∷ accounts) (inr h) = inr (Has-lay_out key accounts h)

lay_out-contents :
    (call : AnchorCall ℕ)
    → call.method ≡ "agentPull"
    → (lay_out call.method call.accounts).contents
      ≡ instruction_discriminator toy_platform "agent_pull" ++ (5 ∷ [])
lay_out-contents call h = rw h refl

program-LaysOut : LaysOut program
program-LaysOut = record {
  for_program = λ call ix h. sym (ap (λ i. i.program_id) (ok-injective h));
  keeps_accounts = λ call ix key h has.
      subst (λ i. Has key (map (λ m. m.pubkey) i.keys)) (ok-injective h)
        (Has-lay_out key call.accounts has);
  starts_agent_pull = λ call ix named h.
      (5 ∷ [], sym (ap (λ i. i.contents) (ok-injective h)) ∙ lay_out-contents call named);
}

abbrev keys : List String
keys = replicate 16 "key"

abbrev reported : Instruction
reported = record {
  program_id = none;
  program_id_index = some 13;
  accounts = some (0 ∷ 1 ∷ 2 ∷ 3 ∷ 4 ∷ 5 ∷ 6 ∷ 7 ∷ 8 ∷ 9 ∷ 10 ∷ 11 ∷ 12 ∷ 13 ∷ 14 ∷ 15 ∷ []);
  account_key_indexes = none;
  instruction_data = some (data_bytes payment.instruction.contents);
}

abbrev transaction : Transaction
transaction = record {
  account_keys = some (map key_text keys);
  instructions = some (reported ∷ []);
  compiled_instructions = none;
  failed = false;
  log_messages = none;
  loaded_writable = [];
  loaded_readonly = [];
  pre_token_balances = none;
  post_token_balances = none;
}

abbrev challenge : PaymentChallenge
challenge = record {
  amount = codes "250";
  network = "solana:devnet";
  address = "key";
  authority = "key";
  destination = "key";
  nonce = "n1";
  expires = pos 60_000;
  service = none;
  wrapped_usdc_mint = none;
  protocol_program = none;
}

reported-IsReported : IsReported payment.instruction transaction keys reported
unfolding extract_instructions instruction_program_id instruction_accounts keys_at
    decode_instruction_data agent_pull_call
reported-IsReported = record { among = inl refl; program = refl; accounts = refl; contents = refl }

build_agent_pull-found_example :
    (payment.mandate_address ≡ (Pda.agent_mandate params.authority params.agent 9).0)
    × ((params.mandate_address ≡ none) ⊎ (params.mandate_address ≡ some payment.mandate_address))
    × (has_expected_agent_pull_instruction
          (instruction_discriminator toy_platform "agent_pull")
          "key"
          transaction
          keys
          challenge
        ≡ true)
build_agent_pull-found_example =
    build_agent_pull-found program params payment challenge "key" transaction keys reported
      toy_platform-IsLawful program-LaysOut built
      (record { program = refl; agent = refl; authority = refl; destination = refl })
      reported-IsReported
