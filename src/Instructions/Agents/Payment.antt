-- ===== src/Instructions/Agents/Payment.antt =====
-- The payment of a challenge: what `buildAgentPullInstruction` builds, and that the payment middleware
-- of src/x402/server.ts finds it in the transaction.
use Prim.Native.String.{String}
use text.Mathlib.Text.{◌==◌ as str_eq}
use text.Mathlib.TextPositions.{eq_refl}
use vela_sdk.Prelude.{
  ℕ, ◌≡◌, refl, sym, ap, ◌∙◌, ◌⊎◌, inl, inr, Bool, true, Option, none, some, List, [], ◌∷◌, ◌++◌,
  map, any, arith, Bool-cases,
}
use vela_sdk.Prelude.Result.{ok, bind-eq-ok, ok-injective}
use vela_sdk.Bytes.Readers.{slice_equals_prefix}
use vela_sdk.Accounts.Platform.{Platform, IsLawful, instruction_discriminator}
use vela_sdk.Accounts.Pda
use vela_sdk.Accounts.PullApproval.{or_else}
use vela_sdk.Instructions.{TransactionInstruction}
use vela_sdk.Instructions.Anchor.{
  AnchorCall, AnchorProgram, anchor_failed, with_error, with_error-eq-ok,
}
use vela_sdk.Instructions.Agents.{
  AgentPullParams, AgentPullResult, AgentProtocolAccounts, agent_pull_call,
  derive_agent_mandate_context, check_mandate, need, resolve_agent_protocol_accounts,
  build_agent_pull,
}
use vela_sdk.X402.Proof.{PaymentChallenge}
use vela_sdk.X402.Transaction.{
  Instruction, Transaction, includes, is_text, has_discriminator, extract_instructions,
  instruction_program_id, instruction_accounts, decode_instruction_data, is_expected_agent_pull,
  has_expected_agent_pull_instruction,
}

-- The list has the element.
abbrev pub Has : {A : Type 0} → A → List A → Type 0
Has a [] = ⊥
Has a (x ∷ xs) = (x ≡ a) ⊎ Has a xs

any-Has :
    {A : Type 0} (test : A → Bool) (a : A) (xs : List A)
    → Has a xs
    → test a ≡ true
    → any test xs ≡ true
any-Has test a [] h k = absurd h
any-Has test a (x ∷ xs) (inl e) k = let here : test x ≡ true = ap test e ∙ k in rw here refl
any-Has test a (x ∷ xs) (inr h) k = let there = any-Has test a xs h k in ground arith

includes-Has :
    {A : Type 0} (text : A → String) (a : A) (xs : List A)
    → Has a xs
    → includes (map text xs) (text a) ≡ true
unfolding includes
includes-Has text a [] h = absurd h
includes-Has text a (x ∷ xs) (inl e) =
    let here : str_eq (text x) (text a) ≡ true =
      ap (λ t. str_eq (text t) (text a)) e ∙ eq_refl (text a) in
    rw here refl
includes-Has text a (x ∷ xs) (inr h) = let there = includes-Has text a xs h in ground arith

is_text_of_eq :
    (shown : Option String) (a b : String) → shown ≡ some a → a ≡ b → is_text shown b ≡ true
unfolding is_text
is_text_of_eq shown a b h e = rw h rw e (eq_refl b)

has_discriminator_of_eq :
    (discriminator args contents : List ℕ) (shown : Option (List ℕ))
    → shown ≡ some contents
    → contents ≡ discriminator ++ args
    → has_discriminator discriminator shown ≡ true
has_discriminator_of_eq discriminator args contents shown h e =
    rw h rw e (slice_equals_prefix discriminator args)

module _ {Key : Type 0} ⦃platform : Platform Key⦄ where
  -- Documented behaviour of Anchor: an instruction is for the program, has every account that the call
  -- names, and that of `agentPull` starts with the discriminator of `agent_pull`.
  pub record LaysOut (program : AnchorProgram Key) : Type 0 where
    pub for_program :
        (call : AnchorCall Key) (ix : TransactionInstruction Key)
        → program.instruction call ≡ ok ix
        → ix.program_id ≡ program.program_id
    pub keeps_accounts :
        (call : AnchorCall Key) (ix : TransactionInstruction Key) (key : Key)
        → program.instruction call ≡ ok ix
        → Has key (map (λ a. a.1) call.accounts)
        → Has key (map (λ m. m.pubkey) ix.keys)
    pub starts_agent_pull :
        (call : AnchorCall Key) (ix : TransactionInstruction Key)
        → call.method ≡ "agentPull"
        → program.instruction call ≡ ok ix
        → (args : List ℕ) × (ix.contents ≡ instruction_discriminator platform "agent_pull" ++ args)

  -- The network reports the instruction as it was sent, with keys by their texts.
  pub record IsReported (ix : TransactionInstruction Key) (transaction : Transaction)
      (account_keys : List String) (instruction : Instruction) : Type 0 where
    pub among : Has instruction (extract_instructions transaction)
    pub program :
        instruction_program_id instruction account_keys ≡ some (platform.to_base58 ix.program_id)
    pub accounts :
        instruction_accounts instruction account_keys
        ≡ map (λ k. platform.to_base58 k) (map (λ m. m.pubkey) ix.keys)
    pub contents : decode_instruction_data instruction.instruction_data ≡ some ix.contents

  -- The challenge names the program, the agent, the authority and the account of the payment.
  pub record Names (challenge : PaymentChallenge) (default_program : String) (program_id : Key)
      (params : AgentPullParams Key) : Type 0 where
    pub program : or_else challenge.protocol_program default_program ≡ platform.to_base58 program_id
    pub agent : challenge.address ≡ platform.to_base58 params.agent
    pub authority : challenge.authority ≡ platform.to_base58 params.authority
    pub destination : challenge.destination ≡ platform.to_base58 params.service_wrapped_account

  check_mandate-ok :
      (expected : Option Key) (mandate : Key)
      → IsLawful platform
      → check_mandate expected mandate ≡ ok tt
      → (expected ≡ none) ⊎ (expected ≡ some mandate)
  unfolding check_mandate
  check_mandate-ok none mandate lawful h = inl refl
  check_mandate-ok (some expected) mandate lawful h =
      elim (Bool-cases (platform.equals expected mandate)) [
        | inl same ↦ inr (ap some ((lawful.equals_iff expected mandate).0 same))
        | inr other ↦ absurd (ground (arith, other))
      ]

  -- What a payment is built from.
  pub record IsBuiltFrom (program : AnchorProgram Key) (params : AgentPullParams Key)
      (result : AgentPullResult Key) : Type 0 where
    pub accounts : AgentProtocolAccounts Key
    pub hook : Key
    pub resolved :
        resolve_agent_protocol_accounts program params.wrapped_usdc_mint params.wrapping_vault
          params.hook_program_id
        ≡ ok accounts
    pub expected :
        (params.mandate_address ≡ none) ⊎ (params.mandate_address ≡ some result.mandate_address)
    pub mandate :
        result.mandate_address
        ≡ (Pda.agent_mandate params.authority params.agent program.program_id).0
    pub laid_out :
        program.instruction (
          agent_pull_call params program.program_id hook accounts (
            derive_agent_mandate_context params.authority params.agent accounts.wrapped_usdc_mint
              program.program_id))
        ≡ ok result.instruction

  build_agent_pull-IsBuiltFrom :
      (program : AnchorProgram Key) (params : AgentPullParams Key) (result : AgentPullResult Key)
      → IsLawful platform
      → build_agent_pull program params ≡ ok result
      → IsBuiltFrom program params result
  unfolding build_agent_pull derive_agent_mandate_context
  build_agent_pull-IsBuiltFrom program params result lawful h =
      let (accounts, resolved, h1) =
        bind-eq-ok
          (resolve_agent_protocol_accounts program params.wrapped_usdc_mint params.wrapping_vault
            params.hook_program_id)
          _ h in
      let context =
        derive_agent_mandate_context params.authority params.agent accounts.wrapped_usdc_mint
          program.program_id in
      let (_, checked, h2) =
        bind-eq-ok (check_mandate params.mandate_address context.mandate_address) _ h1 in
      let (hook, needed, h3) = bind-eq-ok (need accounts.hook_program_id) _ h2 in
      let call = agent_pull_call params program.program_id hook accounts context in
      let (ix, laid_out, h4) =
        bind-eq-ok (with_error anchor_failed (program.instruction call)) _ h3 in
      let same = ok-injective h4 in
      let mandate = sym (ap (λ r. r.mandate_address) same) in
      record {
        accounts = accounts;
        hook = hook;
        resolved = resolved;
        expected =
            elim (check_mandate-ok params.mandate_address context.mandate_address lawful checked) [
              | inl absent ↦ inl absent
              | inr given ↦ inr (given ∙ ap some (sym mandate))
            ];
        mandate = mandate;
        laid_out =
            with_error-eq-ok anchor_failed (program.instruction call) laid_out
            ∙ ap (λ r. ok r.instruction) same;
      }

  expected_found :
      (program : AnchorProgram Key) (params : AgentPullParams Key) (result : AgentPullResult Key)
      (challenge : PaymentChallenge) (default_program : String) (account_keys : List String)
      (transaction : Transaction) (reported : Instruction)
      → LaysOut program
      → IsBuiltFrom program params result
      → Names challenge default_program program.program_id params
      → IsReported result.instruction transaction account_keys reported
      → is_expected_agent_pull
          (instruction_discriminator platform "agent_pull")
          (or_else challenge.protocol_program default_program)
          account_keys
          challenge
          reported
        ≡ true
  unfolding is_expected_agent_pull agent_pull_call
  expected_found program params result challenge default_program account_keys transaction reported
        lays b names is_reported =
      let ix = result.instruction in
      let context =
        derive_agent_mandate_context params.authority params.agent b.accounts.wrapped_usdc_mint
          program.program_id in
      let call = agent_pull_call params program.program_id b.hook b.accounts context in
      let keys = map (λ m. m.pubkey) ix.keys in
      let shown = instruction_accounts reported account_keys in
      let lists : (text : String) (key : Key)
          → text ≡ platform.to_base58 key
          → Has key (map (λ a. a.1) call.accounts)
          → includes shown text ≡ true =
        λ text key same has.
          ap (λ t. includes t text) is_reported.accounts
          ∙ ap (includes (map (λ k. platform.to_base58 k) keys)) same
          ∙ includes-Has (λ k. platform.to_base58 k) key keys
              (lays.keeps_accounts call ix key b.laid_out has) in
      let (args, starts) = lays.starts_agent_pull call ix refl b.laid_out in
      let same_program =
        is_text_of_eq (instruction_program_id reported account_keys) _ _ is_reported.program
          (ap platform.to_base58 (lays.for_program call ix b.laid_out) ∙ sym names.program) in
      let agent = lists challenge.address params.agent names.agent (inr (inl refl)) in
      let authority =
        lists challenge.authority params.authority names.authority (inr (inr (inl refl))) in
      let destination =
        lists challenge.destination params.service_wrapped_account names.destination
          (inr (inr (inr (inr (inr (inl refl)))))) in
      let pulls =
        has_discriminator_of_eq (instruction_discriminator platform "agent_pull") args ix.contents
          (decode_instruction_data reported.instruction_data) is_reported.contents starts in
      rw same_program rw agent rw authority rw destination pulls

  -- A payment that was built for the keys of a challenge is for the mandate of its authority and its
  -- agent, the one that was asked for if any was, and the middleware finds it in any transaction that
  -- the network reports with it, if Anchor lays instructions out as it documents.
  pub build_agent_pull-found :
      (program : AnchorProgram Key) (params : AgentPullParams Key) (result : AgentPullResult Key)
      (challenge : PaymentChallenge) (default_program : String) (transaction : Transaction)
      (account_keys : List String) (reported : Instruction)
      → IsLawful platform
      → LaysOut program
      → build_agent_pull program params ≡ ok result
      → Names challenge default_program program.program_id params
      → IsReported result.instruction transaction account_keys reported
      → (result.mandate_address
          ≡ (Pda.agent_mandate params.authority params.agent program.program_id).0)
        × ((params.mandate_address ≡ none) ⊎ (params.mandate_address ≡ some result.mandate_address))
        × (has_expected_agent_pull_instruction
              (instruction_discriminator platform "agent_pull")
              default_program
              transaction
              account_keys
              challenge
            ≡ true)
  unfolding has_expected_agent_pull_instruction agent_pull_call
  build_agent_pull-found program params result challenge default_program transaction account_keys
        reported lawful lays built names is_reported =
      let b = build_agent_pull-IsBuiltFrom program params result lawful built in
      (
        b.mandate,
        b.expected,
        any-Has _ reported (extract_instructions transaction) is_reported.among (
            expected_found program params result challenge default_program account_keys transaction
              reported lays b names is_reported),
      )
