-- ===== src/X402/Verify/Pulls.antt =====
-- That the helpers of src/x402/server.ts find the pull which a payment must show.
use Prim.Native.String.{String}
use vela_sdk.Prelude.{
  ℕ, ◌≡◌, refl, sym, ap, ◌∙◌, ◌↔◌, ◌⊎◌, inl, inr, true, false, Option, none, some, List, [], any,
  get_elem?, arith, Option-cases,
}
use vela_sdk.Prelude.First.{any-Has, Has-any}
use vela_sdk.Bytes.{codes}
use vela_sdk.Bytes.Parts.{IsPrefix, slice_equals-prefix_iff}
use vela_sdk.Accounts.PullApproval.{or_else}
use vela_sdk.X402.Base58.{decode_base58}
use vela_sdk.X402.Proof.{PaymentChallenge}
use vela_sdk.X402.Transaction.{
  InstructionData, data_bytes, data_base58, Instruction, Transaction, normalize_account_key,
  extract_account_keys, includes, extract_instructions, instruction_program_id, keys_at,
  instruction_accounts, decode_instruction_data, is_text, is_expected_agent_pull, has_discriminator,
  has_expected_agent_pull_instruction,
}
use vela_sdk.X402.Verify.{Chain}
use vela_sdk.X402.Verify.Pays.{keys_of, Calls, Passes, BeginsWith, IsPull, HasPull}
use vela_sdk.X402.Verify.Keys.{
  text_of_lem, extract_account_keys_lem, some_injective, is_text_iff, includes-keys_at,
  or_else_cases, IsChosen-or_else,
}

has_discriminator-IsPrefix :
    (discriminator : List ℕ) (o : Option (List ℕ))
    → has_discriminator discriminator o ≡ true
    → (bytes : List ℕ) × (o ≡ some bytes) × IsPrefix discriminator bytes
has_discriminator-IsPrefix discriminator none h = cc
has_discriminator-IsPrefix discriminator (some bytes) h =
    (bytes, refl, (slice_equals-prefix_iff bytes discriminator).0 h)

decoded_cases :
    (o : Option InstructionData) (bytes : List ℕ)
    → (decode_instruction_data o ≡ some bytes) ↔ (
        (o ≡ some (data_bytes bytes))
        ⊎ ((text : String) × (o ≡ some (data_base58 text))
            × (decode_base58 (codes text) ≡ some bytes)))
unfolding decode_instruction_data
decoded_cases none bytes = (λ h. cc, λ s. elim s [ inl h ↦ cc | inr (text, h, _) ↦ cc ])
decoded_cases (some (data_bytes value)) bytes =
    (λ h. inl (cc), λ s. elim s [ inl h ↦ cc | inr (text, h, _) ↦ cc ])
decoded_cases (some (data_base58 value)) bytes = (
  λ h. inr (value, refl, h),
  λ s. elim s [
    | inl h ↦ cc
    | inr (text, h, e) ↦ let same : value ≡ text = cc in ap (λ t. decode_base58 (codes t)) same ∙ e
  ],
)

begins-BeginsWith :
    (discriminator : List ℕ) (instruction : Instruction)
    → has_discriminator discriminator (decode_instruction_data instruction.instruction_data) ≡ true
    → BeginsWith discriminator instruction
begins-BeginsWith discriminator instruction h =
    let (bytes, e, starts) =
      has_discriminator-IsPrefix discriminator
        (decode_instruction_data instruction.instruction_data) h in
    (bytes, (decoded_cases instruction.instruction_data bytes).0 e, starts)

BeginsWith-begins :
    (discriminator : List ℕ) (instruction : Instruction)
    → BeginsWith discriminator instruction
    → has_discriminator discriminator (decode_instruction_data instruction.instruction_data) ≡ true
BeginsWith-begins discriminator instruction (bytes, decoded, starts) =
    ap (has_discriminator discriminator)
      ((decoded_cases instruction.instruction_data bytes).1 decoded)
    ∙ (slice_equals-prefix_iff bytes discriminator).1 starts

BeginsWith_iff :
    (discriminator : List ℕ) (instruction : Instruction)
    → (has_discriminator discriminator (decode_instruction_data instruction.instruction_data)
        ≡ true)
      ↔ BeginsWith discriminator instruction
BeginsWith_iff discriminator instruction =
    (begins-BeginsWith discriminator instruction, BeginsWith-begins discriminator instruction)

module _ (keys : List String) (instruction : Instruction) where
  includes-Passes :
      (key : String)
      → includes (instruction_accounts instruction keys) key ≡ true
      → Passes keys instruction key
  unfolding instruction_accounts
  includes-Passes key h =
      let indexes = or_else instruction.accounts (or_else instruction.account_key_indexes []) in
      let found = sym (includes-keys_at keys indexes key) ∙ h in
      let (i, there, at) = any-Has (λ i. is_text (get_elem? keys i) key) indexes found in
      elim (or_else_cases instruction.accounts instruction.account_key_indexes) [
        | inl picked ↦ (indexes, i, picked, there, (is_text_iff (get_elem? keys i) key).0 at)
        | inr empty ↦
            let none_there : false ≡ true =
              ap (any (λ i. is_text (get_elem? keys i) key)) (sym empty) ∙ found in
            cc
      ]

  Passes-includes :
      (key : String)
      → Passes keys instruction key
      → includes (instruction_accounts instruction keys) key ≡ true
  unfolding instruction_accounts
  Passes-includes key (indexes, i, picked, there, at) =
      let e =
        IsChosen-or_else instruction.accounts instruction.account_key_indexes indexes picked in
      ap (λ l. includes (keys_at keys l) key) e
      ∙ includes-keys_at keys indexes key
      ∙ Has-any (λ i. is_text (get_elem? keys i) key) i indexes there
          ((is_text_iff (get_elem? keys i) key).1 at)

  program-Calls :
      (program : String)
      → instruction_program_id instruction keys ≡ some program
      → Calls keys instruction program
  unfolding instruction_program_id
  program-Calls program h = elim (Option-cases instruction.program_id) [
    | inr (k, e) ↦
        let shown : some (normalize_account_key k) ≡ some program = rw e at h in
        inl (k, e, sym (text_of_lem k) ∙ some_injective shown)
    | inl e ↦ elim (Option-cases instruction.program_id_index) [
      | inr (i, e') ↦
          let found : get_elem? keys i ≡ some program = rw (e, e') at h in inr (i, e, e', found)
      | inl e' ↦ let missing : ◌≡◌ {A = Option String} none (some program) = rw (e, e') at h in cc
    ]
  ]

  Calls-program :
      (program : String)
      → Calls keys instruction program
      → instruction_program_id instruction keys ≡ some program
  unfolding instruction_program_id
  Calls-program program (inl (k, e, same)) = rw e (ap some (text_of_lem k ∙ same))
  Calls-program program (inr (i, e, e', found)) = rw (e, e') found

  Calls_iff :
      (program : String)
      → (is_text (instruction_program_id instruction keys) program ≡ true)
        ↔ Calls keys instruction program
  Calls_iff program = (
    λ h.
        program-Calls program ((is_text_iff (instruction_program_id instruction keys) program).0 h),
    λ c.
        (is_text_iff (instruction_program_id instruction keys) program).1 (Calls-program program c),
  )

  is_expected_agent_pull-IsPull :
      (discriminator : List ℕ) (program : String) (challenge : PaymentChallenge)
      → (is_expected_agent_pull discriminator program keys challenge instruction ≡ true)
        ↔ IsPull discriminator program keys challenge instruction
  unfolding is_expected_agent_pull
  is_expected_agent_pull-IsPull discriminator program challenge = (
    λ h. record {
      calls = (Calls_iff program).0 (ground arith);
      address = includes-Passes challenge.address (ground arith);
      authority = includes-Passes challenge.authority (ground arith);
      destination = includes-Passes challenge.destination (ground arith);
      begins = (BeginsWith_iff discriminator instruction).0 (ground arith);
    },
    λ p.
        let calls = (Calls_iff program).1 p.calls in
        let address = Passes-includes challenge.address p.address in
        let authority = Passes-includes challenge.authority p.authority in
        let destination = Passes-includes challenge.destination p.destination in
        let begins = (BeginsWith_iff discriminator instruction).1 p.begins in
        ground (arith, calls, address, authority, destination, begins),
  )

module _ (discriminator : List ℕ) (program : String) (t : Transaction)
    (challenge : PaymentChallenge) where
  expected-HasPull :
      any
          (is_expected_agent_pull discriminator program (keys_of t) challenge)
          (extract_instructions t)
        ≡ true
      → HasPull discriminator program t challenge
  unfolding extract_instructions
  expected-HasPull h =
      let instructions = or_else t.instructions (or_else t.compiled_instructions []) in
      let test = is_expected_agent_pull discriminator program (keys_of t) challenge in
      let (instruction, there, passed) = any-Has test instructions h in
      elim (or_else_cases t.instructions t.compiled_instructions) [
        | inl picked ↦ (
          instructions,
          instruction,
          picked,
          there,
          (is_expected_agent_pull-IsPull (keys_of t) instruction discriminator program challenge).0
              passed,
        )
        | inr empty ↦ let none_there : false ≡ true = ap (any test) (sym empty) ∙ h in cc
      ]

  HasPull-expected :
      HasPull discriminator program t challenge
      → any
          (is_expected_agent_pull discriminator program (keys_of t) challenge)
          (extract_instructions t)
        ≡ true
  unfolding extract_instructions
  HasPull-expected (instructions, instruction, picked, there, pull) =
      let test = is_expected_agent_pull discriminator program (keys_of t) challenge in
      ap (any test) (IsChosen-or_else t.instructions t.compiled_instructions instructions picked)
      ∙ Has-any test instruction instructions there (
          (is_expected_agent_pull-IsPull (keys_of t) instruction discriminator program challenge).1
            pull)

pub has_expected_agent_pull_instruction-HasPull :
    (chain : Chain) (t : Transaction) (challenge : PaymentChallenge)
    → (has_expected_agent_pull_instruction chain.agent_pull_discriminator chain.program t
          (extract_account_keys t)
          challenge
        ≡ true)
      ↔ HasPull chain.agent_pull_discriminator
          (or_else challenge.protocol_program chain.program)
          t
          challenge
unfolding has_expected_agent_pull_instruction
has_expected_agent_pull_instruction-HasPull chain t challenge =
    let program = or_else challenge.protocol_program chain.program in
    rw (extract_account_keys_lem t) (
      expected-HasPull chain.agent_pull_discriminator program t challenge,
      HasPull-expected chain.agent_pull_discriminator program t challenge,
    )
