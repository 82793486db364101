-- ===== src/X402/Verify/Pays.antt =====
-- What a transaction must show to pay a challenge, in terms of the transaction's own fields: the
-- specification of the checks of src/x402/server.ts.
use Prim.Native.String.{String}
use vela_sdk.Prelude.{
  ℕ, ◌≡◌, ◌≢◌, ◌⊎◌, false, Option, none, some, List, [], ◌∷◌, ◌++◌, map, All, length, get_elem?, ℤ,
  pos, ◌-ℤ◌, ◌≤ℤ◌,
}
use vela_sdk.Prelude.First.{Has}
use vela_sdk.Prelude.Result.{ok}
use vela_sdk.Bytes.{codes}
use vela_sdk.Bytes.Parts.{IsPrefix, IsPart}
use vela_sdk.Accounts.PullApproval.{or_else}
use vela_sdk.X402.Base58.{decode_base58}
use vela_sdk.X402.Proof.{PaymentChallenge, string, parse_raw_amount}
use vela_sdk.X402.Transaction.{
  AccountKeyLike, key_text, key_base58, with_pubkey, other_object, data_bytes, data_base58,
  Instruction, TokenBalance, Transaction,
}
use vela_sdk.X402.Verify.{Chain}

-- The text of a key.
abbrev pub text_of : AccountKeyLike → String
text_of (key_text s) = s
text_of (key_base58 s) = s
text_of (with_pubkey s) = s
text_of (other_object s) = s

-- The keys of the message, then those of the lookup tables.
abbrev pub keys_of : Transaction → List String
keys_of t = map text_of (or_else t.account_keys []) ++ (t.loaded_writable ++ t.loaded_readonly)

-- The first of two lists that is there.
abbrev pub IsChosen {ℓ} : {A : Type ℓ} → Option A → Option A → A → Type ℓ
IsChosen first second a = (first ≡ some a) ⊎ ((first ≡ none) × (second ≡ some a))

-- The program of an instruction is the wanted one: by its key, or by an index into the keys.
abbrev pub Calls : List String → Instruction → String → Type 0
Calls keys instruction program =
    ((k : AccountKeyLike) × (instruction.program_id ≡ some k) × (text_of k ≡ program))
    ⊎ ((i : ℕ) × (instruction.program_id ≡ none)
        × (instruction.program_id_index ≡ some i)
        × (get_elem? keys i ≡ some program))

-- The instruction passes the key: one of its indexes is that of the key.
abbrev pub Passes : List String → Instruction → String → Type 0
Passes keys instruction key =
    (indexes : List ℕ) × (i : ℕ) × IsChosen instruction.accounts instruction.account_key_indexes
      indexes
    × Has i indexes
    × (get_elem? keys i ≡ some key)

-- The contents of the instruction begin with the discriminator, as bytes or in base 58.
abbrev pub BeginsWith : List ℕ → Instruction → Type 0
BeginsWith discriminator instruction =
    (bytes : List ℕ) × ((instruction.instruction_data ≡ some (data_bytes bytes))
      ⊎ ((text : String) × (instruction.instruction_data ≡ some (data_base58 text))
          × (decode_base58 (codes text) ≡ some bytes)))
    × IsPrefix discriminator bytes

-- A pull of the agent for the challenge.
pub record IsPull (discriminator : List ℕ) (program : String) (keys : List String)
    (challenge : PaymentChallenge) (instruction : Instruction) : Type 0 where
  pub calls : Calls keys instruction program
  pub address : Passes keys instruction challenge.address
  pub authority : Passes keys instruction challenge.authority
  pub destination : Passes keys instruction challenge.destination
  pub begins : BeginsWith discriminator instruction

-- A balance of the account at the index, in the mint if one is wanted.
abbrev pub IsOf : ℕ → Option String → TokenBalance → Type 0
IsOf index none entry = entry.account_index ≡ some index
IsOf index (some mint) entry = (entry.account_index ≡ some index) × (entry.mint ≡ some mint)

-- The balance of the account is the first of the entries that is one of it, or there is none.
abbrev pub IsBalance : List TokenBalance → ℕ → Option String → Option TokenBalance → Type 0
IsBalance entries index mint none = All (λ e. ¬ (IsOf index mint e)) entries
IsBalance entries index mint (some entry) =
    (before : List TokenBalance) × (after : List TokenBalance) × (entries
      ≡ before ++ (entry ∷ after))
    × All (λ e. ¬ (IsOf index mint e)) before
    × IsOf index mint entry

-- The amount of a balance: zero where there is none.
abbrev pub amount_of : Option TokenBalance → ℤ
amount_of none = pos 0
amount_of (some entry) = elim entry.amount [ none ↦ pos 0 | some amount ↦ amount ]

-- What the destination gained: its balance after the transaction less the one before, at the first
-- place of the destination among the keys, where one of the two is known.
pub record Gains (t : Transaction) (challenge : PaymentChallenge) (delta : ℤ) : Type 0 where
  pub earlier : List String
  pub later : List String
  pub placed : keys_of t ≡ earlier ++ (challenge.destination ∷ later)
  pub first : All (λ k. k ≢ challenge.destination) earlier
  pub old : Option TokenBalance
  pub new : Option TokenBalance
  pub was :
      IsBalance (or_else t.pre_token_balances []) (length earlier) challenge.wrapped_usdc_mint old
  pub is :
      IsBalance (or_else t.post_token_balances []) (length earlier) challenge.wrapped_usdc_mint new
  pub known : (old ≢ none) ⊎ (new ≢ none)
  pub gained : delta ≡ amount_of new -ℤ amount_of old

-- One of the instructions is the pull.
abbrev pub HasPull : List ℕ → String → Transaction → PaymentChallenge → Type 0
HasPull discriminator program t challenge =
    (instructions : List Instruction) × (instruction : Instruction) × IsChosen t.instructions
      t.compiled_instructions instructions
    × Has instruction instructions
    × IsPull discriminator program (keys_of t) challenge instruction

-- One of the messages of the log tells of the pull.
abbrev pub Logs : Transaction → Type 0
Logs t =
    (messages : List String) × (message : String) × (t.log_messages ≡ some messages)
    × Has message messages
    × IsPart (codes "Instruction: AgentPull") (codes message)

-- The transaction pays what the challenge asks for: it did not fail, names the three accounts, has
-- the pull among its instructions and in its log, and the destination gained at least the amount.
pub record Pays (chain : Chain) (t : Transaction) (challenge : PaymentChallenge) : Type 0 where
  pub succeeded : t.failed ≡ false
  pub destination : Has challenge.destination (keys_of t)
  pub address : Has challenge.address (keys_of t)
  pub authority : Has challenge.authority (keys_of t)
  pub pulls :
      HasPull chain.agent_pull_discriminator
        (or_else challenge.protocol_program chain.program)
        t
        challenge
  pub delta : ℤ
  pub amount : ℤ
  pub gains : Gains t challenge delta
  pub asked : parse_raw_amount (string challenge.amount) ≡ ok amount
  pub enough : amount ≤ℤ delta
  pub logged : Logs t
