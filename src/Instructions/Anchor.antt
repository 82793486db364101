-- ===== src/Instructions/Anchor.antt =====
-- The instructions that Anchor lays out: src/instructions hands it a method's name, the arguments and
-- the accounts by their names, and Anchor orders them by the program's interface. The program with
-- its fetches is a parameter.
use Prim.Native.String.{String}
use vela_sdk.Prelude.{ℕ, ◌≡◌, not, ◌&&◌, Bool, Option, List, ℤ}
use vela_sdk.Prelude.Result.{Result, ok, err, ◌>>◌, throw_if}
use vela_sdk.Errors.{SdkError}
use vela_sdk.Accounts.Platform.{Platform}
use vela_sdk.Accounts.Pda.{associated_token_address}
use vela_sdk.Accounts.Plans.{Failure, PlanError, AnchorVelaPlan, AnchorVelaUsagePlan}
use vela_sdk.Instructions.{TransactionInstruction}

-- An argument of a method: a number, a list of services with their limits, bytes, a key, a name.
pub data AnchorArg (Key : Type 0) : Type 0 where
  bn : ℤ → AnchorArg Key
  optional_bn : Option ℤ → AnchorArg Key
  services : List (Key × ℤ) → AnchorArg Key
  optional_services : Option (List (Key × ℤ)) → AnchorArg Key
  bytes : List ℕ → AnchorArg Key
  optional_bytes : Option (List ℕ) → AnchorArg Key
  variant : Option String → AnchorArg Key
  optional_key : Option Key → AnchorArg Key
  ciphertexts : List (List ℕ) → AnchorArg Key
  -- The upper bound, the rate and the padding of each tier.
  pricing_tiers : List (ℤ × ℤ × ℤ) → AnchorArg Key
  -- The rail and the decimals of a token, and what is changed of one.
  token_settings : String → ℤ → AnchorArg Key
  token_changes : Option Bool → Option Key → AnchorArg Key

-- `program.methods.<method>(<args>).accounts(<accounts>)`
pub record AnchorCall (Key : Type 0) : Type 0 where
  pub method : String
  pub args : List (AnchorArg Key)
  pub accounts : List (String × Key)

-- What a fetch of the ProtocolConfig account gives, as far as the builders read it.
pub record AnchorProtocolConfig (Key : Type 0) : Type 0 where
  pub wrapped_usdc_mint : Key
  pub wrapping_vault : Key
  pub transfer_hook_program_id : Option Key

pub record AnchorProgram (Key : Type 0) : Type 0 where
  pub program_id : Key
  pub fetch_protocol_config : Key → Result String (AnchorProtocolConfig Key)
  pub fetch_mandate_counter : Key → Result String (Option ℤ)
  pub fetch_plan : Key → Result Failure (AnchorVelaPlan Key)
  pub fetch_usage_plan : Key → Result Failure (AnchorVelaUsagePlan Key)
  pub instruction : AnchorCall Key → Result String (TransactionInstruction Key)
  -- `PublicKey.isOnCurve` of a key's bytes.
  pub is_on_curve : Key → Bool

pub data BuildError (Key : Type 0) : Type 0 where
  -- What is required and was not given.
  required : String → BuildError Key
  -- The override, and what it should have been.
  hook_mismatch mandate_mismatch : Key → Key → BuildError Key
  owner_off_curve : Key → BuildError Key
  read_failed : SdkError → BuildError Key
  plan_failed : PlanError → BuildError Key
  anchor_failed : String → BuildError Key
  max_pulls_too_low : ℤ → BuildError Key
  ciphertext_count : ℕ → BuildError Key
  -- What has the wrong number of bytes, and how many.
  wrong_length : String → ℕ → BuildError Key
  tier_count_out_of_range : ℤ → BuildError Key
  -- A `TypeError` of the language, for a value that is not there.
  type_error : BuildError Key
  endpoint_empty : BuildError Key
  endpoint_too_long : ℕ → BuildError Key

-- A result with its error under another type.
unfoldable pub with_error : {E F A : Type 0} → (E → F) → Result E A → Result F A
with_error f (ok a) = ok a
with_error f (err e) = err (f e)

pub with_error-eq-ok :
    {E F A : Type 0} (f : E → F) (r : Result E A) {a : A} → with_error f r ≡ ok a → r ≡ ok a
unfolding with_error
with_error-eq-ok f (ok a) h = cc
with_error-eq-ok f (err e) h = cc

module _ {Key : Type 0} ⦃platform : Platform Key⦄ (program : AnchorProgram Key) where
  -- `getAssociatedTokenAddress` with its guard.
  unfoldable pub get_associated_token_address :
      (mint owner : Key) → Bool → Key → Result (BuildError Key) Key
  get_associated_token_address mint owner allow_owner_off_curve token_program = do
    throw_if (not allow_owner_off_curve && not (program.is_on_curve owner)) (owner_off_curve owner)
    ok (associated_token_address mint owner token_program)
