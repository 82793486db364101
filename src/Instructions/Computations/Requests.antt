-- ===== src/Instructions/Computations/Requests.antt =====
-- The requests for computations: the builders of src/instructions/request-validation.ts,
-- request-billing-record.ts and request-usage-computation.ts. What they fetch besides the accounts of
-- the program is a parameter.
use Prim.Native.String.{String}
use vela_sdk.Prelude.{
  ℕ, not, ◌||◌, Option, List, [], ◌∷◌, ◌++◌, ℤ, pos, length, if◌then◌else◌, ◌==◌,
}
use vela_sdk.Prelude.Int.{ltb_ℤ, eqb_ℤ}
use vela_sdk.Prelude.Result.{Result, ok, ◌>>=◌, ◌>>◌, throw_if}
use vela_sdk.Accounts.Platform.{Platform}
use vela_sdk.Accounts.Pda
use vela_sdk.Instructions.{TransactionInstruction}
use vela_sdk.Instructions.Anchor.{
  bn, bytes, ciphertexts, AnchorCall, AnchorProgram, BuildError, ciphertext_count, wrong_length,
  tier_count_out_of_range, read_failed, anchor_failed, with_error,
}
use vela_sdk.Instructions.Computations.{
  uint32_bytes, uint64_bytes, arcium_accounts, closing_accounts,
}

-- What the builders fetch: the cluster and the program of the configuration, the pulls of a mandate,
-- the tiers of a plan and the start of a report's period.
pub record ComputationFetches (Key : Type 0) : Type 0 where
  pub fetch_cluster : Key → Result String (ℤ × Option Key)
  pub fetch_pulls_executed : Key → Result String ℤ
  pub fetch_tier_count : Key → Result String ℤ
  pub fetch_period_start : Key → Result String ℤ

pub record RequestValidationParams (Key : Type 0) : Type 0 where
  pub payer : Key
  pub mandate_address : Key
  pub plan_address : Key
  pub next_payment_due : ℤ
  pub computation_offset : ℤ
  pub ciphertext : List (List ℕ)
  pub pub_key : List ℕ
  pub nonce : ℤ

pub record RequestBillingRecordParams (Key : Type 0) : Type 0 where
  pub payer : Key
  pub mandate_address : Key
  pub plan_address : Key
  pub computation_offset : ℤ

pub record RequestUsageComputationParams (Key : Type 0) : Type 0 where
  pub payer : Key
  pub mandate_address : Key
  pub usage_plan_address : Key
  pub usage_report_address : Key
  pub computation_offset : ℤ

-- The instruction, the account that the computation writes to, the state of the request, and the
-- offset.
pub record RequestResult (Key : Type 0) : Type 0 where
  pub instruction : TransactionInstruction Key
  pub written_address : Key
  pub request_state_address : Key
  pub computation_offset : ℤ

module _ {Key : Type 0} ⦃platform : Platform Key⦄ where
  -- Each element of the ciphertext has 32 bytes.
  unfoldable pub check_elements : List (List ℕ) → Result (BuildError Key) (Unit {0})
  check_elements [] = ok tt
  check_elements (element ∷ rest) = do
    throw_if (not (length element == 32)) (wrong_length "ciphertext" (length element))
    check_elements rest

  unfoldable pub check_ciphertext : List (List ℕ) → List ℕ → Result (BuildError Key) (Unit {0})
  check_ciphertext ciphertext pub_key = do
    throw_if (not (length ciphertext == 8)) (ciphertext_count (length ciphertext))
    check_elements ciphertext
    throw_if (not (length pub_key == 32)) (wrong_length "pubKey" (length pub_key))

  -- The circuit for a number of tiers.
  unfoldable pub usage_circuit : ℤ → Result (BuildError Key) String
  usage_circuit tier_count = do
    throw_if (ltb_ℤ tier_count (pos 1) || ltb_ℤ (pos 5) tier_count)
        (tier_count_out_of_range tier_count)
    ok (if eqb_ℤ tier_count (pos 1) then "usage_charge_v2" else "tiered_pricing_v2")

module _ {Key : Type 0} ⦃platform : Platform Key⦄ (program : AnchorProgram Key)
    (fetches : ComputationFetches Key) where
  abbrev pub cluster_of : Result (BuildError Key) (ℤ × Option Key)
  cluster_of = with_error anchor_failed (fetches.fetch_cluster (Pda.config program.program_id).0)

  abbrev pub arcium_bytes : (cluster_id offset : ℤ) → Result (BuildError Key) (List ℕ × List ℕ)
  arcium_bytes cluster_id offset = do
    cluster ← with_error read_failed (uint32_bytes cluster_id)
    offset ← with_error read_failed (uint64_bytes offset)
    ok (cluster, offset)

  unfoldable pub build_request_validation :
      RequestValidationParams Key → Result (BuildError Key) (RequestResult Key)
  build_request_validation params = do
    let program_id = program.program_id
    check_ciphertext params.ciphertext params.pub_key
    config ← cluster_of
    arcium ← arcium_bytes config.0 params.computation_offset
    let pull_approval = (Pda.approval params.mandate_address program_id).0
    let request_state =
        (Pda.arcium_validation_request params.mandate_address params.next_payment_due program_id).0
    instruction ← with_error anchor_failed (
        program.instruction (record {
          method = "requestValidation";
          args =
              bn params.computation_offset
              ∷ bn params.next_payment_due
              ∷ ciphertexts params.ciphertext
              ∷ bytes params.pub_key
              ∷ bn params.nonce
              ∷ [];
          accounts =
              arcium_accounts params.payer program_id config.1 arcium.0 arcium.1
                "validate_mandate_v2"
              ++ (("plan", params.plan_address)
                  ∷ ("mandate", params.mandate_address)
                  ∷ ("pullApproval", pull_approval)
                  ∷ ("requestState", request_state)
                  ∷ closing_accounts);
        }))
    ok (record {
      instruction = instruction;
      written_address = pull_approval;
      request_state_address = request_state;
      computation_offset = params.computation_offset;
    })

  unfoldable pub build_request_billing_record :
      RequestBillingRecordParams Key → Result (BuildError Key) (RequestResult Key)
  build_request_billing_record params = do
    let program_id = program.program_id
    config ← cluster_of
    arcium ← arcium_bytes config.0 params.computation_offset
    pulls ← with_error anchor_failed (fetches.fetch_pulls_executed params.mandate_address)
    let billing_event = (Pda.billing params.mandate_address pulls program_id).0
    let request_state =
        (Pda.arcium_billing_record_request params.mandate_address pulls program_id).0
    instruction ← with_error anchor_failed (
        program.instruction (record {
          method = "requestBillingRecord";
          args = bn params.computation_offset ∷ bn pulls ∷ [];
          accounts =
              arcium_accounts params.payer program_id config.1 arcium.0 arcium.1
                "record_billing_event_v2"
              ++ (("plan", params.plan_address)
                  ∷ ("mandate", params.mandate_address)
                  ∷ ("billingEvent", billing_event)
                  ∷ ("requestState", request_state)
                  ∷ closing_accounts);
        }))
    ok (record {
      instruction = instruction;
      written_address = billing_event;
      request_state_address = request_state;
      computation_offset = params.computation_offset;
    })

  unfoldable pub usage_call :
      RequestUsageComputationParams Key
      → (configured_mxe : Option Key) → (cluster offset : List ℕ) → String
      → (pull_approval request_state : Key) → AnchorCall Key
  usage_call params configured_mxe cluster offset circuit pull_approval request_state = record {
    method = "requestUsageComputation";
    args = bn params.computation_offset ∷ [];
    accounts =
        arcium_accounts params.payer program.program_id configured_mxe cluster offset circuit
        ++ (("usagePlan", params.usage_plan_address)
            ∷ ("mandate", params.mandate_address)
            ∷ ("usageReport", params.usage_report_address)
            ∷ ("pullApproval", pull_approval)
            ∷ ("requestState", request_state)
            ∷ closing_accounts);
  }

  unfoldable pub build_request_usage_computation :
      RequestUsageComputationParams Key → Result (BuildError Key) (RequestResult Key)
  build_request_usage_computation params = do
    let program_id = program.program_id
    config ← cluster_of
    tier_count ← with_error anchor_failed (fetches.fetch_tier_count params.usage_plan_address)
    circuit ← usage_circuit tier_count
    period_start ← with_error anchor_failed (fetches.fetch_period_start params.usage_report_address)
    arcium ← arcium_bytes config.0 params.computation_offset
    let pull_approval = (Pda.approval params.mandate_address program_id).0
    let request_state =
        (Pda.arcium_usage_computation_request params.mandate_address period_start program_id).0
    instruction ← with_error anchor_failed (
        program.instruction
          (usage_call params config.1 arcium.0 arcium.1 circuit pull_approval request_state))
    ok (record {
      instruction = instruction;
      written_address = pull_approval;
      request_state_address = request_state;
      computation_offset = params.computation_offset;
    })
