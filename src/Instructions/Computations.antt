-- ===== src/Instructions/Computations.antt =====
-- The accounts and the offsets of the encrypted computations of Arcium, which
-- src/instructions/request-validation.ts, request-billing-record.ts and request-usage-computation.ts
-- each derive themselves.
pub mod Offsets
pub mod Requests
use Prim.Native.String.{String}
use vela_sdk.Prelude.{
  ℕ, ◌+◌, Bool, true, false, not, ◌&&◌, ◌||◌, Option, none, some, List, [], ◌∷◌, ◌++◌, ℤ, pos,
  length, take, replicate, if◌then◌else◌, ◌==◌,
}
use vela_sdk.Prelude.Int.{leb_ℤ, ltb_ℤ, eqb_ℤ}
use vela_sdk.Prelude.Result.{Result, ok, err, ◌>>=◌, ◌>>◌, throw_if}
use vela_sdk.Errors.{Checked}
use vela_sdk.Bytes.{codes, le_bytes, of_le_bytes, read_u32_le, read_u64_le, subarray}
use vela_sdk.Accounts.Platform.{Platform}
use vela_sdk.Accounts.Pda
use vela_sdk.Instructions.{
  TransactionInstruction, system_program_id, write_u32_le, write_u64_le, write_i64_le,
}
use vela_sdk.Instructions.Anchor.{
  AnchorArg, bn, bytes, ciphertexts, AnchorCall, AnchorProgram, BuildError, ciphertext_count,
  wrong_length, tier_count_out_of_range, read_failed, anchor_failed, with_error,
}

-- The number of the cluster in four bytes, and the offset in eight.
abbrev pub uint32_bytes : ℤ → Checked (List ℕ)
uint32_bytes value = write_u32_le (replicate 4 0) value 0

abbrev pub uint64_bytes : ℤ → Checked (List ℕ)
uint64_bytes value = write_u64_le (replicate 8 0) value 0

module _ {Key : Type 0} ⦃platform : Platform Key⦄ where
  abbrev pub arcium_program_id : Key
  arcium_program_id = platform.of_base58 "Arcj82pX7HxYKLR92qvgZUAd7vGS1k4hQvAFcPATFdEQ"

  abbrev pub arcium_address : List (List ℕ) → Key
  arcium_address seeds = (platform.find_program_address seeds arcium_program_id).0

  abbrev pub clock_account : Key
  clock_account = arcium_address (codes "ClockAccount" ∷ [])

  abbrev pub fee_pool_account : Key
  fee_pool_account = arcium_address (codes "FeePool" ∷ [])

  unfoldable pub effective_mxe_program_id : Option Key → Key → Key
  effective_mxe_program_id none program_id = program_id
  effective_mxe_program_id (some configured) program_id =
      if platform.equals configured system_program_id then program_id else configured

  abbrev pub mxe_pda : Key → Key
  mxe_pda mxe_program_id =
      arcium_address (codes "MXEAccount" ∷ platform.to_bytes mxe_program_id ∷ [])

  -- The offset is read as a number and written back as the same four bytes.
  unfoldable pub comp_def_pda : String → Key → Key
  comp_def_pda circuit mxe_program_id = arcium_address (
      codes "ComputationDefinitionAccount"
      ∷ platform.to_bytes mxe_program_id
      ∷ le_bytes 4 (of_le_bytes (take 4 (platform.sha256 (codes circuit))))
      ∷ [])

  abbrev pub sign_pda : Key → Key
  sign_pda program_id =
      (platform.find_program_address (codes "ArciumSignerAccount" ∷ []) program_id).0

  -- The first eight bytes of an address as a number.
  unfoldable pub offset_of : Key → Checked ℤ
  offset_of key = read_u64_le (subarray (platform.to_bytes key) 0 8) 0

  unfoldable pub derive_validation_computation_offset :
      (mandate : Key) → (next_payment_due request_nonce : ℤ) → Key → Checked ℤ
  derive_validation_computation_offset mandate next_payment_due request_nonce program_id = do
    due ← write_i64_le next_payment_due
    nonce ← uint64_bytes request_nonce
    offset_of
        (platform.find_program_address
          (codes "validate_mandate" ∷ platform.to_bytes mandate ∷ due ∷ nonce ∷ []) program_id).0

  unfoldable pub derive_billing_computation_offset :
      (mandate : Key) → (pulls_executed request_nonce : ℤ) → Key → Checked ℤ
  derive_billing_computation_offset mandate pulls_executed request_nonce program_id = do
    pulls ← uint64_bytes pulls_executed
    nonce ← uint64_bytes request_nonce
    offset_of
        (platform.find_program_address
          (codes "record_billing_event" ∷ platform.to_bytes mandate ∷ pulls ∷ nonce ∷ [])
          program_id).0

  unfoldable pub derive_usage_computation_offset :
      (mandate : Key) → (period_start request_nonce : ℤ) → Key → Checked ℤ
  derive_usage_computation_offset mandate period_start request_nonce program_id = do
    start ← write_i64_le period_start
    nonce ← uint64_bytes request_nonce
    offset_of
        (platform.find_program_address
          (codes "usage" ∷ platform.to_bytes mandate ∷ start ∷ nonce ∷ []) program_id).0

  -- The accounts of Arcium, which begin each of the three calls.
  unfoldable pub arcium_accounts :
      (payer program_id : Key)
      → (configured_mxe : Option Key) → (cluster offset : List ℕ) → String
      → List (String × Key)
  arcium_accounts payer program_id configured_mxe cluster offset circuit =
      let mxe_program_id = effective_mxe_program_id configured_mxe program_id in
      ("payer", payer)
      ∷ ("config", (Pda.config program_id).0)
      ∷ ("mxeAccount", mxe_pda mxe_program_id)
      ∷ ("signPdaAccount", sign_pda program_id)
      ∷ ("mempoolAccount", arcium_address (codes "Mempool" ∷ cluster ∷ []))
      ∷ ("executingPool", arcium_address (codes "Execpool" ∷ cluster ∷ []))
      ∷ ("computationAccount", arcium_address (codes "ComputationAccount" ∷ cluster ∷ offset ∷ []))
      ∷ ("compDefAccount", comp_def_pda circuit mxe_program_id)
      ∷ ("clusterAccount", arcium_address (codes "Cluster" ∷ cluster ∷ []))
      ∷ ("poolAccount", fee_pool_account)
      ∷ ("clockAccount", clock_account)
      ∷ []

  abbrev pub closing_accounts : List (String × Key)
  closing_accounts =
      ("systemProgram", system_program_id) ∷ ("arciumProgram", arcium_program_id) ∷ []
