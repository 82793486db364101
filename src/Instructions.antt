-- ===== src/Instructions.antt =====
-- Instructions for the on-chain program, src/instructions: the types of @solana/web3.js that the
-- builders return, the programs they name, and the writers of Node's Buffer that they call.
pub mod Idl
pub mod Streams
pub mod PlanChanges
pub mod Anchor
pub mod Pulls
pub mod Agents
pub mod Subscriptions
pub mod Computations
pub mod Merchants
use vela_sdk.Prelude.{
  ℕ, ◌+◌, ◌^◌, Bool, not, ◌&&◌, Option, none, some, List, [], ◌∷◌, ◌++◌, ℤ, pos, negsuc, ◌-◌,
  length, take, drop, ltb, replicate,
}
use vela_sdk.Prelude.Int.{leb_ℤ, ltb_ℤ}
use vela_sdk.Prelude.Result.{ok, err, ◌>>=◌, ◌>>◌, throw_if}
use vela_sdk.Errors.{Checked, value_out_of_range, write_out_of_range}
use vela_sdk.Bytes.{u64_mod, u64_le, le_bytes, as_uint64, i64_le}
use vela_sdk.Accounts.Platform.{Platform}

-- `AccountMeta` and `TransactionInstruction` of @solana/web3.js.
pub record AccountMeta (Key : Type 0) : Type 0 where
  pub pubkey : Key
  pub is_signer : Bool
  pub is_writable : Bool

pub record TransactionInstruction (Key : Type 0) : Type 0 where
  pub program_id : Key
  pub keys : List (AccountMeta Key)
  pub contents : List ℕ

abbrev pub meta : {Key : Type 0} → Key → Bool → Bool → AccountMeta Key
meta pubkey is_signer is_writable = record {
  pubkey = pubkey;
  is_signer = is_signer;
  is_writable = is_writable;
}

module _ {Key : Type 0} ⦃platform : Platform Key⦄ where
  abbrev pub system_program_id : Key
  system_program_id = platform.of_base58 "11111111111111111111111111111111"

  abbrev pub token_program_id : Key
  token_program_id = platform.of_base58 "TokenkegQfeZyiNwAJbNbGKPFXCWuBvf9Ss623VQ5DA"

  -- The default of `TRANSFER_HOOK_PROGRAM_ID`, on the default cluster.
  abbrev pub transfer_hook_program_id : Key
  transfer_hook_program_id = platform.of_base58 "3agVoFp4NZFuKbVqCV8HbjSZn1xW4Utk4U1Wir3TKjZ9"

-- A part of a buffer written over what is there.
unfoldable pub overwrite : List ℕ → ℕ → List ℕ → List ℕ
overwrite buffer offset part = take offset buffer ++ (part ++ drop (offset + length part) buffer)

-- `buffer.writeBigUInt64LE(value, offset)` and `buffer.writeUInt32LE(value, offset)` refuse a value
-- that does not fit, and then a place outside the buffer.
unfoldable pub write_u64_le : List ℕ → ℤ → ℕ → Checked (List ℕ)
write_u64_le buffer value offset = do
  throw_if (not (leb_ℤ (pos 0) value && ltb_ℤ value (pos u64_mod))) (value_out_of_range value)
  throw_if (ltb (length buffer) (offset + 8)) (write_out_of_range offset 8 (length buffer))
  ok (overwrite buffer offset (u64_le value))

unfoldable pub write_u32_le : List ℕ → ℤ → ℕ → Checked (List ℕ)
write_u32_le buffer value offset = do
  throw_if (not (leb_ℤ (pos 0) value && ltb_ℤ value (pos (2 ^ 32)))) (value_out_of_range value)
  throw_if (ltb (length buffer) (offset + 4)) (write_out_of_range offset 4 (length buffer))
  ok (overwrite buffer offset (le_bytes 4 (as_uint64 value)))

-- `buffer.writeBigInt64LE(value, 0)` into eight bytes.
unfoldable pub write_i64_le : ℤ → Checked (List ℕ)
write_i64_le value = do
  throw_if (not (leb_ℤ (negsuc (2 ^ 63 - 1)) value && ltb_ℤ value (pos (2 ^ 63))))
      (value_out_of_range value)
  ok (i64_le value)
