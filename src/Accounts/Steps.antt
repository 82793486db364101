-- ===== src/Accounts/Steps.antt =====
-- One step over a written part of an account's data: what the reader returns at the offset of the
-- part, and what stands behind the part. `drop o bytes ≡ part ++ rest` says that it stands there.
use vela_sdk.Prelude.{
  ℕ, ◌+◌, ◌^◌, ◌<◌, ◌≡◌, refl, ◌∙◌, List, [], ◌∷◌, ◌++◌, ℤ, length, drop, arith, drop_step,
}
use vela_sdk.Prelude.Result.{ok}
use vela_sdk.Bytes.{
  subarray, le_bytes, u64_le, i64_le, read_u8, read_u32_le, read_u64_le, read_i64_le,
}
use vela_sdk.Bytes.Integers.{IsU64, IsI64, length-le_bytes, length-u64_le, length-i64_le}
use vela_sdk.Bytes.Readers.{
  read_u8_part, read_u32_le_part, read_u64_le_part, read_i64_le_part, subarray_part,
}
use vela_sdk.Accounts.Platform.{Platform, IsLawful, read_key, read_key_part}

module _ (bytes : List ℕ) {rest : List ℕ} where
  pub u8_step :
      (o b : ℕ)
      → drop o bytes ≡ (b ∷ []) ++ rest
      → (read_u8 bytes o ≡ ok b) × (drop (o + 1) bytes ≡ rest)
  u8_step o b h = (read_u8_part bytes rest o b h, drop_step bytes o 1 (b ∷ []) rest h refl)

  pub u32_step :
      (o n : ℕ)
      → drop o bytes ≡ le_bytes 4 n ++ rest
      → n < 2 ^ 32
      → (read_u32_le bytes o ≡ ok n) × (drop (o + 4) bytes ≡ rest)
  u32_step o n h k = (
    read_u32_le_part bytes rest o n h k,
    drop_step bytes o 4 (le_bytes 4 n) rest h (length-le_bytes 4 n),
  )

  pub u64_step :
      (o : ℕ) (v : ℤ)
      → drop o bytes ≡ u64_le v ++ rest
      → IsU64 v
      → (read_u64_le bytes o ≡ ok v) × (drop (o + 8) bytes ≡ rest)
  u64_step o v h k =
      (read_u64_le_part bytes rest o v h k, drop_step bytes o 8 (u64_le v) rest h (length-u64_le v))

  pub i64_step :
      (o : ℕ) (v : ℤ)
      → drop o bytes ≡ i64_le v ++ rest
      → IsI64 v
      → (read_i64_le bytes o ≡ ok v) × (drop (o + 8) bytes ≡ rest)
  i64_step o v h k =
      (read_i64_le_part bytes rest o v h k, drop_step bytes o 8 (i64_le v) rest h (length-i64_le v))

  pub bytes_step :
      (o n : ℕ) (part : List ℕ)
      → drop o bytes ≡ part ++ rest
      → length part ≡ n
      → (subarray bytes o (o + n) ≡ part) × (drop (o + n) bytes ≡ rest)
  bytes_step o n part h k = (
    subarray_part bytes part rest o (o + n) h (k ∙ omega arith),
    drop_step bytes o n part rest h k,
  )

module _ {Key : Type 0} ⦃platform : Platform Key⦄ (lawful : IsLawful platform) (bytes : List ℕ)
    {rest : List ℕ} where
  pub key_step :
      (o : ℕ) (k : Key)
      → drop o bytes ≡ platform.to_bytes k ++ rest
      → (read_key bytes o ≡ k) × (drop (o + 32) bytes ≡ rest)
  key_step o k h = (
    read_key_part lawful bytes rest o k h,
    drop_step bytes o 32 (platform.to_bytes k) rest h (lawful.length-to_bytes k),
  )
