-- ===== src/Accounts/Platform.antt =====
-- What the account code takes from @solana/web3.js and @noble/hashes: the type of public keys with
-- the operations that it calls, and SHA-256. Then the parts of an account's data that it reads.
use Prim.Native.String.{String}
use vela_sdk.Prelude.{
  ℕ, ◌+◌, ◌≡◌, ap, ◌∙◌, Bool, true, ◌↔◌, List, ◌++◌, length, take, drop, arith, length-take,
}
use vela_sdk.Bytes.{codes, subarray}
use vela_sdk.Bytes.Readers.{subarray_part}

pub record Platform (Key : Type 0) : Type 0 where
  -- `new PublicKey(bytes)`, `key.toBytes()`, `key.toBase58()`, `a.equals(b)`, `PublicKey.default`.
  pub of_bytes : List ℕ → Key
  pub to_bytes : Key → List ℕ
  pub to_base58 : Key → String
  pub equals : Key → Key → Bool
  pub default_key : Key
  -- `new PublicKey(text)` and `PublicKey.findProgramAddressSync(seeds, programId)`.
  pub of_base58 : String → Key
  pub find_program_address : List (List ℕ) → Key → Key × ℕ
  pub sha256 : List ℕ → List ℕ

-- Documented behaviour: a key is 32 bytes and is rebuilt from them, `equals` compares keys, and a
-- SHA-256 digest has 32 bytes.
pub record IsLawful {Key : Type 0} (platform : Platform Key) : Type 0 where
  pub length-to_bytes : (k : Key) → length (platform.to_bytes k) ≡ 32
  pub of_bytes-to_bytes : (k : Key) → platform.of_bytes (platform.to_bytes k) ≡ k
  pub equals_iff : (a b : Key) → (platform.equals a b ≡ true) ↔ (a ≡ b)
  pub length-sha256 : (m : List ℕ) → length (platform.sha256 m) ≡ 32

module _ {Key : Type 0} ⦃platform : Platform Key⦄ where
  -- `new PublicKey(data.subarray(offset, offset + 32))`
  unfoldable pub read_key : List ℕ → ℕ → Key
  read_key bytes offset = platform.of_bytes (subarray bytes offset (offset + 32))

  pub read_key_part :
      (lawful : IsLawful platform) (bytes rest : List ℕ) (offset : ℕ) (k : Key)
      → drop offset bytes ≡ platform.to_bytes k ++ rest
      → read_key bytes offset ≡ k
  unfolding read_key
  read_key_part lawful bytes rest offset k h =
      ap platform.of_bytes (
        subarray_part bytes (platform.to_bytes k) rest offset (offset + 32) h
          (lawful.length-to_bytes k ∙ omega arith))
      ∙ lawful.of_bytes-to_bytes k

module _ {Key : Type 0} (platform : Platform Key) where
  -- `accountDiscriminator(name)`, src/browser/bytes.ts
  unfoldable pub account_discriminator : String → List ℕ
  account_discriminator name = take 8 (platform.sha256 (codes "account:" ++ codes name))

  unfoldable pub instruction_discriminator : String → List ℕ
  instruction_discriminator name = take 8 (platform.sha256 (codes "global:" ++ codes name))

  pub length-account_discriminator :
      (name : String) → IsLawful platform → length (account_discriminator name) ≡ 8
  unfolding account_discriminator
  length-account_discriminator name lawful =
      length-take 8 _ ∙ omega (arith, lawful.length-sha256 (codes "account:" ++ codes name))
