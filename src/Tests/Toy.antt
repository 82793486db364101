-- ===== src/Tests/Toy.antt =====
-- A platform whose keys are numbers: a key's bytes are the number and 31 zeros, and the digest is
-- the message's first 32 bytes.
use vela_sdk.Prelude.{
  ℕ, ◌≡◌, refl, ◌∙◌, List, [], ◌∷◌, ◌++◌, length, take, replicate, ◌==◌, ==_iff, length-take,
  length-append, arith,
}
use vela_sdk.Accounts.Platform.{Platform, IsLawful}

abbrev toy_key : List ℕ → ℕ
toy_key [] = 0
toy_key (b ∷ bytes) = b

abbrev toy_sha256 : List ℕ → List ℕ
toy_sha256 m = take 32 (m ++ replicate 32 0)

instance abbrev pub toy_platform : Platform ℕ
toy_platform = record {
  of_bytes = toy_key;
  to_bytes = λ k. k ∷ replicate 31 0;
  to_base58 = λ k. "key";
  equals = λ a b. a == b;
  default_key = 0;
  of_base58 = λ text. 7;
  find_program_address = λ seeds program. (length seeds, 255);
  sha256 = toy_sha256;
}

length-toy_sha256 : (m : List ℕ) → length (toy_sha256 m) ≡ 32
length-toy_sha256 m =
    length-take 32 (m ++ replicate 32 0) ∙ omega (arith, length-append m (replicate 32 0))

pub toy_platform-IsLawful : IsLawful toy_platform
toy_platform-IsLawful = record {
  length-to_bytes = λ k. refl;
  of_bytes-to_bytes = λ k. refl;
  equals_iff = λ a b. ==_iff a b;
  length-sha256 = length-toy_sha256;
}
