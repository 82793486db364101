-- ===== src/Instructions/Idl/Binding.antt =====
-- When an instruction is taken apart as it was laid out: its accounts have the privileges that the
-- description asks for, and its bytes are the discriminator and the arguments.
use Prim.Native.String.{String}
use vela_sdk.Prelude.{
  ℕ, ◌≡◌, refl, ◌∙◌, Bool, true, false, not, ◌&&◌, ◌||◌, some, List, [], ◌∷◌, ◌++◌, length, All,
  arith, length-take, drop-append_length,
}
use vela_sdk.Bytes.{codes}
use vela_sdk.Bytes.Readers.{starts_with-append}
use vela_sdk.Accounts.Platform.{Platform, IsLawful, instruction_discriminator}
use vela_sdk.Instructions.{AccountMeta, TransactionInstruction}
use vela_sdk.Instructions.Idl.{
  IdlAccount, IdlInstruction, Value, decode_args, signs, writes, is_granted, bind_accounts,
  interpret,
}

or_right : (a b : Bool) → b ≡ true → (a || b) ≡ true
or_right a b h = ground arith

module _ {Key : Type 0} where
  -- Each account has, by itself, the privileges asked for.
  abbrev pub covers : List IdlAccount → List (AccountMeta Key) → Bool
  covers [] keys = true
  covers (account ∷ accounts) [] = false
  covers (account ∷ accounts) (m ∷ keys) =
      (not account.is_signer || m.is_signer)
      && ((not account.is_writable || m.is_writable) && covers accounts keys)

  abbrev pub named : List IdlAccount → List (AccountMeta Key) → List (String × Key)
  named [] keys = []
  named (account ∷ accounts) [] = []
  named (account ∷ accounts) (m ∷ keys) = (account.name, m.pubkey) ∷ named accounts keys

module _ {Key : Type 0} ⦃platform : Platform Key⦄ where
  -- Each account has the privileges asked for, by some entry for its key.
  abbrev pub AreGranted : List (AccountMeta Key) → List IdlAccount → List (AccountMeta Key) → Type 0
  AreGranted all [] keys = Unit
  AreGranted all (account ∷ accounts) [] = ⊥
  AreGranted all (account ∷ accounts) (m ∷ keys) =
      (is_granted all account m ≡ true) × AreGranted all accounts keys

  abbrev pub GrantsOwn : List (AccountMeta Key) → AccountMeta Key → Type 0
  GrantsOwn all m =
      (m.is_signer ≡ true → signs all m.pubkey ≡ true)
      × (m.is_writable ≡ true → writes all m.pubkey ≡ true)

  All-GrantsOwn-cons :
      (x : AccountMeta Key) (all keys : List (AccountMeta Key))
      → All (GrantsOwn all) keys
      → All (GrantsOwn (x ∷ all)) keys
  All-GrantsOwn-cons x all [] h = tt
  All-GrantsOwn-cons x all (m ∷ keys) (here, there) = (
    (λ s. or_right _ _ (here.0 s), λ w. or_right _ _ (here.1 w)),
    All-GrantsOwn-cons x all keys there,
  )

  pub All-GrantsOwn :
      (keys : List (AccountMeta Key)) → IsLawful platform → All (GrantsOwn keys) keys
  All-GrantsOwn [] lawful = tt
  All-GrantsOwn (m ∷ keys) lawful =
      let same = (lawful.equals_iff m.pubkey m.pubkey).1 refl in
      (
        ((λ s. rw (same, s) refl), (λ w. rw (same, w) refl)),
        All-GrantsOwn-cons m keys keys (All-GrantsOwn keys lawful),
      )

  covers-AreGranted :
      (all : List (AccountMeta Key)) (accounts : List IdlAccount) (keys : List (AccountMeta Key))
      → All (GrantsOwn all) keys
      → covers accounts keys ≡ true
      → AreGranted all accounts keys
  covers-AreGranted all [] keys own h = tt
  covers-AreGranted all (account ∷ accounts) [] own h = cc
  covers-AreGranted all (account ∷ accounts) (m ∷ keys) (here, there) h =
      (granted, covers-AreGranted all accounts keys there (ground arith))
    where
      granted : is_granted all account m ≡ true
      granted = ground (arith, here.0, here.1)

  bind_accounts-named :
      (all : List (AccountMeta Key)) (accounts : List IdlAccount) (keys : List (AccountMeta Key))
      → AreGranted all accounts keys
      → bind_accounts all accounts keys ≡ some (named accounts keys)
  unfolding bind_accounts
  bind_accounts-named all [] keys h = refl
  bind_accounts-named all (account ∷ accounts) [] h = absurd h
  bind_accounts-named all (account ∷ accounts) (m ∷ keys) (here, there) =
      rw (bind_accounts-named all accounts keys there) rw here refl

  pub length-instruction_discriminator :
      (name : String) → IsLawful platform → length (instruction_discriminator platform name) ≡ 8
  unfolding instruction_discriminator
  length-instruction_discriminator name lawful =
      length-take 8 _ ∙ omega (arith, lawful.length-sha256 (codes "global:" ++ codes name))

  -- With the privileges granted in the message.
  pub interpret_granted :
      (idl : IdlInstruction) (ix : TransactionInstruction Key) (args : List ℕ) (values : List Value)
      → IsLawful platform
      → ix.contents ≡ instruction_discriminator platform idl.name ++ args
      → AreGranted ix.keys idl.accounts ix.keys
      → decode_args idl.args args ≡ some values
      → interpret idl ix ≡ some (named idl.accounts ix.keys, values)
  unfolding interpret
  interpret_granted idl ix args values lawful h granted decoded =
      rw h rw (starts_with-append (instruction_discriminator platform idl.name) args) rw
        (bind_accounts-named ix.keys idl.accounts ix.keys granted) rw h rw
        (drop-append_length 8 (instruction_discriminator platform idl.name) args
          (length-instruction_discriminator idl.name lawful))
        rw decoded refl

  pub interpret_lem :
      (idl : IdlInstruction) (ix : TransactionInstruction Key) (args : List ℕ) (values : List Value)
      → IsLawful platform
      → ix.contents ≡ instruction_discriminator platform idl.name ++ args
      → covers idl.accounts ix.keys ≡ true
      → decode_args idl.args args ≡ some values
      → interpret idl ix ≡ some (named idl.accounts ix.keys, values)
  interpret_lem idl ix args values lawful h covered decoded =
      interpret_granted idl ix args values lawful h
        (covers-AreGranted ix.keys idl.accounts ix.keys (All-GrantsOwn ix.keys lawful) covered)
        decoded
