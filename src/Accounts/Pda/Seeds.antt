-- ===== src/Accounts/Pda/Seeds.antt =====
-- The seeds that `PDAFactory` of src/accounts/pda.ts hands over for the mandates of every kind, and
-- the bytes that the runtime hashes, which are the seeds joined.
use vela_sdk.Prelude.{
  ℕ, ◌≡◌, ◌↔◌, refl, sym, ap, ap₂, ◌∙◌, List, [], ◌∷◌, ◌++◌, ℤ, pos, length, arith, length-append,
}
use vela_sdk.Bytes.{codes, u64_le, of_le_bytes}
use vela_sdk.Bytes.Integers.{IsU64, of_le_bytes-u64_le, length-u64_le}
use vela_sdk.Accounts.Platform.{Platform, IsLawful}
use vela_sdk.Accounts.Pda

-- A mandate, a stream, a mandate of the first version and an agent mandate, by what is in the seeds.
pub data Owner (Key : Type 0) : Type 0 where
  of_mandate : Key → Key → ℤ → Owner Key
  of_stream : Key → Key → ℤ → Owner Key
  of_mandate_v1 : Key → Key → Owner Key
  of_agent_mandate : Key → Key → Owner Key

abbrev pub IsInRange : {Key : Type 0} → Owner Key → Type 0
IsInRange (of_mandate subscriber merchant index) = IsU64 index
IsInRange (of_stream subscriber merchant index) = IsU64 index
IsInRange (of_mandate_v1 subscriber plan) = Unit
IsInRange (of_agent_mandate authority agent) = Unit

abbrev pub join : List (List ℕ) → List ℕ
join [] = []
join (seed ∷ seeds) = seed ++ join seeds

cons-injective : (x y : ℕ) (c d : List ℕ) → x ∷ c ≡ y ∷ d → (x ≡ y) × (c ≡ d)
cons-injective x y c d h = (cc, cc)

-- Two parts of one length split equal bytes alike.
pub append-injective :
    (a b c d : List ℕ) → length a ≡ length b → a ++ c ≡ b ++ d → (a ≡ b) × (c ≡ d)
append-injective [] [] c d h e = (refl, e)
append-injective (x ∷ a) (y ∷ b) c d h e =
    let (first, rest) = cons-injective x y (a ++ c) (b ++ d) e in
    let (as_one, after) = append-injective a b c d (omega (arith, h)) rest in
    (ap₂ ◌∷◌ first as_one, after)
append-injective [] (y ∷ b) c d h e = absurd (omega (arith, h))
append-injective (x ∷ a) [] c d h e = absurd (omega (arith, h))

index-injective : (i j : ℤ) → IsU64 i → IsU64 j → u64_le i ++ [] ≡ u64_le j ++ [] → i ≡ j
index-injective i j h k e =
    let (same, _) =
      append-injective (u64_le i) (u64_le j) [] [] (length-u64_le i ∙ sym (length-u64_le j)) e in
    sym (of_le_bytes-u64_le i h)
    ∙ ap (λ bytes. pos (of_le_bytes bytes)) same
    ∙ of_le_bytes-u64_le j k

module _ {Key : Type 0} ⦃platform : Platform Key⦄ where
  abbrev pub seeds : Owner Key → List (List ℕ)
  seeds (of_mandate subscriber merchant index) =
      codes "mandate"
      ∷ platform.to_bytes subscriber
      ∷ platform.to_bytes merchant
      ∷ u64_le index
      ∷ []
  seeds (of_stream subscriber merchant index) =
      codes "stream" ∷ platform.to_bytes subscriber ∷ platform.to_bytes merchant ∷ u64_le index ∷ []
  seeds (of_mandate_v1 subscriber plan) =
      codes "mandate" ∷ platform.to_bytes subscriber ∷ platform.to_bytes plan ∷ []
  seeds (of_agent_mandate authority agent) =
      codes "agent-mandate" ∷ platform.to_bytes authority ∷ platform.to_bytes agent ∷ []

  abbrev pub address : Owner Key → Key → Key × ℕ
  address (of_mandate subscriber merchant index) program =
      Pda.mandate subscriber merchant index program
  address (of_stream subscriber merchant index) program =
      Pda.stream subscriber merchant index program
  address (of_mandate_v1 subscriber plan) program = Pda.mandate_v1 subscriber plan program
  address (of_agent_mandate authority agent) program = Pda.agent_mandate authority agent program

  address_lem :
      (a : Owner Key) (program : Key)
      → address a program ≡ platform.find_program_address (seeds a) program
  unfolding Pda.mandate Pda.stream Pda.mandate_v1 Pda.agent_mandate
  address_lem (of_mandate subscriber merchant index) program = refl
  address_lem (of_stream subscriber merchant index) program = refl
  address_lem (of_mandate_v1 subscriber plan) program = refl
  address_lem (of_agent_mandate authority agent) program = refl

  to_bytes-injective :
      (a b : Key) → IsLawful platform → platform.to_bytes a ≡ platform.to_bytes b → a ≡ b
  to_bytes-injective a b lawful h =
      sym (lawful.of_bytes-to_bytes a) ∙ ap platform.of_bytes h ∙ lawful.of_bytes-to_bytes b

  pub key-injective :
      (a b : Key) (c d : List ℕ)
      → IsLawful platform
      → platform.to_bytes a ++ c ≡ platform.to_bytes b ++ d
      → (a ≡ b) × (c ≡ d)
  key-injective a b c d lawful h =
      let (same, rest) =
        append-injective (platform.to_bytes a) (platform.to_bytes b) c d
          (lawful.length-to_bytes a ∙ sym (lawful.length-to_bytes b)) h in
      (to_bytes-injective a b lawful same, rest)

  -- After a common text, two keys and an index, or two keys, are told apart by their bytes.
  three-injective :
      (text : List ℕ) (a b c d : Key) (i j : ℤ)
      → IsLawful platform
      → IsU64 i
      → IsU64 j
      → join (text ∷ platform.to_bytes a ∷ platform.to_bytes b ∷ u64_le i ∷ [])
        ≡ join (text ∷ platform.to_bytes c ∷ platform.to_bytes d ∷ u64_le j ∷ [])
      → (a ≡ c) × (b ≡ d) × (i ≡ j)
  three-injective text a b c d i j lawful h k e =
      let (_, e1) = append-injective text text _ _ refl e in
      let (first, e2) = key-injective a c _ _ lawful e1 in
      let (second, e3) = key-injective b d _ _ lawful e2 in
      (first, second, index-injective i j h k e3)

  two-injective :
      (text : List ℕ) (a b c d : Key)
      → IsLawful platform
      → join (text ∷ platform.to_bytes a ∷ platform.to_bytes b ∷ [])
        ≡ join (text ∷ platform.to_bytes c ∷ platform.to_bytes d ∷ [])
      → (a ≡ c) × (b ≡ d)
  two-injective text a b c d lawful e =
      let (_, e1) = append-injective text text _ _ refl e in
      let (first, e2) = key-injective a c _ _ lawful e1 in
      let (second, _) = key-injective b d _ _ lawful e2 in (first, second)

  length-two : (a b : Key) → IsLawful platform → length (join (seeds (of_mandate_v1 a b))) ≡ 71
  length-two a b lawful = omega (
    arith,
    length-append (platform.to_bytes a) (platform.to_bytes b ++ []),
    length-append (platform.to_bytes b) [],
    lawful.length-to_bytes a,
    lawful.length-to_bytes b,
  )

  length-three :
      (a b : Key) (i : ℤ) → IsLawful platform → length (join (seeds (of_mandate a b i))) ≡ 79
  length-three a b i lawful = omega (
    arith,
    length-append (platform.to_bytes a) (platform.to_bytes b ++ (u64_le i ++ [])),
    length-append (platform.to_bytes b) (u64_le i ++ []),
    length-append (u64_le i) [],
    lawful.length-to_bytes a,
    lawful.length-to_bytes b,
    length-u64_le i,
  )

  seeds-injective :
      (a b : Owner Key)
      → IsLawful platform
      → IsInRange a
      → IsInRange b
      → join (seeds a) ≡ join (seeds b)
      → a ≡ b
  seeds-injective (of_mandate a b i) (of_mandate c d j) lawful h k e =
      let (p, q, r) = three-injective (codes "mandate") a b c d i j lawful h k e in
      λ t. of_mandate (p t) (q t) (r t)
  seeds-injective (of_stream a b i) (of_stream c d j) lawful h k e =
      let (p, q, r) = three-injective (codes "stream") a b c d i j lawful h k e in
      λ t. of_stream (p t) (q t) (r t)
  seeds-injective (of_mandate_v1 a b) (of_mandate_v1 c d) lawful h k e =
      let (p, q) = two-injective (codes "mandate") a b c d lawful e in
      λ t. of_mandate_v1 (p t) (q t)
  seeds-injective (of_agent_mandate a b) (of_agent_mandate c d) lawful h k e =
      let (p, q) = two-injective (codes "agent-mandate") a b c d lawful e in
      λ t. of_agent_mandate (p t) (q t)
  seeds-injective (of_mandate a b i) (of_mandate_v1 c d) lawful h k e =
      absurd (omega (arith, ap length e, length-three a b i lawful, length-two c d lawful))
  seeds-injective (of_mandate_v1 a b) (of_mandate c d j) lawful h k e =
      absurd (omega (arith, ap length e, length-two a b lawful, length-three c d j lawful))
  seeds-injective (of_mandate a b i) (of_stream c d j) lawful h k e =
      absurd (omega (arith, (cons-injective b'm' b's' _ _ e).0))
  seeds-injective (of_mandate a b i) (of_agent_mandate c d) lawful h k e =
      absurd (omega (arith, (cons-injective b'm' b'a' _ _ e).0))
  seeds-injective (of_stream a b i) (of_mandate c d j) lawful h k e =
      absurd (omega (arith, (cons-injective b's' b'm' _ _ e).0))
  seeds-injective (of_stream a b i) (of_mandate_v1 c d) lawful h k e =
      absurd (omega (arith, (cons-injective b's' b'm' _ _ e).0))
  seeds-injective (of_stream a b i) (of_agent_mandate c d) lawful h k e =
      absurd (omega (arith, (cons-injective b's' b'a' _ _ e).0))
  seeds-injective (of_mandate_v1 a b) (of_stream c d j) lawful h k e =
      absurd (omega (arith, (cons-injective b'm' b's' _ _ e).0))
  seeds-injective (of_mandate_v1 a b) (of_agent_mandate c d) lawful h k e =
      absurd (omega (arith, (cons-injective b'm' b'a' _ _ e).0))
  seeds-injective (of_agent_mandate a b) (of_mandate c d j) lawful h k e =
      absurd (omega (arith, (cons-injective b'a' b'm' _ _ e).0))
  seeds-injective (of_agent_mandate a b) (of_mandate_v1 c d) lawful h k e =
      absurd (omega (arith, (cons-injective b'a' b'm' _ _ e).0))
  seeds-injective (of_agent_mandate a b) (of_stream c d j) lawful h k e =
      absurd (omega (arith, (cons-injective b'a' b's' _ _ e).0))

  -- The address of a mandate of any kind is found from its seeds, and the seeds of two of them,
  -- joined as the runtime hashes them, are equal exactly if their kinds, keys and indexes are.
  pub address-injective :
      (a b : Owner Key) (program : Key)
      → IsLawful platform
      → IsInRange a
      → IsInRange b
      → (address a program ≡ platform.find_program_address (seeds a) program)
        × (join (seeds a) ≡ join (seeds b) ↔ a ≡ b)
  address-injective a b program lawful h k =
      (address_lem a program, (seeds-injective a b lawful h k, ap (λ owner. join (seeds owner))))
