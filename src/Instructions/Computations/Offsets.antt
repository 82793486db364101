-- ===== src/Instructions/Computations/Offsets.antt =====
-- The offsets of the computations, which name their accounts at Arcium: each is taken from an address,
-- and the seeds of two of these addresses, joined, differ if the requests do.
use vela_sdk.Prelude.{
  ℕ, ◌+◌, ◌≡◌, ◌↔◌, refl, sym, ap, ◌∙◌, List, [], ◌∷◌, ◌++◌, append-nil, ℤ, pos, length, replicate,
  arith, length-append,
}
use vela_sdk.Prelude.Result.{ok}
use vela_sdk.Errors.{Checked}
use vela_sdk.Bytes.{codes, u64_le, i64_le, of_le_bytes, as_int64}
use vela_sdk.Bytes.Integers.{
  IsU64, IsI64, of_le_bytes-u64_le, of_le_bytes-i64_le, length-u64_le, length-i64_le,
}
use vela_sdk.Accounts.Platform.{Platform, IsLawful}
use vela_sdk.Accounts.Pda.Seeds.{join, append-injective, key-injective}
use vela_sdk.Instructions.{write_i64_le}
use vela_sdk.Instructions.Streams.Creation.{write_u64_le-ok}
use vela_sdk.Instructions.Computations.{
  uint64_bytes, offset_of, derive_validation_computation_offset, derive_billing_computation_offset,
  derive_usage_computation_offset,
}

-- A request, by what its offset is derived from: the mandate, the time due, the pulls or the start of
-- the period, and the nonce.
pub data Request (Key : Type 0) : Type 0 where
  validation billing usage : Key → ℤ → ℤ → Request Key

abbrev pub IsInRange : {Key : Type 0} → Request Key → Type 0
IsInRange (validation mandate due nonce) = IsI64 due × IsU64 nonce
IsInRange (billing mandate pulls nonce) = IsU64 pulls × IsU64 nonce
IsInRange (usage mandate start nonce) = IsI64 start × IsU64 nonce

uint64_bytes-ok : (value : ℤ) → IsU64 value → uint64_bytes value ≡ ok (u64_le value)
uint64_bytes-ok value h =
    write_u64_le-ok [] (replicate 8 0) [] value 0 refl refl h ∙ ap ok (append-nil (u64_le value))

write_i64_le-ok : (value : ℤ) → IsI64 value → write_i64_le value ≡ ok (i64_le value)
unfolding write_i64_le
write_i64_le-ok value h = ground arith

u64_le-injective : (i j : ℤ) → IsU64 i → IsU64 j → u64_le i ≡ u64_le j → i ≡ j
u64_le-injective i j h k e =
    sym (of_le_bytes-u64_le i h) ∙ ap (λ b. pos (of_le_bytes b)) e ∙ of_le_bytes-u64_le j k

i64_le-injective : (i j : ℤ) → IsI64 i → IsI64 j → i64_le i ≡ i64_le j → i ≡ j
i64_le-injective i j h k e =
    sym (of_le_bytes-i64_le i h) ∙ ap (λ b. as_int64 (of_le_bytes b)) e ∙ of_le_bytes-i64_le j k

module _ {Key : Type 0} ⦃platform : Platform Key⦄ where
  abbrev seeds_with : List ℕ → Key → List ℕ → ℤ → List (List ℕ)
  seeds_with text mandate subject nonce =
      text ∷ platform.to_bytes mandate ∷ subject ∷ u64_le nonce ∷ []

  abbrev pub seeds : Request Key → List (List ℕ)
  seeds (validation mandate due nonce) =
      seeds_with (codes "validate_mandate") mandate (i64_le due) nonce
  seeds (billing mandate pulls nonce) =
      seeds_with (codes "record_billing_event") mandate (u64_le pulls) nonce
  seeds (usage mandate start nonce) = seeds_with (codes "usage") mandate (i64_le start) nonce

  abbrev pub offset : Request Key → Key → Checked ℤ
  offset (validation mandate due nonce) program =
      derive_validation_computation_offset mandate due nonce program
  offset (billing mandate pulls nonce) program =
      derive_billing_computation_offset mandate pulls nonce program
  offset (usage mandate start nonce) program =
      derive_usage_computation_offset mandate start nonce program

  offset_lem :
      (r : Request Key) (program : Key)
      → IsInRange r
      → offset r program ≡ offset_of (platform.find_program_address (seeds r) program).0
  unfolding derive_validation_computation_offset derive_billing_computation_offset
      derive_usage_computation_offset
  offset_lem (validation mandate due nonce) program h =
      rw (write_i64_le-ok due h.0) rw (uint64_bytes-ok nonce h.1) refl
  offset_lem (billing mandate pulls nonce) program h =
      rw (uint64_bytes-ok pulls h.0) rw (uint64_bytes-ok nonce h.1) refl
  offset_lem (usage mandate start nonce) program h =
      rw (write_i64_le-ok start h.0) rw (uint64_bytes-ok nonce h.1) refl

  -- With one text, the mandate, the subject and the nonce are read off.
  parts-injective :
      (text : List ℕ) (a b : Key) (x y : List ℕ) (i j : ℤ)
      → IsLawful platform
      → IsU64 i
      → IsU64 j
      → length x ≡ 8
      → length y ≡ 8
      → join (seeds_with text a x i) ≡ join (seeds_with text b y j)
      → (a ≡ b) × (x ≡ y) × (i ≡ j)
  parts-injective text a b x y i j lawful h k p q e =
      let (_, e1) = append-injective text text _ _ refl e in
      let (same, e2) = key-injective a b _ _ lawful e1 in
      let (subject, e3) = append-injective x y _ _ (p ∙ sym q) e2 in
      let (nonce, _) =
        append-injective (u64_le i) (u64_le j) [] [] (length-u64_le i ∙ sym (length-u64_le j)) e3 in
      (same, subject, u64_le-injective i j h k nonce)

  length-seeds :
      (text : List ℕ) (a : Key) (x : List ℕ) (i : ℤ)
      → IsLawful platform
      → length x ≡ 8
      → length (join (seeds_with text a x i)) ≡ length text + 48
  length-seeds text a x i lawful h = omega (
    arith,
    h,
    length-append text (platform.to_bytes a ++ (x ++ (u64_le i ++ []))),
    length-append (platform.to_bytes a) (x ++ (u64_le i ++ [])),
    length-append x (u64_le i ++ []),
    length-append (u64_le i) [],
    lawful.length-to_bytes a,
    length-u64_le i,
  )

  -- Texts of different lengths.
  apart :
      (s t : List ℕ) (a b : Key) (x y : List ℕ) (i j : ℤ)
      → IsLawful platform
      → length x ≡ 8
      → length y ≡ 8
      → join (seeds_with s a x i) ≡ join (seeds_with t b y j)
      → length s ≡ length t
  apart s t a b x y i j lawful p q e =
      omega (arith, ap length e, length-seeds s a x i lawful p, length-seeds t b y j lawful q)

  seeds-injective :
      (r s : Request Key)
      → IsLawful platform
      → IsInRange r
      → IsInRange s
      → join (seeds r) ≡ join (seeds s)
      → r ≡ s
  seeds-injective (validation a x i) (validation b y j) lawful h k e =
      let (p, q, n) =
        parts-injective (codes "validate_mandate") a b (i64_le x) (i64_le y) i j lawful h.1 k.1
          (length-i64_le x) (length-i64_le y) e in
      let subject = i64_le-injective x y h.0 k.0 q in λ t. validation (p t) (subject t) (n t)
  seeds-injective (billing a x i) (billing b y j) lawful h k e =
      let (p, q, n) =
        parts-injective (codes "record_billing_event") a b (u64_le x) (u64_le y) i j lawful h.1 k.1
          (length-u64_le x) (length-u64_le y) e in
      let subject = u64_le-injective x y h.0 k.0 q in λ t. billing (p t) (subject t) (n t)
  seeds-injective (usage a x i) (usage b y j) lawful h k e =
      let (p, q, n) =
        parts-injective (codes "usage") a b (i64_le x) (i64_le y) i j lawful h.1 k.1
          (length-i64_le x) (length-i64_le y) e in
      let subject = i64_le-injective x y h.0 k.0 q in λ t. usage (p t) (subject t) (n t)
  seeds-injective (validation a x i) (billing b y j) lawful h k e = absurd (
      omega (
        arith,
        apart (codes "validate_mandate") (codes "record_billing_event") a b (i64_le x) (u64_le y) i
            j lawful (length-i64_le x) (length-u64_le y) e,
      ))
  seeds-injective (validation a x i) (usage b y j) lawful h k e = absurd (
      omega (
        arith,
        apart (codes "validate_mandate") (codes "usage") a b (i64_le x) (i64_le y) i j lawful
            (length-i64_le x) (length-i64_le y) e,
      ))
  seeds-injective (billing a x i) (validation b y j) lawful h k e = absurd (
      omega (
        arith,
        apart (codes "record_billing_event") (codes "validate_mandate") a b (u64_le x) (i64_le y) i
            j lawful (length-u64_le x) (length-i64_le y) e,
      ))
  seeds-injective (billing a x i) (usage b y j) lawful h k e = absurd (
      omega (
        arith,
        apart (codes "record_billing_event") (codes "usage") a b (u64_le x) (i64_le y) i j lawful
            (length-u64_le x) (length-i64_le y) e,
      ))
  seeds-injective (usage a x i) (validation b y j) lawful h k e = absurd (
      omega (
        arith,
        apart (codes "usage") (codes "validate_mandate") a b (i64_le x) (i64_le y) i j lawful
            (length-i64_le x) (length-i64_le y) e,
      ))
  seeds-injective (usage a x i) (billing b y j) lawful h k e = absurd (
      omega (
        arith,
        apart (codes "usage") (codes "record_billing_event") a b (i64_le x) (u64_le y) i j lawful
            (length-i64_le x) (length-u64_le y) e,
      ))

  pub offset-injective :
      (r s : Request Key) (program : Key)
      → IsLawful platform
      → IsInRange r
      → IsInRange s
      → (offset r program ≡ offset_of (platform.find_program_address (seeds r) program).0)
        × (join (seeds r) ≡ join (seeds s) ↔ r ≡ s)
  offset-injective r s program lawful h k =
      (offset_lem r program h, (seeds-injective r s lawful h k, ap (λ q. join (seeds q))))
