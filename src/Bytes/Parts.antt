-- ===== src/Bytes/Parts.antt =====
-- The tests of src/browser/bytes.ts and of texts, as statements on where the part stands.
use vela_sdk.Prelude.{
  ℕ, ◌≡◌, ◌↔◌, refl, sym, subst, ap, ap₂, true, List, [], ◌∷◌, ◌++◌, arith, Bool-cases, inl, inr,
}
use vela_sdk.Bytes.{starts_with, contains, slice_equals}
use vela_sdk.Bytes.Readers.{starts_with-append, slice_equals_prefix}

-- `part` stands at the beginning, or somewhere, in `text`.
abbrev pub IsPrefix : List ℕ → List ℕ → Type 0
IsPrefix part text = (rest : List ℕ) × (text ≡ part ++ rest)

abbrev pub IsPart : List ℕ → List ℕ → Type 0
IsPart part text = (before : List ℕ) × (rest : List ℕ) × (text ≡ before ++ (part ++ rest))

starts_with-IsPrefix : (text part : List ℕ) → starts_with text part ≡ true → IsPrefix part text
unfolding starts_with
starts_with-IsPrefix text [] h = (text, refl)
starts_with-IsPrefix [] (t ∷ part) h = cc
starts_with-IsPrefix (b ∷ text) (t ∷ part) h =
    let (rest, e) = starts_with-IsPrefix text part (ground arith) in
    (rest, ap₂ ◌∷◌ (ground arith) e)

pub starts_with-prefix_iff :
    (text part : List ℕ) → (starts_with text part ≡ true) ↔ IsPrefix part text
starts_with-prefix_iff text part = (
  starts_with-IsPrefix text part,
  λ (rest, e). subst (λ t. starts_with t part ≡ true) (sym e) (starts_with-append part rest),
)

pub slice_equals-prefix_iff :
    (bytes target : List ℕ) → (slice_equals bytes target 0 ≡ true) ↔ IsPrefix target bytes
unfolding slice_equals
slice_equals-prefix_iff bytes target = (
  λ h. starts_with-IsPrefix bytes target (ground arith),
  λ (rest, e).
      subst (λ t. slice_equals t target 0 ≡ true) (sym e) (slice_equals_prefix target rest),
)

contains-IsPart : (text part : List ℕ) → contains text part ≡ true → IsPart part text
unfolding contains
contains-IsPart [] part h = let (rest, e) = starts_with-IsPrefix [] part h in ([], rest, e)
contains-IsPart (c ∷ text) part h = elim (Bool-cases (starts_with (c ∷ text) part)) [
  | inl here ↦ let (rest, e) = starts_with-IsPrefix (c ∷ text) part here in ([], rest, e)
  | inr later ↦
      let (before, rest, e) = contains-IsPart text part (ground (arith, later)) in
      (c ∷ before, rest, ap (λ t. c ∷ t) e)
]

contains-prefix : (text part : List ℕ) → starts_with text part ≡ true → contains text part ≡ true
unfolding contains
contains-prefix [] part h = h
contains-prefix (c ∷ text) part h = ground (arith, h)

contains-cons :
    (c : ℕ) (text part : List ℕ) → contains text part ≡ true → contains (c ∷ text) part ≡ true
unfolding contains
contains-cons c text part h = ground (arith, h)

contains-append : (before part rest : List ℕ) → contains (before ++ (part ++ rest)) part ≡ true
contains-append [] part rest = contains-prefix (part ++ rest) part (starts_with-append part rest)
contains-append (c ∷ before) part rest =
    contains-cons c (before ++ (part ++ rest)) part (contains-append before part rest)

-- `text.includes(part)` says whether the part stands somewhere in the text.
pub contains_iff : (text part : List ℕ) → (contains text part ≡ true) ↔ IsPart part text
contains_iff text part = (
  contains-IsPart text part,
  λ (before, rest, e).
      subst (λ t. contains t part ≡ true) (sym e) (contains-append before part rest),
)
