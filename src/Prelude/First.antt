-- ===== src/Prelude/First.antt =====
-- The first element of a list that passes a test, what `xs.find(p)` returns, and whether there is one,
-- what `xs.some(p)` says.
use mathlib.Core.Path.{◌≡◌, refl, ap, ap₂, ◌∙◌, subst}
use mathlib.Core.Logic.{◌↔◌, inl, inr}
use mathlib.Core.Bool.{Bool, true, false}
use mathlib.Core.List.{List, [], ◌∷◌, ◌++◌, map}
use mathlib.Core.Option.{Option, none, some}
use native.Mathlib.Omega.{arith}
use vela_sdk.Prelude.Lists.{All, any}
use vela_sdk.Prelude.Tests.{if◌then◌else◌, Bool-cases}

module _ {ℓ} {A : Type ℓ} where
  abbrev pub find : (A → Bool) → List A → Option A
  find p [] = none
  find p (x ∷ xs) = if p x then some x else find p xs

  -- `a` passes the test, and no element before it does.
  abbrev pub IsFirst : (A → Bool) → A → List A → Type ℓ
  IsFirst p a xs =
      (before : List A) × (after : List A) × (xs ≡ before ++ (a ∷ after))
      × All (λ x. p x ≡ false) before
      × (p a ≡ true)

  find-IsFirst : (p : A → Bool) (a : A) (xs : List A) → find p xs ≡ some a → IsFirst p a xs
  find-IsFirst p a [] h = cc
  find-IsFirst p a (x ∷ xs) h = elim (Bool-cases (p x)) [
    | inl hit ↦
        let same : x ≡ a = ground (arith, hit) in
        ([], xs, ap (λ y. y ∷ xs) same, tt, subst (λ y. p y ≡ true) same hit)
    | inr miss ↦
        let (before, after, split, missed, passed) = find-IsFirst p a xs (ground (arith, miss)) in
        (x ∷ before, after, ap (λ ys. x ∷ ys) split, (miss, missed), passed)
  ]

  find-append :
      (p : A → Bool) (a : A) (before after : List A)
      → All (λ x. p x ≡ false) before
      → p a ≡ true
      → find p (before ++ (a ∷ after)) ≡ some a
  find-append p a [] after missed passed = rw passed
  find-append p a (x ∷ before) after (miss, missed) passed =
      rw miss (find-append p a before after missed passed)

  pub find_iff : (p : A → Bool) (a : A) (xs : List A) → (find p xs ≡ some a) ↔ IsFirst p a xs
  find_iff p a xs = (
    find-IsFirst p a xs,
    λ (before, after, split, missed, passed).
        ap (find p) split ∙ find-append p a before after missed passed,
  )

-- `a` stands in the list.
abbrev pub Has {ℓ} : {A : Type ℓ} → A → List A → Type ℓ
Has {A} a xs = (before : List A) × (after : List A) × (xs ≡ before ++ (a ∷ after))

module _ {ℓ} {A : Type ℓ} where
  pub Has-here : (a : A) (xs : List A) → Has a (a ∷ xs)
  Has-here a xs = ([], xs, refl)

  pub Has-later : (a x : A) (xs : List A) → Has a xs → Has a (x ∷ xs)
  Has-later a x xs (before, after, e) = (x ∷ before, after, ap (λ ys. x ∷ ys) e)

  pub any-Has : (p : A → Bool) (xs : List A) → any p xs ≡ true → (a : A) × Has a xs × (p a ≡ true)
  any-Has p [] h = cc
  any-Has p (x ∷ xs) h = elim (Bool-cases (p x)) [
    | inl hit ↦ (x, Has-here x xs, hit)
    | inr miss ↦
        let (a, there, passed) = any-Has p xs (ground (arith, miss)) in
        (a, Has-later a x xs there, passed)
  ]

  any-append :
      (p : A → Bool) (a : A) (before after : List A)
      → p a ≡ true
      → any p (before ++ (a ∷ after)) ≡ true
  any-append p a [] after h = rw h refl
  any-append p a (x ∷ before) after h =
      let rest = any-append p a before after h in ground (arith, rest)

  pub Has-any : (p : A → Bool) (a : A) (xs : List A) → Has a xs → p a ≡ true → any p xs ≡ true
  Has-any p a xs (before, after, e) h = ap (any p) e ∙ any-append p a before after h

  pub map_congr :
      {B : Type ℓ} (f g : A → B) (xs : List A) → ((a : A) → f a ≡ g a) → map f xs ≡ map g xs
  map_congr f g [] h = refl
  map_congr f g (x ∷ xs) h = ap₂ ◌∷◌ (h x) (map_congr f g xs h)
