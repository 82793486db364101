-- ===== src/X402/Verify/Keys.antt =====
-- The keys of a transaction, and the tests of src/x402/server.ts on them and on optional values.
use Prim.Native.String.{String}
use text.Mathlib.Text.{◌==◌ as str_eq}
use text.Mathlib.TextEquality.{eq_iff}
use text.Mathlib.TextPositions.{eq_refl}
use vela_sdk.Prelude.{
  ℕ, ◌≡◌, refl, sym, ap, ◌∙◌, subst, ◌↔◌, ◌⊎◌, inl, inr, true, ◌||◌, Option, none, some, List, [],
  ◌∷◌, ◌++◌, any, get_elem?, Option-cases,
}
use vela_sdk.Prelude.First.{Has, any-Has, Has-any, map_congr}
use vela_sdk.Accounts.PullApproval.{or_else}
use vela_sdk.X402.Transaction.{
  AccountKeyLike, key_text, key_base58, with_pubkey, other_object, Transaction,
  normalize_account_key, extract_account_keys, includes, keys_at, is_text,
}
use vela_sdk.X402.Verify.Pays.{text_of, keys_of, IsChosen}

pub text_of_lem : (k : AccountKeyLike) → normalize_account_key k ≡ text_of k
unfolding normalize_account_key
text_of_lem (key_text s) = refl
text_of_lem (key_base58 s) = refl
text_of_lem (with_pubkey s) = refl
text_of_lem (other_object s) = refl

pub extract_account_keys_lem : (t : Transaction) → extract_account_keys t ≡ keys_of t
unfolding extract_account_keys
extract_account_keys_lem t = elim (Option-cases t.account_keys) [
  | inl e ↦ rw e refl
  | inr (keys, e) ↦ rw e (
      ap (λ texts. texts ++ (t.loaded_writable ++ t.loaded_readonly))
        (map_congr normalize_account_key text_of keys text_of_lem))
]

includes_lem :
    (keys : List String) (key : String) → includes keys key ≡ any (λ k. str_eq k key) keys
unfolding includes
includes_lem [] key = refl
includes_lem (k ∷ keys) key = ap (λ b. str_eq k key || b) (includes_lem keys key)

pub includes-Has : (keys : List String) (key : String) → includes keys key ≡ true → Has key keys
includes-Has keys key h =
    let (k, there, same) = any-Has (λ k. str_eq k key) keys (sym (includes_lem keys key) ∙ h) in
    subst (λ k. Has k keys) ((eq_iff k key).0 same) there

pub Has-includes : (keys : List String) (key : String) → Has key keys → includes keys key ≡ true
Has-includes keys key there =
    includes_lem keys key ∙ Has-any (λ k. str_eq k key) key keys there (eq_refl key)

pub some_injective : {a b : String} → ◌≡◌ {A = Option String} (some a) (some b) → a ≡ b
some_injective h = cc

pub is_text_iff : (o : Option String) (key : String) → (is_text o key ≡ true) ↔ (o ≡ some key)
unfolding is_text
is_text_iff none key = (λ h. cc, λ h. cc)
is_text_iff (some k) key =
    (λ h. ap some ((eq_iff k key).0 h), λ h. (eq_iff k key).1 (some_injective h))

pub includes-keys_at :
    (keys : List String) (indexes : List ℕ) (key : String)
    → includes (keys_at keys indexes) key ≡ any (λ i. is_text (get_elem? keys i) key) indexes
unfolding includes keys_at is_text
includes-keys_at keys [] key = refl
includes-keys_at keys (i ∷ indexes) key =
    let rest = includes-keys_at keys indexes key in
    elim (Option-cases (get_elem? keys i)) [
      | inl missing ↦ rw (missing, keys_at, is_text) rest
      | inr (k, found) ↦ rw (found, keys_at, is_text, includes) (ap (λ b. str_eq k key || b) rest)
    ]

-- The list that a default of two options gives.
pub or_else_cases {ℓ} :
    {A : Type ℓ} (first second : Option (List A))
    → IsChosen first second (or_else first (or_else second []))
      ⊎ (or_else first (or_else second []) ≡ [])
or_else_cases none none = inr refl
or_else_cases none (some b) = inl (inr (refl, refl))
or_else_cases (some a) second = inl (inl refl)

pub IsChosen-or_else {ℓ} :
    {A : Type ℓ} (first second : Option (List A)) (a : List A)
    → IsChosen first second a
    → or_else first (or_else second []) ≡ a
IsChosen-or_else first second a (inl e) = rw e refl
IsChosen-or_else first second a (inr (e, e')) = rw (e, e') refl
