-- ===== src/X402/Verify/Gains.antt =====
-- That `verifyPaymentProof` of src/x402/server.ts computes what the destination gained.
use Prim.Native.String.{String}
use text.Mathlib.Text.{◌==◌ as str_eq}
use text.Mathlib.TextEquality.{eq_iff}
use text.Mathlib.TextPositions.{eq_refl}
use vela_sdk.Prelude.{
  ℕ, suc, ◌+◌, ◌≡◌, ◌≢◌, refl, sym, ap, ap₂, ◌∙◌, subst, ◌↔◌, ◌⊎◌, inl, inr, true, false, ◌&&◌,
  Option, none, some, List, [], ◌∷◌, ◌++◌, All, length, ℤ, ◌-ℤ◌, arith, Bool-cases, Option-cases,
}
use vela_sdk.Prelude.First.{Has}
use vela_sdk.Prelude.Result.{Result, ok, ◌>>◌, throw_if, ok-injective}
use vela_sdk.Accounts.PullApproval.{or_else}
use vela_sdk.X402.Proof.{PaymentChallenge, PaymentError, payment_transaction_verification}
use vela_sdk.X402.Transaction.{
  TokenBalance, Transaction, extract_account_keys, index_of, is_index, is_mint, find_balance,
  find_token_balance, parse_balance_amount,
}
use vela_sdk.X402.Verify.{amount_delta, is_none}
use vela_sdk.X402.Verify.Pays.{keys_of, IsOf, IsBalance, amount_of, Gains}
use vela_sdk.X402.Verify.Keys.{extract_account_keys_lem, is_text_iff}

-- The first place of a key.
abbrev IsPlaced : ℕ → List String → String → ℕ → Type 0
IsPlaced n keys key i =
    (earlier : List String) × (later : List String) × (keys ≡ earlier ++ (key ∷ later))
    × All (λ k. k ≢ key) earlier
    × (i ≡ n + length earlier)

index_of-IsPlaced :
    (n : ℕ) (keys : List String) (key : String) (i : ℕ)
    → index_of n keys key ≡ some i
    → IsPlaced n keys key i
unfolding index_of
index_of-IsPlaced n [] key i h = cc
index_of-IsPlaced n (k ∷ keys) key i h = elim (Bool-cases (str_eq k key)) [
  | inl hit ↦
      let here : n ≡ i = ground (arith, hit) in
      ([], keys, ap (λ l. l ∷ keys) ((eq_iff k key).0 hit), tt, omega (arith, here))
  | inr miss ↦
      let (earlier, later, e, first, at) =
        index_of-IsPlaced (suc n) keys key i (ground (arith, miss)) in
      (
        k ∷ earlier,
        later,
        ap (λ l. k ∷ l) e,
        (λ same. absurd (ground (arith, miss, (eq_iff k key).1 same)), first),
        omega (arith, at),
      )
]

index_of_append :
    (n : ℕ) (before after : List String) (key : String)
    → (i : ℕ) × (index_of n (before ++ (key ∷ after)) key ≡ some i)
unfolding index_of
index_of_append n [] after key = (n, rw (eq_refl key) refl)
index_of_append n (k ∷ before) after key =
    let (i, rest) = index_of_append (suc n) before after key in
    elim (Bool-cases (str_eq k key)) [ inl hit ↦ (n, rw hit refl) | inr miss ↦ (i, rw miss rest) ]

index_of_total :
    (n : ℕ) (keys : List String) (key : String)
    → Has key keys
    → (i : ℕ) × (index_of n keys key ≡ some i)
unfolding index_of
index_of_total n keys key (before, after, e) =
    let (i, found) = index_of_append n before after key in (i, ap (λ l. index_of n l key) e ∙ found)

placed-index_of :
    (n : ℕ) (earlier later : List String) (key : String)
    → All (λ k. k ≢ key) earlier
    → index_of n (earlier ++ (key ∷ later)) key ≡ some (n + length earlier)
unfolding index_of
placed-index_of n [] later key first = rw (eq_refl key) (ap some (omega arith))
placed-index_of n (k ∷ earlier) later key (other, first) =
    let rest = placed-index_of (suc n) earlier later key first in
    let same = eq_iff k key in
    elim (Bool-cases (str_eq k key)) [
      | inl hit ↦ absurd (other (same.0 hit))
      | inr miss ↦ rw miss (rest ∙ ap some (omega arith))
    ]

is_index_iff : (o : Option ℕ) (index : ℕ) → (is_index o (some index) ≡ true) ↔ (o ≡ some index)
is_index_iff none index = (λ h. cc, λ h. cc)
is_index_iff (some i) index =
    (λ h. ap some (ground arith), λ h. let same : i ≡ index = cc in ground arith)

is_mint-IsOf :
    (index : ℕ) (mint : Option String) (entry : TokenBalance)
    → ((is_index entry.account_index (some index) && is_mint entry.mint mint) ≡ true)
      ↔ IsOf index mint entry
is_mint-IsOf index none entry =
    let at = is_index_iff entry.account_index index in
    (λ h. at.0 (ground arith), λ h. let k = at.1 h in ground (arith, k))
is_mint-IsOf index (some mint) entry =
    let at = is_index_iff entry.account_index index in
    let in_mint = is_text_iff entry.mint mint in
    (
      λ h. (at.0 (ground arith), in_mint.0 (ground arith)),
      λ (h, h'). let k = at.1 h in let k' = in_mint.1 h' in ground (arith, k, k'),
    )

IsBalance-later :
    (entries : List TokenBalance) (index : ℕ) (mint : Option String) (x : TokenBalance)
    (o : Option TokenBalance)
    → ¬ (IsOf index mint x)
    → IsBalance entries index mint o
    → IsBalance (x ∷ entries) index mint o
IsBalance-later entries index mint x none other b = (other, b)
IsBalance-later entries index mint x (some entry) other (before, after, e, first, here) =
    (x ∷ before, after, ap (λ l. x ∷ l) e, (other, first), here)

find_balance-IsBalance :
    (entries : List TokenBalance) (index : ℕ) (mint : Option String)
    → IsBalance entries index mint (find_balance entries (some index) mint)
unfolding find_balance
find_balance-IsBalance [] index mint = tt
find_balance-IsBalance (x ∷ entries) index mint =
    let rest = find_balance-IsBalance entries index mint in
    elim (Bool-cases (is_index x.account_index (some index) && is_mint x.mint mint)) [
      | inl hit ↦ rw hit ([], entries, refl, tt, (is_mint-IsOf index mint x).0 hit)
      | inr miss ↦
          let other : ¬ (IsOf index mint x) =
            λ h. let hit = (is_mint-IsOf index mint x).1 h in absurd (ground (arith, hit, miss)) in
          rw miss (
            IsBalance-later entries index mint x (find_balance entries (some index) mint) other
              rest)
    ]

missed :
    (index : ℕ) (mint : Option String) (x : TokenBalance)
    → ¬ (IsOf index mint x)
    → (is_index x.account_index (some index) && is_mint x.mint mint) ≡ false
missed index mint x other =
    elim (Bool-cases (is_index x.account_index (some index) && is_mint x.mint mint)) [
      | inl hit ↦ absurd (other ((is_mint-IsOf index mint x).0 hit))
      | inr miss ↦ miss
    ]

none_found :
    (entries : List TokenBalance) (index : ℕ) (mint : Option String)
    → All (λ e. ¬ (IsOf index mint e)) entries
    → find_balance entries (some index) mint ≡ none
unfolding find_balance
none_found [] index mint others = refl
none_found (x ∷ entries) index mint (other, others) =
    rw (missed index mint x other) (none_found entries index mint others)

first_found :
    (before after : List TokenBalance) (index : ℕ) (mint : Option String) (entry : TokenBalance)
    → All (λ e. ¬ (IsOf index mint e)) before
    → IsOf index mint entry
    → find_balance (before ++ (entry ∷ after)) (some index) mint ≡ some entry
unfolding find_balance
first_found [] after index mint entry others here = rw ((is_mint-IsOf index mint entry).1 here) refl
first_found (x ∷ before) after index mint entry (other, others) here =
    rw (missed index mint x other) (first_found before after index mint entry others here)

-- There is one answer at most.
IsBalance-unique :
    (entries : List TokenBalance) (index : ℕ) (mint : Option String) (o : Option TokenBalance)
    → IsBalance entries index mint o
    → find_balance entries (some index) mint ≡ o
unfolding find_balance
IsBalance-unique entries index mint none b = none_found entries index mint b
IsBalance-unique entries index mint (some entry) (before, after, e, first, here) =
    ap (λ l. find_balance l (some index) mint) e
    ∙ first_found before after index mint entry first here

pub find_token_balance-IsBalance :
    (entries : Option (List TokenBalance)) (index : ℕ) (mint : Option String)
    (o : Option TokenBalance)
    → (find_token_balance entries (some index) mint ≡ o)
      ↔ IsBalance (or_else entries []) index mint o
unfolding find_token_balance
find_token_balance-IsBalance entries index mint o = (
  λ h.
      subst (IsBalance (or_else entries []) index mint) h
        (find_balance-IsBalance (or_else entries []) index mint),
  IsBalance-unique (or_else entries []) index mint o,
)

parse_balance_amount_lem : (o : Option TokenBalance) → parse_balance_amount o ≡ amount_of o
unfolding parse_balance_amount
parse_balance_amount_lem none = refl
parse_balance_amount_lem (some entry) = elim (Option-cases entry.amount) [
  | inl e ↦ rw e refl
  | inr (a, e) ↦ rw e refl
]

known_iff :
    (old new : Option TokenBalance)
    → ((is_none old && is_none new) ≡ false) ↔ ((old ≢ none) ⊎ (new ≢ none))
known_iff none none = (λ h. cc, λ s. elim s [ inl h ↦ absurd (h refl) | inr h ↦ absurd (h refl) ])
known_iff none (some b) = (λ h. inr (λ e. cc), λ s. refl)
known_iff (some a) new = (λ h. inl (λ e. cc), λ s. refl)

-- The difference of two balances, where one of them is known.
difference : Option TokenBalance → Option TokenBalance → Result PaymentError ℤ
difference old new = do
  throw_if (is_none old && is_none new)
      (payment_transaction_verification "token balances unavailable")
  ok (parse_balance_amount new -ℤ parse_balance_amount old)

difference_iff :
    (old new : Option TokenBalance) (delta : ℤ)
    → (difference old new ≡ ok delta)
      ↔ (((old ≢ none) ⊎ (new ≢ none)) × (delta ≡ amount_of new -ℤ amount_of old))
unfolding difference
difference_iff old new delta =
    let value : parse_balance_amount new -ℤ parse_balance_amount old
        ≡ amount_of new -ℤ amount_of old =
      ap₂ ◌-ℤ◌ (parse_balance_amount_lem new) (parse_balance_amount_lem old) in
    elim (Bool-cases (is_none old && is_none new)) [
      | inl unknown ↦ rw unknown (
        λ h. cc,
        λ (known, e).
            let there = (known_iff old new).1 known in absurd (ground (arith, unknown, there)),
      )
      | inr there ↦ rw there (
        λ h. ((known_iff old new).0 there, sym (ok-injective h) ∙ value),
        λ (known, e). ap ok (value ∙ sym e),
      )
    ]

amount_delta_lem :
    (t : Transaction) (challenge : PaymentChallenge) (i : ℕ)
    → index_of 0 (extract_account_keys t) challenge.destination ≡ some i
    → amount_delta t challenge
      ≡ difference
          (find_token_balance t.pre_token_balances (some i) challenge.wrapped_usdc_mint)
          (find_token_balance t.post_token_balances (some i) challenge.wrapped_usdc_mint)
unfolding amount_delta difference
amount_delta_lem t challenge i h = rw h refl

module _ (t : Transaction) (challenge : PaymentChallenge) (delta : ℤ) where
  pub amount_delta-Gains :
      Has challenge.destination (keys_of t)
      → amount_delta t challenge ≡ ok delta
      → Gains t challenge delta
  amount_delta-Gains there h =
      let (i, placed) = index_of_total 0 (keys_of t) challenge.destination there in
      let (earlier, later, split, first, at) =
        index_of-IsPlaced 0 (keys_of t) challenge.destination i placed in
      let index : index_of 0 (extract_account_keys t) challenge.destination
          ≡ some (length earlier) =
        ap (λ keys. index_of 0 keys challenge.destination) (extract_account_keys_lem t)
        ∙ placed
        ∙ ap some (omega (arith, at)) in
      let (known, gained) =
        (difference_iff _ _ delta).0
          (sym (amount_delta_lem t challenge (length earlier) index) ∙ h) in
      record {
        earlier = earlier;
        later = later;
        placed = split;
        first = first;
        old =
            find_token_balance t.pre_token_balances (some (length earlier))
              challenge.wrapped_usdc_mint;
        new =
            find_token_balance t.post_token_balances (some (length earlier))
              challenge.wrapped_usdc_mint;
        was = (find_token_balance-IsBalance t.pre_token_balances _ _ _).0 refl;
        is = (find_token_balance-IsBalance t.post_token_balances _ _ _).0 refl;
        known = known;
        gained = gained;
      }

  pub Gains-amount_delta : Gains t challenge delta → amount_delta t challenge ≡ ok delta
  Gains-amount_delta g =
      let index : index_of 0 (extract_account_keys t) challenge.destination
          ≡ some (length g.earlier) =
        ap (λ keys. index_of 0 keys challenge.destination) (extract_account_keys_lem t ∙ g.placed)
        ∙ placed-index_of 0 g.earlier g.later challenge.destination g.first
        ∙ ap some (omega arith) in
      amount_delta_lem t challenge (length g.earlier) index
      ∙ ap₂ difference ((find_token_balance-IsBalance t.pre_token_balances _ _ _).1 g.was)
          ((find_token_balance-IsBalance t.post_token_balances _ _ _).1 g.is)
      ∙ (difference_iff g.old g.new delta).1 (g.known, g.gained)
