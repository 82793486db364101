-- ===== src/Accounts/Plans/Found.antt =====
-- Which plan `getSubscribablePlan` returns.
use vela_sdk.Prelude.{
  ℕ, ◌≡◌, ◌↔◌, ◌⊎◌, inl, inr, Bool-cases, refl, ap, subst, ◌∙◌, Bool, true, false, ◌||◌, List,
  arith,
}
use vela_sdk.Prelude.Result.{Result, ok, err, Result-cases, ok-injective, err-injective, bind-eq-ok}
use vela_sdk.Errors.{Checked}
use vela_sdk.Bytes.{codes, contains, starts_with}
use vela_sdk.Bytes.Parts.{IsPart, contains_iff}
use vela_sdk.Accounts.Platform.{Platform}
use vela_sdk.Accounts.Plans.{
  AnchorVelaPlan, AnchorVelaUsagePlan, VelaPlan, VelaUsagePlan, SubscribablePlan, flat_plan,
  usage_plan, Failure, says, is_account_missing, is_plan_type_mismatch, should_try_usage_fallback,
  failure_of, deserialize_plan, deserialize_usage_plan, read_flat, read_usage, fall_back,
  get_subscribable_plan,
}

abbrev pub account_missing : List ℕ
account_missing = codes "Account does not exist"

-- The text of a failure says that the account is missing, or that it is one of another type.
abbrev pub IsMissing : Failure → Type 0
IsMissing e = IsPart account_missing (codes e.message)

abbrev pub IsOtherType : Failure → Type 0
IsOtherType e =
    IsPart (codes "Account did not deserialize") (codes e.message)
    ⊎ (IsPart (codes "Invalid account discriminator") (codes e.message)
        ⊎ IsPart (codes "AccountDiscriminatorMismatch") (codes e.message))

pub is_account_missing_iff : (e : Failure) → (is_account_missing e ≡ true) ↔ IsMissing e
unfolding is_account_missing says
is_account_missing_iff e = contains_iff (codes e.message) account_missing

or_iff : (a b : Bool) → ((a || b) ≡ true) ↔ ((a ≡ true) ⊎ (b ≡ true))
or_iff a b = ground arith

sum_iff : {A A' B B' : Type 0} → A ↔ A' → B ↔ B' → (A ⊎ B) ↔ (A' ⊎ B')
sum_iff f g = (
  λ s. elim s [ inl a ↦ inl (f.0 a) | inr b ↦ inr (g.0 b) ],
  λ s. elim s [ inl a ↦ inl (f.1 a) | inr b ↦ inr (g.1 b) ],
)

trans_iff : {A B C : Type 0} → A ↔ B → B ↔ C → A ↔ C
trans_iff f g = (λ a. g.0 (f.0 a), λ c. f.1 (g.1 c))

is_plan_type_mismatch_iff : (e : Failure) → (is_plan_type_mismatch e ≡ true) ↔ IsOtherType e
unfolding is_plan_type_mismatch says
is_plan_type_mismatch_iff e =
    let text = codes e.message in
    trans_iff (or_iff _ _) (
      sum_iff (contains_iff text (codes "Account did not deserialize")) (
        trans_iff (or_iff _ _) (
          sum_iff (contains_iff text (codes "Invalid account discriminator"))
            (contains_iff text (codes "AccountDiscriminatorMismatch")))))

should_try_usage_fallback_iff :
    (e : Failure) → (should_try_usage_fallback e ≡ true) ↔ (IsMissing e ⊎ IsOtherType e)
unfolding should_try_usage_fallback
should_try_usage_fallback_iff e =
    trans_iff (or_iff _ _) (sum_iff (is_account_missing_iff e) (is_plan_type_mismatch_iff e))

-- The text that a reader throws says neither.
unknown_variant_stops :
    should_try_usage_fallback
      (record { is_error = true; message = "Unknown PlanStatus variant: {}" })
    ≡ false
unfolding should_try_usage_fallback is_account_missing is_plan_type_mismatch says contains
    starts_with
unknown_variant_stops = refl

failure_of_lem :
    {A : Type 0} (r : Checked A) (e : Failure)
    → failure_of r ≡ err e
    → should_try_usage_fallback e ≡ false
unfolding failure_of
failure_of_lem (ok a) e h = cc
failure_of_lem (err x) e h =
    let same : record { is_error = true; message = "Unknown PlanStatus variant: {}" } ≡ e =
      err-injective h in
    subst (λ f. should_try_usage_fallback f ≡ false) same unknown_variant_stops

failure_of-ok : {A : Type 0} (r : Checked A) (a : A) → failure_of r ≡ ok a → r ≡ ok a
unfolding failure_of
failure_of-ok (ok b) a h = ap ok (ok-injective h)
failure_of-ok (err x) a h = cc

module _ {Key : Type 0} ⦃platform : Platform Key⦄
    (fetch_flat : Key → Result Failure (AnchorVelaPlan Key))
    (fetch_usage : Key → Result Failure (AnchorVelaUsagePlan Key)) (address : Key) where
  -- How a plan is found: Anchor fetches a flat plan, which reads as the plan; or it fails to, saying
  -- that the account is missing or of another type, and fetches a usage plan, which reads as it.
  abbrev pub IsFound : SubscribablePlan Key → Type 0
  IsFound plan =
      ((raw : AnchorVelaPlan Key) × (p : VelaPlan Key) × (fetch_flat address ≡ ok raw)
        × (deserialize_plan address raw ≡ ok p)
        × (flat_plan p ≡ plan))
      ⊎ ((e : Failure) × (raw : AnchorVelaUsagePlan Key) × (p : VelaUsagePlan Key) × (fetch_flat
              address
            ≡ err e)
          × (IsMissing e ⊎ IsOtherType e)
          × (fetch_usage address ≡ ok raw)
          × (deserialize_usage_plan address raw ≡ ok p)
          × (usage_plan p ≡ plan))

  IsFound-get_subscribable_plan :
      (plan : SubscribablePlan Key)
      → IsFound plan
      → get_subscribable_plan fetch_flat fetch_usage address ≡ ok plan
  unfolding get_subscribable_plan fall_back read_flat read_usage failure_of
  IsFound-get_subscribable_plan plan (inl (raw, p, fetched, read, same)) =
      rw (fetched, read, get_subscribable_plan) (ap ok same)
  IsFound-get_subscribable_plan plan (inr (e, raw, p, failed, told, fetched, read, same)) =
      let again = (should_try_usage_fallback_iff e).1 told in
      rw (failed, again, fetched, read, get_subscribable_plan, fall_back) (ap ok same)

  read_flat-failed :
      (e : Failure)
      → read_flat fetch_flat address ≡ err e
      → should_try_usage_fallback e ≡ true
      → fetch_flat address ≡ err e
  unfolding read_flat
  read_flat-failed e h again = elim (Result-cases (fetch_flat address)) [
    | inl (raw, fetched) ↦
        let stop = failure_of_lem (deserialize_plan address raw) e (rw (fetched, read_flat) at h) in
        absurd (ground (arith, stop, again))
    | inr (e', failed) ↦
        let same : e' ≡ e = err-injective (rw (failed, read_flat) at h) in failed ∙ ap err same
  ]

  read_flat-ok :
      (p : VelaPlan Key)
      → read_flat fetch_flat address ≡ ok p
      → (raw : AnchorVelaPlan Key) × (fetch_flat address ≡ ok raw)
        × (deserialize_plan address raw ≡ ok p)
  unfolding read_flat
  read_flat-ok p h =
      let (raw, fetched, shown) =
        bind-eq-ok (fetch_flat address) (λ raw. failure_of (deserialize_plan address raw)) h in
      (raw, fetched, failure_of-ok (deserialize_plan address raw) p shown)

  read_usage-ok :
      (p : VelaUsagePlan Key)
      → read_usage fetch_usage address ≡ ok p
      → (raw : AnchorVelaUsagePlan Key) × (fetch_usage address ≡ ok raw)
        × (deserialize_usage_plan address raw ≡ ok p)
  unfolding read_usage
  read_usage-ok p h =
      let (raw, fetched, shown) =
        bind-eq-ok (fetch_usage address) (λ raw. failure_of (deserialize_usage_plan address raw))
          h in
      (raw, fetched, failure_of-ok (deserialize_usage_plan address raw) p shown)

  get_subscribable_plan-IsFound :
      (plan : SubscribablePlan Key)
      → get_subscribable_plan fetch_flat fetch_usage address ≡ ok plan
      → IsFound plan
  unfolding get_subscribable_plan fall_back
  get_subscribable_plan-IsFound plan h = elim (Result-cases (read_flat fetch_flat address)) [
    | inl (p, read) ↦
        let (raw, fetched, shown) = read_flat-ok p read in
        inl (raw, p, fetched, shown, ok-injective (rw (read, get_subscribable_plan) at h))
    | inr (e, failed) ↦ elim (Bool-cases (should_try_usage_fallback e)) [
      | inl again ↦ elim (Result-cases (read_usage fetch_usage address)) [
        | inl (p, read) ↦
            let (raw, fetched, shown) = read_usage-ok p read in
            inr (
              e,
              raw,
              p,
              read_flat-failed e failed again,
              (should_try_usage_fallback_iff e).0 again,
              fetched,
              shown,
              ok-injective (rw (failed, again, read, get_subscribable_plan, fall_back) at h),
            )
        | inr (e', missing) ↦ absurd (ground (arith, failed, again, missing))
      ]
      | inr stop ↦ absurd (ground (arith, failed, stop))
    ]
  ]

  -- A plan is returned exactly when the fetched flat plan reads as it, or the fetch failed with a
  -- text that says that the account does not exist or is of another type, and the fetched usage
  -- plan reads as it.
  pub get_subscribable_plan_iff :
      (plan : SubscribablePlan Key)
      → (get_subscribable_plan fetch_flat fetch_usage address ≡ ok plan) ↔ IsFound plan
  get_subscribable_plan_iff plan =
      (get_subscribable_plan-IsFound plan, IsFound-get_subscribable_plan plan)
