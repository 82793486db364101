-- ===== src/Billing/Upgrade/Signature.antt =====
-- Changes that charge more need the signature of the subscriber, and a preview of sound amounts
-- never fails.
use Prim.Native.String.{String}
use text.Mathlib.TextEquality.{eq_iff}
use vela_sdk.Prelude.{
  ℕ, ◌≡◌, refl, ap, sym, ◌∙◌, ◌&&◌, none, ℤ, pos, ◌≤◌, ◌<◌, ◌-◌, ◌==◌, ltb, ◌≤ℤ◌, ◌<ℤ◌, arith,
  Bool-cases, inl, inr,
}
use vela_sdk.Prelude.Int.{eqb_ℤ, int_laws}
use vela_sdk.Prelude.Result.{ok, Result-cases, ok-injective}
use vela_sdk.Accounts.Platform.{Platform}
use vela_sdk.Accounts.VelaMandate.{VelaMandate}
use vela_sdk.Accounts.StreamMandate.{StreamMandate}
use vela_sdk.Accounts.TokenConfig.{TokenConfig}
use vela_sdk.Billing.Proration.{
  Proration, charge_now, credit_now, no_op, scheduled_change, compute_proration,
}
use vela_sdk.Billing.Proration.Laws.{
  share, charge, credit, compute_proration-ok_iff, compute_proration_lem,
}
use vela_sdk.Billing.Upgrade.{
  PeriodicUpgradePlanInput, StreamRatePlanInput, UpgradePreview, UpgradeInstruction, elapsed_of,
  periodic_proration, preview_periodic_plan_change, preview_stream_rate_change, execute_periodic,
  execute_stream, is_scheduled, resolve_effective_at, is_plan, assert_token_match,
}

-- The elapsed part of a period lies within it.
pub elapsed_of_bounds :
    (due frequency now : ℤ)
    → pos 0 ≤ℤ frequency
    → (pos 0 ≤ℤ elapsed_of due frequency now) × (elapsed_of due frequency now ≤ℤ frequency)
unfolding elapsed_of
elapsed_of_bounds due frequency now h = (grind int_laws, grind int_laws)

not_charged_credit : (k : ℕ) → ¬ ((credit k).outcome ≡ charge_now)
not_charged_credit k h = elim (Bool-cases (k == 0)) [
  | inl z ↦ let h' : no_op ≡ charge_now = rw z at h in cc
  | inr s ↦ let h' : credit_now ≡ charge_now = rw s at h in cc
]

charged_nat :
    (old new elapsed period : ℕ) (p : Proration)
    → elapsed ≤ period
    → 0 < period
    → compute_proration (pos old) (pos new) (pos elapsed) (pos period) ≡ ok p
    → p.outcome ≡ charge_now
    → old < new
charged_nat old new elapsed period p h k computed charged =
    let (up, down) = compute_proration_lem old new elapsed period h k in
    elim (Bool-cases (ltb old new)) [
      | inl more ↦ ground arith
      | inr other ↦ elim (Bool-cases (ltb new old)) [
        | inl less ↦
            let same = ok-injective (sym computed ∙ (down (ground arith)).0) in
            absurd (not_charged_credit _ (ap (λ q. q.outcome) (sym same) ∙ charged))
        | inr equal ↦
            let (e, small) = up (ground arith) in
            let none_due : share (new - old) (period - elapsed) period ≡ 0 =
              ground (arith, small) in
            let same = ok-injective (sym computed ∙ e) in
            let idle : no_op ≡ charge_now =
              ap (λ k. (charge k).outcome) (sym none_due)
              ∙ ap (λ q. q.outcome) (sym same)
              ∙ charged in
            cc
      ]
    ]

-- Only a dearer plan is charged for.
pub charged_dearer :
    (old new elapsed period : ℤ) (p : Proration)
    → compute_proration old new elapsed period ≡ ok p
    → p.outcome ≡ charge_now
    → old <ℤ new
charged_dearer (pos old) (pos new) (pos elapsed) (pos period) p h charged =
    let (_, _, _, within, some_time) =
      (compute_proration-ok_iff (pos old) (pos new) (pos elapsed) (pos period)).0 (p, h) in
    omega (
      arith,
      charged_nat old new elapsed period p (omega (arith, within)) (omega (arith, some_time)) h
          charged,
    )
charged_dearer old new elapsed period p h charged =
    let (a, b, c, d, e) = (compute_proration-ok_iff old new elapsed period).0 (p, h) in
    absurd (omega (arith, a, b, c, d, e))

module _ {Key : Type 0} ⦃platform : Platform Key⦄ where
  -- Amounts that are not negative and a positive frequency always have a proration.
  pub periodic_proration-ok :
      (m : VelaMandate Key) (plan : PeriodicUpgradePlanInput Key) (now : ℤ)
      → pos 0 ≤ℤ m.amount
      → pos 0 ≤ℤ plan.amount
      → pos 0 <ℤ m.frequency
      → (p : Proration) × (periodic_proration m plan now ≡ ok p)
  unfolding periodic_proration
  periodic_proration-ok m plan now h1 h2 h3 =
      let (low, high) = elapsed_of_bounds m.next_payment_due m.frequency now (omega arith) in
      let (p, e) =
        (compute_proration-ok_iff m.amount plan.amount
            (elapsed_of m.next_payment_due m.frequency now) m.frequency).1
          (h1, h2, low, high, h3) in
      elim (Bool-cases (is_scheduled (resolve_effective_at plan.effective_at) now)) [
        | inl later ↦
            (record { outcome = scheduled_change; proration_amount = pos 0 }, rw later refl)
        | inr today ↦
            elim (Bool-cases (is_plan m.plan plan.address && eqb_ℤ plan.amount m.amount)) [
              | inl same ↦
                  (record { outcome = no_op; proration_amount = pos 0 }, rw (today, same) refl)
              | inr other ↦ (p, rw (today, other, e) refl)
            ]
      ]

  dearer_of :
      (m : VelaMandate Key) (plan : PeriodicUpgradePlanInput Key) (now : ℤ) (p : Proration)
      → periodic_proration m plan now ≡ ok p
      → p.outcome ≡ charge_now
      → m.amount <ℤ plan.amount
  unfolding periodic_proration
  dearer_of m plan now p h charged =
      let elapsed = elapsed_of m.next_payment_due m.frequency now in
      elim (Bool-cases (is_scheduled (resolve_effective_at plan.effective_at) now)) [
        | inl later ↦ absurd (ground (arith, later))
        | inr today ↦
            elim (Bool-cases (is_plan m.plan plan.address && eqb_ℤ plan.amount m.amount)) [
              | inl same ↦ absurd (ground (arith, today, same))
              | inr other ↦
                  elim (Result-cases (compute_proration m.amount plan.amount elapsed m.frequency)) [
                    | inl (q, computed) ↦
                        let same : q ≡ p = ok-injective (rw (today, other, computed) at h) in
                        charged_dearer m.amount plan.amount elapsed m.frequency q computed
                          (ap (λ t. t.outcome) same ∙ charged)
                    | inr (e, failed) ↦ absurd (ground (arith, today, other, failed))
                  ]
            ]
      ]

  module _ (get_token_symbol : Key → String) where
    -- A change to a dearer plan builds an instruction only when the authority is the subscriber.
    pub execute_periodic-signed :
        (m : VelaMandate Key) (plan : PeriodicUpgradePlanInput Key) (config : TokenConfig Key)
        (authority : Key) (now : ℤ) (i : UpgradeInstruction Key)
        → execute_periodic get_token_symbol m plan config authority now ≡ ok i
        → m.amount <ℤ plan.amount
        → platform.to_base58 authority ≡ platform.to_base58 m.subscriber
    unfolding execute_periodic preview_periodic_plan_change
    execute_periodic-signed m plan config authority now i h dearer =
        (eq_iff (platform.to_base58 authority) (platform.to_base58 m.subscriber)).0 (ground arith)

    -- So does a rate above the authorized maximum.
    pub execute_stream-signed :
        (m : StreamMandate Key) (plan : StreamRatePlanInput Key) (config : TokenConfig Key)
        (authority : Key) (now : ℤ) (i : UpgradeInstruction Key)
        → execute_stream get_token_symbol m plan config authority now ≡ ok i
        → m.authorized_max_rate <ℤ plan.amount
        → platform.to_base58 authority ≡ platform.to_base58 m.subscriber
    unfolding execute_stream preview_stream_rate_change
    execute_stream-signed m plan config authority now i h faster =
        (eq_iff (platform.to_base58 authority) (platform.to_base58 m.subscriber)).0 (ground arith)

    -- A change whose preview charges the subscriber builds an instruction only when the authority is
    -- the subscriber.
    pub charge-signed :
        (m : VelaMandate Key) (plan : PeriodicUpgradePlanInput Key) (config : TokenConfig Key)
        (authority : Key) (now : ℤ) (preview : UpgradePreview) (i : UpgradeInstruction Key)
        → preview_periodic_plan_change get_token_symbol m plan config now ≡ ok preview
        → preview.outcome ≡ charge_now
        → execute_periodic get_token_symbol m plan config authority now ≡ ok i
        → platform.to_base58 authority ≡ platform.to_base58 m.subscriber
    unfolding preview_periodic_plan_change
    charge-signed m plan config authority now preview i previewed charged built =
        elim (Result-cases (assert_token_match config plan.mint none)) [
          | inr (e, refused) ↦ absurd (ground (arith, refused))
          | inl (_, accepted) ↦ elim (Result-cases (periodic_proration m plan now)) [
            | inr (e, failed) ↦ absurd (ground (arith, accepted, failed))
            | inl (change, changed) ↦
                let made : change.outcome ≡ preview.outcome = ground (arith, accepted, changed) in
                execute_periodic-signed m plan config authority now i built
                  (dearer_of m plan now change changed (made ∙ charged))
          ]
        ]
