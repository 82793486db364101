-- ===== src/Billing/Proration/Laws.antt =====
-- What a plan change costs for the rest of the period.
use native.Mathlib.Nat.{div-le_of_le-mul, mul-le-mul_left, mul_comm}
use vela_sdk.Prelude.{
  ℕ, suc, ◌-◌, ◌*◌, ◌/◌, ◌≤◌, ◌<◌, ◌≡◌, ap, ◌∙◌, ℤ, pos, negsuc, ◌-ℤ◌, ◌*ℤ◌, ◌≤ℤ◌, ◌<ℤ◌, arith,
  if◌then◌else◌, ◌==◌, ◌↔◌,
}
use vela_sdk.Prelude.Int.{ltb_ℤ, sub_ℕ}
use vela_sdk.Prelude.Result.{ok}
use vela_sdk.Billing.Proration.{
  Proration, charge_now, credit_now, no_op, negate, abs, quotient, outcome_of, raw_proration,
  compute_proration,
}

-- The share of a price difference for the rest of the period, rounded down.
abbrev pub share : ℕ → ℕ → ℕ → ℕ
share difference remaining period = difference * remaining / period

mul-pos_pos : (a b : ℕ) → pos a *ℤ pos b ≡ pos (a * b)
unfolding ◌*ℤ◌
mul-pos_pos a b = ground arith

sub-pos_pos : (a b : ℕ) → b ≤ a → pos a -ℤ pos b ≡ pos (a - b)
unfolding ◌-ℤ◌
sub-pos_pos a b h = ground arith

sub-pos_pos_lt : (a b : ℕ) → a < b → pos a -ℤ pos b ≡ negsuc (b - a - 1)
unfolding ◌-ℤ◌
sub-pos_pos_lt a b h = ground arith

mul-negsuc_pos : (a b : ℕ) → negsuc a *ℤ pos b ≡ sub_ℕ 0 (suc a * b)
unfolding ◌*ℤ◌
mul-negsuc_pos a b = ground arith

-- A dearer plan is charged its share of the difference.
pub raw_proration_up :
    (old new elapsed period : ℕ)
    → old ≤ new
    → elapsed ≤ period
    → raw_proration (pos old) (pos new) (pos elapsed) (pos period)
      ≡ pos (share (new - old) (period - elapsed) period)
unfolding raw_proration
raw_proration_up old new elapsed period h k =
    rw (sub-pos_pos new old h, sub-pos_pos period elapsed k, mul-pos_pos) (ground arith)

raw_of_negative :
    (n period : ℕ)
    → (if ltb_ℤ (sub_ℕ 0 n) (pos 0)
        then negate (quotient (abs (sub_ℕ 0 n)) (pos period))
        else quotient (abs (sub_ℕ 0 n)) (pos period))
      ≡ negate (pos (n / period))
unfolding ◌-ℤ◌
raw_of_negative n period = ground arith

raw_proration_down :
    (old new elapsed period : ℕ)
    → new < old
    → elapsed ≤ period
    → raw_proration (pos old) (pos new) (pos elapsed) (pos period)
      ≡ negate (pos (share (old - new) (period - elapsed) period))
unfolding raw_proration
raw_proration_down old new elapsed period h k =
    let e : suc (old - new - 1) ≡ old - new = omega arith in
    rw (sub-pos_pos_lt new old h, sub-pos_pos period elapsed k, mul-negsuc_pos, e)
      (raw_of_negative ((old - new) * (period - elapsed)) period)

-- The whole computation on amounts that the guards let through.
compute_proration_passes :
    (old new elapsed period : ℤ)
    → pos 0 ≤ℤ old
    → pos 0 ≤ℤ new
    → pos 0 ≤ℤ elapsed
    → elapsed ≤ℤ period
    → pos 0 <ℤ period
    → compute_proration old new elapsed period ≡ (
        let raw = raw_proration old new elapsed period in
        ok (record { outcome = outcome_of raw; proration_amount = raw }))
unfolding compute_proration
compute_proration_passes old new elapsed period h1 h2 h3 h4 h5 = ground arith

-- The result of a charge and of a credit of `n`, which are nothing when `n` is.
abbrev pub charge : ℕ → Proration
charge n = record { outcome = if n == 0 then no_op else charge_now; proration_amount = pos n }

abbrev pub credit : ℕ → Proration
credit n = record {
  outcome = if n == 0 then no_op else credit_now;
  proration_amount = negate (pos n);
}

outcome_of_pos : (n : ℕ) → outcome_of (pos n) ≡ (charge n).outcome
outcome_of_pos n = ground arith

outcome_of-negate : (n : ℕ) → outcome_of (negate (pos n)) ≡ (credit n).outcome
unfolding ◌-ℤ◌
outcome_of-negate n = ground arith

compute_proration_up :
    (old new elapsed period : ℕ)
    → elapsed ≤ period
    → 0 < period
    → old ≤ new
    → compute_proration (pos old) (pos new) (pos elapsed) (pos period)
      ≡ ok (charge (share (new - old) (period - elapsed) period))
compute_proration_up old new elapsed period h k up =
    let n = share (new - old) (period - elapsed) period in
    compute_proration_passes (pos old) (pos new) (pos elapsed) (pos period) (omega arith)
      (omega arith) (omega arith) (omega arith) (omega arith)
    ∙ rw (raw_proration_up old new elapsed period up h)
        (ap (λ o. ok (record { outcome = o; proration_amount = pos n })) (outcome_of_pos n))

compute_proration_down :
    (old new elapsed period : ℕ)
    → elapsed ≤ period
    → 0 < period
    → new < old
    → compute_proration (pos old) (pos new) (pos elapsed) (pos period)
      ≡ ok (credit (share (old - new) (period - elapsed) period))
compute_proration_down old new elapsed period h k down =
    let n = share (old - new) (period - elapsed) period in
    compute_proration_passes (pos old) (pos new) (pos elapsed) (pos period) (omega arith)
      (omega arith) (omega arith) (omega arith) (omega arith)
    ∙ rw (raw_proration_down old new elapsed period down h) (
        ap (λ o. ok (record { outcome = o; proration_amount = negate (pos n) }))
          (outcome_of-negate n))

-- The share of a difference for the rest of a period is at most the difference.
share_le :
    (difference remaining period : ℕ)
    → remaining ≤ period
    → 0 < period
    → share difference remaining period ≤ difference
share_le difference remaining period h k =
    div-le_of_le-mul period
      (omega (arith, mul-le-mul_left difference h, mul_comm difference period))

-- Within a period, moving to a dearer plan charges the share of the difference that the rest of the
-- period is, rounded down; moving to a cheaper one credits it; a share of zero is no change; and
-- the share is at most the difference.
pub compute_proration_lem :
    (old new elapsed period : ℕ)
    → elapsed ≤ period
    → 0 < period
    → (old ≤ new
        → (compute_proration (pos old) (pos new) (pos elapsed) (pos period)
            ≡ ok (charge (share (new - old) (period - elapsed) period)))
          × (share (new - old) (period - elapsed) period ≤ new - old))
      × (new < old
          → (compute_proration (pos old) (pos new) (pos elapsed) (pos period)
              ≡ ok (credit (share (old - new) (period - elapsed) period)))
            × (share (old - new) (period - elapsed) period ≤ old - new))
compute_proration_lem old new elapsed period h k = (
  λ up. (
    compute_proration_up old new elapsed period h k up,
    share_le (new - old) (period - elapsed) period (omega arith) k,
  ),
  λ down. (
    compute_proration_down old new elapsed period h k down,
    share_le (old - new) (period - elapsed) period (omega arith) k,
  ),
)

-- The computation succeeds exactly when no amount is negative, the period is positive and the
-- elapsed time lies within it.
pub compute_proration-ok_iff :
    (old new elapsed period : ℤ)
    → ((p : Proration) × (compute_proration old new elapsed period ≡ ok p)) ↔ (
        (pos 0 ≤ℤ old)
        × (pos 0 ≤ℤ new)
        × (pos 0 ≤ℤ elapsed)
        × (elapsed ≤ℤ period)
        × (pos 0 <ℤ period))
unfolding compute_proration
compute_proration-ok_iff old new elapsed period = (
  λ (p, h). ground arith,
  λ (h1, h2, h3, h4, h5). (_, compute_proration_passes old new elapsed period h1 h2 h3 h4 h5),
)
