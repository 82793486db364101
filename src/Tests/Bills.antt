-- ===== src/Tests/Bills.antt =====
-- A plan change in the middle of a period, and what a capped stream owes.
use vela_sdk.Prelude.{◌≡◌, ◌↔◌, ◌≤◌, ◌<◌, ◌≤ℤ◌, ◌<ℤ◌, ◌+ℤ◌, pos, some, arith}
use vela_sdk.Prelude.Result.{ok}
use vela_sdk.Billing.Proration.{Proration, compute_proration}
use vela_sdk.Billing.Proration.Laws.{
  share, charge, credit, compute_proration_lem, compute_proration-ok_iff,
}
use vela_sdk.Billing.Accrued.{accrue_active, accrue_active_bounds}

compute_proration_lem_example :
    (10 ≤ 25
      → (compute_proration (pos 10) (pos 25) (pos 10) (pos 30) ≡ ok (charge (share 15 20 30)))
        × (share 15 20 30 ≤ 15))
    × (25 < 10
        → (compute_proration (pos 10) (pos 25) (pos 10) (pos 30) ≡ ok (credit (share 0 20 30)))
          × (share 0 20 30 ≤ 0))
compute_proration_lem_example = compute_proration_lem 10 25 10 30 (omega arith) (omega arith)

compute_proration-ok_iff_example :
    ((p : Proration) × (compute_proration (pos 10) (pos 25) (pos 10) (pos 30) ≡ ok p)) ↔ (
      (pos 0 ≤ℤ pos 10)
      × (pos 0 ≤ℤ pos 25)
      × (pos 0 ≤ℤ pos 10)
      × (pos 10 ≤ℤ pos 30)
      × (pos 0 <ℤ pos 30))
compute_proration-ok_iff_example = compute_proration-ok_iff (pos 10) (pos 25) (pos 10) (pos 30)

accrue_active_bounds_example :
    (pos 0 ≤ℤ accrue_active (pos 100) (pos 40) (pos 3) (some (pos 500)) (pos 400))
    × (pos 400 +ℤ accrue_active (pos 100) (pos 40) (pos 3) (some (pos 500)) (pos 400) ≤ℤ pos 500)
accrue_active_bounds_example =
    accrue_active_bounds (pos 100) (pos 40) (pos 3) (pos 500) (pos 400) (omega arith) (omega arith)
