-- ===== src/Tests/Approvals.antt =====
-- A pull approval, written, read back and judged.
use vela_sdk.Prelude.{ℕ, ◌≡◌, ◌↔◌, true, none, some, pos}
use vela_sdk.Accounts.PullApproval.{
  PullApprovalAccount, PullApprovalStatusInput, is_pull_approval_current,
}
use vela_sdk.Accounts.PullApproval.Layout.{IsCurrent, is_pull_approval_current_iff}
use vela_sdk.Tests.Toy.{toy_platform, toy_platform-IsLawful}

abbrev approval_example : PullApprovalAccount ℕ
approval_example = record {
  address = 1;
  mandate = 2;
  period_start = pos 100;
  period_end = pos 200;
  valid_until = pos 150;
  approved = true;
  approved_amount = pos 75;
  created_at = pos 90;
  bump = 253;
}

abbrev wanted : PullApprovalStatusInput ℕ
wanted = record {
  expected_mandate = 2;
  expected_period_start = pos 100;
  expected_period_end = pos 200;
  now = none;
  min_amount = some (pos 70);
}

is_pull_approval_current_iff_example :
    (is_pull_approval_current (pos 149) approval_example wanted ≡ true)
    ↔ IsCurrent (pos 149) approval_example wanted
is_pull_approval_current_iff_example =
    is_pull_approval_current_iff (pos 149) approval_example wanted toy_platform-IsLawful
