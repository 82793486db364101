-- ===== src/Tests/Budgets.antt =====
-- A pull of ten from a mandate that has spent thirty of a hundred today.
use vela_sdk.Prelude.{◌≡◌, ◌↔◌, true, false, some, pos, arith}
use vela_sdk.Budget.Check.{summarize_budget}
use vela_sdk.Budget.Pull.{pull_verdict}
use vela_sdk.Budget.Pull.Laws.{IsAllowed, can_pull_iff}
use vela_sdk.Tests.Toy.{toy_platform}
use vela_sdk.Tests.AgentMandates.{agent_mandate_example}

can_pull_iff_example :
    ((pull_verdict
        (summarize_budget agent_mandate_example (pos 80) (some 5) (pos 2_000))
        false
        5
        (pos 10)
        (pos 2_000)).can_pull
      ≡ true)
    ↔ IsAllowed agent_mandate_example (pos 80) false 5 (pos 10) (pos 2_000)
can_pull_iff_example =
    can_pull_iff agent_mandate_example (pos 80) false 5 (pos 10) (pos 2_000) (omega arith)
