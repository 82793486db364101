-- ===== src/Tests/Keepers.antt =====
-- A keeper that is down twice and then answers.
use vela_sdk.Prelude.{ℕ, true, false, none, some, ltb, if◌then◌else◌, arith}
use vela_sdk.Keeper.{Outcome, response, thrown, post_usage_report_bridge}
use vela_sdk.Keeper.Retries.{IsEnd, post_usage_report_bridge-IsEnd}

abbrev keeper : ℕ → Outcome
keeper n =
    if ltb n 2
    then response false 503 none
    else if ltb n 3
    then thrown "reset"
    else response true 200 none

post_usage_report_bridge-IsEnd_example :
    IsEnd keeper 1 5 (post_usage_report_bridge keeper (some 5) none).0
post_usage_report_bridge-IsEnd_example = post_usage_report_bridge-IsEnd keeper 5 none (omega arith)
