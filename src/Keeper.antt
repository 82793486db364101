-- ===== src/Keeper.antt =====
-- `postUsageReportBridge` of src/internal/usage-bridge.ts: reporting usage to the keeper, with
-- retries. What the attempts meet is a function from the attempt's number.
pub mod Retries
use Prim.Native.String.{String}
use vela_sdk.Prelude.{
  ℕ, zero, suc, ◌+◌, ◌-◌, ◌*◌, ◌^◌, Bool, true, false, not, ◌||◌, Option, none, some, List, [], ◌∷◌,
  ◌==◌, leb, if◌then◌else◌,
}
use vela_sdk.Accounts.PullApproval.{or_else}

-- A response, with the `error` of its body if there is one, or a thrown error.
pub data Outcome : Type 0 where
  response : Bool → ℕ → Option String → Outcome
  thrown : String → Outcome

-- The text of an error: `HTTP ${status}`, the body's, that of what was thrown, or the last return's.
pub data BridgeError : Type 0 where
  http : ℕ → BridgeError
  reported : String → BridgeError
  caught : String → BridgeError
  unexpected : BridgeError

pub record UsageReportBridgeResult : Type 0 where
  pub success : Bool
  pub attempts : ℕ
  pub status : Option ℕ
  pub error : Option BridgeError

unfoldable pub is_retryable_status : ℕ → Bool
is_retryable_status status = status == 429 || leb 500 status

unfoldable pub body_error : ℕ → Option String → BridgeError
body_error status none = http status
body_error status (some text) = reported text

-- The result that an attempt would return.
unfoldable pub result_of : Outcome → ℕ → UsageReportBridgeResult
result_of (response true status body) attempt = record {
  success = true;
  attempts = attempt;
  status = some status;
  error = none;
}
result_of (response false status body) attempt = record {
  success = false;
  attempts = attempt;
  status = some status;
  error = some (body_error status body);
}
result_of (thrown text) attempt = record {
  success = false;
  attempts = attempt;
  status = none;
  error = some (caught text);
}

-- Whether the loop goes on after an outcome, unless the attempt was the last.
unfoldable pub can_retry : Outcome → Bool
can_retry (response true status body) = false
can_retry (response false status body) = is_retryable_status status
can_retry (thrown text) = true

-- The loop from an attempt on, with the fuel `max_attempts + 1 - attempt`: the result, and the
-- milliseconds of each sleep.
unfoldable pub try_from : (ℕ → Outcome) → ℕ → ℕ → ℕ → ℕ → UsageReportBridgeResult × List ℕ
try_from fetch initial_delay_ms max_attempts zero attempt = (
  record { success = false; attempts = max_attempts; status = none; error = some unexpected },
  [],
)
try_from fetch initial_delay_ms max_attempts (suc fuel) attempt =
    let rest = try_from fetch initial_delay_ms max_attempts fuel (attempt + 1) in
    if not (can_retry (fetch attempt)) || attempt == max_attempts
    then (result_of (fetch attempt) attempt, [])
    else (rest.0, initial_delay_ms * 2 ^ (attempt - 1) ∷ rest.1)

unfoldable pub post_usage_report_bridge :
    (ℕ → Outcome) → Option ℕ → Option ℕ → UsageReportBridgeResult × List ℕ
post_usage_report_bridge fetch max_attempts initial_delay_ms =
    let most = or_else max_attempts 3 in try_from fetch (or_else initial_delay_ms 250) most most 1
