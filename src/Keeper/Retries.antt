-- ===== src/Keeper/Retries.antt =====
-- The retry loop ends at the first attempt that cannot be retried, or at the last.
use native.Mathlib.Nat.{pow-suc}
use vela_sdk.Prelude.{
  refl, none, ℕ, zero, suc, ◌+◌, ◌-◌, ◌*◌, ◌^◌, ◌≤◌, ◌<◌, ◌≡◌, sym, ◌⊎◌, inl, inr, true, false, not,
  ◌||◌, Option, some, List, [], ◌∷◌, ◌==◌, arith, Bool-cases, subst,
}
use vela_sdk.Accounts.PullApproval.{or_else}
use vela_sdk.Keeper.{
  Outcome, response, thrown, http, reported, caught, is_retryable_status, body_error,
  UsageReportBridgeResult, result_of, can_retry, try_from, post_usage_report_bridge,
}

-- The outcomes that are tried again: a response that is not ok with the status 429 or one from 500
-- on, and a thrown error.
abbrev pub IsRetried : Outcome → Type 0
IsRetried (response true status body) = ⊥
IsRetried (response false status body) = (status ≡ 429) ⊎ (500 ≤ status)
IsRetried (thrown text) = Unit

-- What is reported of an outcome: whether it is a response that is ok, its status, and the error that
-- its body gives, or else the status, or that was thrown.
abbrev pub Reports : Outcome → UsageReportBridgeResult → Type 0
Reports (response true status body) r =
    (r.success ≡ true) × (r.status ≡ some status) × (r.error ≡ none)
Reports (response false status none) r =
    (r.success ≡ false) × (r.status ≡ some status) × (r.error ≡ some (http status))
Reports (response false status (some text)) r =
    (r.success ≡ false) × (r.status ≡ some status) × (r.error ≡ some (reported text))
Reports (thrown text) r = (r.success ≡ false) × (r.status ≡ none) × (r.error ≡ some (caught text))

-- `r` reports the attempt it names, which lies within the bounds; every attempt before it was one to
-- try again, and it was not, or it was the last.
pub record IsEnd (fetch : ℕ → Outcome) (first most : ℕ) (r : UsageReportBridgeResult) : Type 0 where
  pub tried : first ≤ r.attempts
  pub bounded : r.attempts ≤ most
  pub ended : Reports (fetch r.attempts) r
  pub retried : (k : ℕ) → first ≤ k → k < r.attempts → IsRetried (fetch k)
  pub stopped : (¬ (IsRetried (fetch r.attempts))) ⊎ (r.attempts ≡ most)

can_retry-IsRetried : (o : Outcome) → can_retry o ≡ true → IsRetried o
unfolding can_retry is_retryable_status
can_retry-IsRetried (response true status body) h = cc
can_retry-IsRetried (response false status body) h = ground arith
can_retry-IsRetried (thrown text) h = tt

not-IsRetried : (o : Outcome) → can_retry o ≡ false → ¬ (IsRetried o)
unfolding can_retry is_retryable_status
not-IsRetried (response true status body) h again = again
not-IsRetried (response false status body) h again = ground arith
not-IsRetried (thrown text) h again = let e : true ≡ false = h in cc

result_of-Reports : (o : Outcome) (n : ℕ) → Reports o (result_of o n)
unfolding result_of body_error
result_of-Reports (response true status body) n = (refl, refl, refl)
result_of-Reports (response false status none) n = (refl, refl, refl)
result_of-Reports (response false status (some text)) n = (refl, refl, refl)
result_of-Reports (thrown text) n = (refl, refl, refl)

attempts_of : (o : Outcome) (n : ℕ) → (result_of o n).attempts ≡ n
unfolding result_of
attempts_of o n = ground arith

-- The sum of the sleeps.
abbrev pub total : List ℕ → ℕ
total [] = 0
total (n ∷ ns) = n + total ns

stop_here :
    (fetch : ℕ → Outcome) (n most : ℕ)
    → n ≤ most
    → (can_retry (fetch n) ≡ false) ⊎ (n ≡ most)
    → IsEnd fetch n most (result_of (fetch n) n)
stop_here fetch n most h stop =
    let e = attempts_of (fetch n) n in
    record {
      tried = omega (arith, e);
      bounded = omega (arith, e);
      ended =
          subst (λ k. Reports (fetch k) (result_of (fetch n) n)) (sym e)
            (result_of-Reports (fetch n) n);
      retried = λ k low high. absurd (omega (arith, e));
      stopped =
          rw e
            (elim stop [ inl final ↦ inl (not-IsRetried (fetch n) final) | inr last ↦ inr last ]);
    }

start_before :
    (fetch : ℕ → Outcome) (n most : ℕ) (r : UsageReportBridgeResult)
    → can_retry (fetch n) ≡ true
    → IsEnd fetch (n + 1) most r
    → IsEnd fetch n most r
start_before fetch n most r again e = record {
  tried = omega (arith, e.tried);
  bounded = e.bounded;
  ended = e.ended;
  retried = λ k low high. elim (Bool-cases (k == n)) [
    | inl same ↦
        subst (λ m. IsRetried (fetch m)) (ground arith) (can_retry-IsRetried (fetch n) again)
    | inr later ↦ e.retried k (ground arith) high
  ];
  stopped = e.stopped;
}

try_from-IsEnd :
    (fetch : ℕ → Outcome) (delay most fuel n : ℕ)
    → n + fuel ≡ most
    → IsEnd fetch n most (try_from fetch delay most (suc fuel) n).0
unfolding try_from
try_from-IsEnd fetch delay most zero n h =
    let stop : (not (can_retry (fetch n)) || n == most) ≡ true = ground arith in
    rw stop (stop_here fetch n most (omega arith) (inr (omega arith)))
try_from-IsEnd fetch delay most (suc fuel) n h =
    elim (Bool-cases (not (can_retry (fetch n)) || n == most)) [
      | inl stop ↦ rw stop (stop_here fetch n most (omega arith) (ground arith))
      | inr go ↦ rw go (
          start_before fetch n most _ (ground arith)
            (try_from-IsEnd fetch delay most fuel (n + 1) (omega arith)))
    ]

-- With at least one attempt allowed, the result reports one of them: the first that is not to be
-- tried again, which is a response that is ok or has a status below 500 other than 429, or the last.
pub post_usage_report_bridge-IsEnd :
    (fetch : ℕ → Outcome) (most : ℕ) (delay : Option ℕ)
    → 0 < most
    → IsEnd fetch 1 most (post_usage_report_bridge fetch (some most) delay).0
unfolding post_usage_report_bridge
post_usage_report_bridge-IsEnd fetch zero delay h = absurd (omega arith)
post_usage_report_bridge-IsEnd fetch (suc fuel) delay h =
    try_from-IsEnd fetch (or_else delay 250) (suc fuel) fuel 1 (omega arith)

double : (delay n : ℕ) → 0 < n → delay * 2 ^ (n + 1 - 1) ≡ delay * 2 ^ (n - 1) + delay * 2 ^ (n - 1)
double delay zero k = absurd (omega arith)
double delay (suc m) k =
    let e : suc m + 1 - 1 ≡ suc m = omega arith in
    let e' : suc m - 1 ≡ m = omega arith in rw (e, e', pow-suc 2 m) (grind arith)

try_from-total :
    (fetch : ℕ → Outcome) (delay most fuel n : ℕ)
    → n + fuel ≡ most
    → 0 < n
    → total (try_from fetch delay most (suc fuel) n).1 + delay * 2 ^ (n - 1)
      ≡ delay * 2 ^ ((try_from fetch delay most (suc fuel) n).0.attempts - 1)
unfolding try_from
try_from-total fetch delay most zero n h k =
    let stop : (not (can_retry (fetch n)) || n == most) ≡ true = ground arith in
    rw stop (rw (attempts_of (fetch n) n) (omega arith))
try_from-total fetch delay most (suc fuel) n h k =
    elim (Bool-cases (not (can_retry (fetch n)) || n == most)) [
      | inl stop ↦ rw stop (rw (attempts_of (fetch n) n) (omega arith))
      | inr go ↦ rw go (
          omega (
            arith,
            double delay n k,
            try_from-total fetch delay most fuel (n + 1) (omega arith) (omega arith),
          ))
    ]

-- The sleeps double each time: together they are the first one times a power of two less one.
pub post_usage_report_bridge-total :
    (fetch : ℕ → Outcome) (most delay : ℕ)
    → 0 < most
    → total (post_usage_report_bridge fetch (some most) (some delay)).1 + delay
      ≡ delay * 2 ^ ((post_usage_report_bridge fetch (some most) (some delay)).0.attempts - 1)
unfolding post_usage_report_bridge
post_usage_report_bridge-total fetch zero delay h = absurd (omega arith)
post_usage_report_bridge-total fetch (suc fuel) delay h =
    omega (arith, try_from-total fetch delay (suc fuel) fuel 1 (omega arith) (omega arith))
