-- ===== src/Tests/Clients.antt =====
-- A client pays a challenge of 250 base units and is served.
use Prim.Native.String.{String}
use vela_sdk.Prelude.{ℕ, false, ◌≡◌, ◌≢◌, refl, ◌⊎◌, ◌+ℤ◌, none, some, List, [], ◌∷◌, ℤ, pos, arith}
use vela_sdk.Prelude.Result.{ok}
use vela_sdk.Budget.Reasons.{is_empty, push_if}
use vela_sdk.Budget.Check.{AgentBudgetSummary, summarize_budget, verify_summary}
use vela_sdk.Budget.Afford.{can_afford}
use vela_sdk.X402.Dict.{lookup}
use vela_sdk.X402.NonceCache.{
  NonceCache, create_nonce_cache, Call, issue, consume, prune_call, issue_nonce, run,
}
use vela_sdk.X402.NonceCache.Replay.{create_nonce_cache-IsValid}
use vela_sdk.X402.Proof.{
  PaymentChallenge, parse_raw_amount, is_digits, read_digits, decimal, write_digits,
  create_payment_proof, create_payment_challenge,
}
use vela_sdk.X402.Transaction.{Transaction}
use vela_sdk.X402.Verify.Pays.{Pays}
use vela_sdk.X402.Verify.Laws.{verify_payment_proof_iff}
use vela_sdk.X402.Middleware.{Options, base_challenge, handle, payment_required, served, truthy}
use vela_sdk.X402.Client.{Surroundings, requested, pulled, pull_request, fetch}
use vela_sdk.X402.Client.Frugal.{CallsForPayment, PaidOnce, IsUnpaid, fetch-PaidOnce}
use vela_sdk.X402.Client.EndToEnd.{CanPay, fetch-served}
use vela_sdk.Tests.Toy.{toy_platform}
use vela_sdk.Tests.AgentMandates.{agent_mandate_example}
use vela_sdk.Tests.Payments.{chain, options, decode, challenge, proof, at, verified}

abbrev budget : AgentBudgetSummary ℕ
budget = record (summarize_budget agent_mandate_example (pos 800) none (pos 2_000)) {
  global_remaining = pos 700;
}

abbrev around : Surroundings ℕ
around = record {
  verify_agent_mandate = λ c. verify_summary budget false false;
  check_agent_budget = λ c. budget;
  agent_pull = λ request. some "sig";
  send = λ proof. elim proof [
    | none ↦ record { status = 402; payment_required = some "challenge" }
    | some p ↦ record { status = 200; payment_required = none }
  ];
  decode_challenge = λ header. ok challenge;
  paid_at = pos 50;
}

abbrev shop : Options
shop = record options { network = some "solana:devnet"; challenge_ttl_ms = some (pos 59_950) }

abbrev issued : NonceCache
issued = issue_nonce "n1" (pos 60_000) (pos 50) create_nonce_cache

fresh_nonce : lookup "n1" create_nonce_cache.consumed ≡ none
unfolding lookup
fresh_nonce = refl

first :
    handle chain shop decode "n1" (at (pos 50)) none create_nonce_cache
    ≡ ok (issued, payment_required challenge)
unfolding handle base_challenge create_payment_challenge parse_raw_amount truthy decimal
    write_digits ◌+ℤ◌
first = refl

can_pay : CanPay around challenge (pos 250) "sig"
unfolding parse_raw_amount is_digits read_digits can_afford verify_summary is_empty push_if
    summarize_budget
can_pay = record {
  status = refl;
  header = "challenge";
  given = refl;
  decoded = refl;
  asked = refl;
  affordable = refl;
  paid = refl;
}

abbrev calls : List Call
calls =
    issue "n9" (pos 70_000) (pos 80) ∷ consume "n9" (pos 70_000) (pos 85) ∷ prune_call (pos 90) ∷ []

other : ◌≢◌ {A = String} "n9" "n1"
other h = cc

paid : (t : Transaction) × (chain.get_transaction "sig" ≡ some t) × Pays chain t challenge
paid =
    let (early, same, transaction, found, pays) =
      (verify_payment_proof_iff chain proof challenge (pos 100)).0 verified in
    (transaction, found, pays)

fetch-served_example :
    ((fetch around).events
      ≡ requested none
        ∷ pulled (pull_request challenge (pos 250))
        ∷ requested (some (create_payment_proof challenge "sig" (pos 50)))
        ∷ [])
    × ((after : NonceCache) × (handle chain shop decode "n2"
            (at (pos 100))
            (some "proof")
            (run calls issued)
          ≡ ok (after, served)))
unfolding create_payment_proof
fetch-served_example =
    fetch-served around chain shop decode "n1" "n2" "proof" "sig" (at (pos 50)) (at (pos 100))
      create_nonce_cache issued calls challenge (pos 250) paid.0 create_nonce_cache-IsValid
      fresh_nonce first can_pay
      ((omega arith, other), ((omega arith, other), ((omega arith, tt), tt)))
      (omega arith, omega arith, omega arith) refl paid.1 paid.2

fetch-PaidOnce_example :
    IsUnpaid around (fetch around)
    ⊎ ((c : PaymentChallenge) × (amount : ℤ) × CallsForPayment around c amount
        × PaidOnce around c amount (fetch around))
fetch-PaidOnce_example = fetch-PaidOnce around
