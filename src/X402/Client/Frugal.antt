-- ===== src/X402/Client/Frugal.antt =====
-- When the client pays, and what.
use Prim.Native.String.{String}
use vela_sdk.Prelude.{
  ◌≡◌, refl, ap, ◌∙◌, ◌⊎◌, inl, inr, true, none, some, [], ◌∷◌, ℤ, ◌≤ℤ◌, Bool-cases, Option-cases,
  ==_iff, ◌==◌,
}
use vela_sdk.Prelude.Result.{ok, err, Result-cases}
use vela_sdk.Budget.Reasons.{is_empty}
use vela_sdk.Budget.Afford.{can_afford, can_afford_iff}
use vela_sdk.X402.Proof.{PaymentChallenge, string, parse_raw_amount, create_payment_proof}
use vela_sdk.X402.Client.{
  Surroundings, requested, pulled, pull_failed, Run, pull_request, pay, answer, fetch,
}

-- A payment is called for: the response is a 402 whose challenge decodes and asks for an amount, the
-- mandate verified without a reason, and its remainder of the day and its balance cover the amount.
pub record CallsForPayment {Key : Type 0} (around : Surroundings Key) (challenge : PaymentChallenge)
    (amount : ℤ) : Type 0 where
  pub status : (around.send none).status ≡ 402
  pub header : String
  pub given : (around.send none).payment_required ≡ some header
  pub decoded : around.decode_challenge header ≡ ok challenge
  pub asked : parse_raw_amount (string challenge.amount) ≡ ok amount
  pub verified : is_empty (around.verify_agent_mandate challenge).reasons ≡ true
  pub within_day : amount ≤ℤ (around.check_agent_budget challenge).global_remaining
  pub covered : amount ≤ℤ (around.check_agent_budget challenge).mandate_balance

-- The payment was tried once, for what the challenge asks, and the one further request, if the payment
-- was made, has its proof.
abbrev pub PaidOnce : {Key : Type 0} → Surroundings Key → PaymentChallenge → ℤ → Run → Type 0
PaidOnce around challenge amount run =
    ((around.agent_pull (pull_request challenge amount) ≡ none)
      × (run.events ≡ requested none ∷ pulled (pull_request challenge amount) ∷ [])
      × (run.result ≡ err pull_failed))
    ⊎ ((signature : String) × (around.agent_pull (pull_request challenge amount) ≡ some signature)
        × (run.events
            ≡ requested none
              ∷ pulled (pull_request challenge amount)
              ∷ requested (some (create_payment_proof challenge signature around.paid_at))
              ∷ [])
        × (run.result
            ≡ ok (around.send (some (create_payment_proof challenge signature around.paid_at)))))

module _ {Key : Type 0} (around : Surroundings Key) where
  pay-PaidOnce :
      (challenge : PaymentChallenge) (amount : ℤ)
      → PaidOnce around challenge amount (pay around challenge amount)
  unfolding pay
  pay-PaidOnce challenge amount =
      elim (Option-cases (around.agent_pull (pull_request challenge amount))) [
        | inl failed ↦ inl (failed, rw (failed, pay) refl, rw (failed, pay) refl)
        | inr (signature, paid) ↦ inr (signature, paid, rw (paid, pay) refl, rw (paid, pay) refl)
      ]

  -- No payment, and one request.
  abbrev pub IsUnpaid : Run → Type 0
  IsUnpaid run = run.events ≡ requested none ∷ []

  abbrev IsAffordable : PaymentChallenge → ℤ → Type 0
  IsAffordable challenge amount =
      (can_afford (around.verify_agent_mandate challenge) (around.check_agent_budget challenge)
        amount).affordable
      ≡ true

  answer-cases :
      (challenge : PaymentChallenge)
      → IsUnpaid (answer around challenge)
        ⊎ ((amount : ℤ) × (parse_raw_amount (string challenge.amount) ≡ ok amount)
            × IsAffordable challenge amount
            × (answer around challenge ≡ pay around challenge amount))
  unfolding answer
  answer-cases challenge = elim (Result-cases (parse_raw_amount (string challenge.amount))) [
    | inr (e, bad) ↦ inl (rw (bad, answer) refl)
    | inl (amount, asked) ↦
        elim (Bool-cases
          (can_afford (around.verify_agent_mandate challenge) (around.check_agent_budget challenge)
            amount).affordable) [
              | inr short ↦ inl (rw (asked, answer) rw short refl)
              | inl enough ↦ inr (amount, asked, enough, rw (asked, answer) rw enough refl)
            ]
  ]

  fetch-cases :
      IsUnpaid (fetch around)
      ⊎ ((header : String) × (challenge : PaymentChallenge) × ((around.send none).status ≡ 402)
          × ((around.send none).payment_required ≡ some header)
          × (around.decode_challenge header ≡ ok challenge)
          × (fetch around ≡ answer around challenge))
  unfolding fetch
  fetch-cases = elim (Bool-cases ((around.send none).status == 402)) [
    | inr other ↦ inl (rw other refl)
    | inl required ↦ elim (Option-cases (around.send none).payment_required) [
      | inl missing ↦ inl (rw required rw missing refl)
      | inr (header, given) ↦ elim (Result-cases (around.decode_challenge header)) [
        | inr (e, bad) ↦ inl (rw required rw given rw bad refl)
        | inl (challenge, decoded) ↦ inr (
          header,
          challenge,
          (==_iff _ _).0 required,
          given,
          decoded,
          rw required rw given rw decoded refl,
        )
      ]
    ]
  ]

  pub fetch-PaidOnce :
      IsUnpaid (fetch around)
      ⊎ ((challenge : PaymentChallenge) × (amount : ℤ) × CallsForPayment around challenge amount
          × PaidOnce around challenge amount (fetch around))
  fetch-PaidOnce = elim fetch-cases [
    | inl unpaid ↦ inl unpaid
    | inr (header, challenge, status, given, decoded, answered) ↦ elim (answer-cases challenge) [
      | inl unpaid ↦ inl (ap (λ r. r.events) answered ∙ unpaid)
      | inr (amount, asked, enough, paying) ↦
          let (verified, within_day, _, covered) =
            (can_afford_iff (around.verify_agent_mandate challenge)
                (around.check_agent_budget challenge) amount).0
              enough in
          inr (
            challenge,
            amount,
            record {
              status = status;
              header = header;
              given = given;
              decoded = decoded;
              asked = asked;
              verified = verified;
              within_day = within_day;
              covered = covered;
            },
            rw answered rw paying (pay-PaidOnce challenge amount),
          )
    ]
  ]
