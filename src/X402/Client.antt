-- ===== src/X402/Client.antt =====
-- The paying client: `VelaPaymentHandler.fetch` of src/x402/client.ts. A run is the requests and the
-- payments that it makes, in order, with its result. The header of a challenge is decoded by a
-- parameter; keys are well-formed texts, so that `new PublicKey` does not throw.
pub mod Frugal
pub mod EndToEnd
use Prim.Native.String.{String}
use vela_sdk.Prelude.{ℕ, Bool, not, Option, none, some, List, [], ◌∷◌, ℤ, ◌==◌, if◌then◌else◌}
use vela_sdk.Prelude.Result.{Result, ok, err}
use vela_sdk.Budget.Reasons.{Reasons}
use vela_sdk.Budget.Check.{AgentBudgetSummary, AgentMandateVerificationResult}
use vela_sdk.Budget.Afford.{can_afford}
use vela_sdk.X402.Middleware.{truthy}
use vela_sdk.X402.Proof.{
  PaymentChallenge, PaymentProof, PaymentError, string, parse_raw_amount, create_payment_proof,
}

-- What `fetch` reads of a response.
pub record HttpResponse : Type 0 where
  pub status : ℕ
  pub payment_required : Option String

-- The parameters of `agentPull`, whose keys are given by their texts.
pub record PullRequest : Type 0 where
  pub authority : String
  pub service_wrapped_account : String
  pub amount : ℤ
  pub wrapped_usdc_mint : Option String

-- What the handler calls: the agent's client, whose payment may fail, the network, the decoder of the
-- header, and the clock for the proof.
pub record Surroundings (Key : Type 0) : Type 0 where
  pub verify_agent_mandate : PaymentChallenge → AgentMandateVerificationResult Key
  pub check_agent_budget : PaymentChallenge → AgentBudgetSummary Key
  pub agent_pull : PullRequest → Option String
  pub send : Option PaymentProof → HttpResponse
  pub decode_challenge : String → Result PaymentError PaymentChallenge
  pub paid_at : ℤ

pub data Event : Type 0 where
  requested : Option PaymentProof → Event
  pulled : PullRequest → Event

pub data ClientError : Type 0 where
  bad_challenge : PaymentError → ClientError
  cannot_satisfy : Reasons → ClientError
  pull_failed : ClientError

pub record Run : Type 0 where
  pub events : List Event
  pub result : Result ClientError HttpResponse

abbrev pub pull_request : PaymentChallenge → ℤ → PullRequest
pull_request challenge amount = record {
  authority = challenge.authority;
  service_wrapped_account = challenge.destination;
  amount = amount;
  wrapped_usdc_mint = truthy challenge.wrapped_usdc_mint;
}

module _ {Key : Type 0} (around : Surroundings Key) where
  -- The payment of a challenge that can be afforded, and the request with its proof.
  unfoldable pub pay : PaymentChallenge → ℤ → Run
  pay challenge amount =
      let request = pull_request challenge amount in
      elim (around.agent_pull request) [
        | none ↦ record { events = requested none ∷ pulled request ∷ []; result = err pull_failed }
        | some signature ↦
            let proof = create_payment_proof challenge signature around.paid_at in
            record {
              events = requested none ∷ pulled request ∷ requested (some proof) ∷ [];
              result = ok (around.send (some proof));
            }
      ]

  unfoldable pub answer : PaymentChallenge → Run
  unfolding pay
  answer challenge = elim (parse_raw_amount (string challenge.amount)) [
    | err e ↦ record { events = requested none ∷ []; result = err (bad_challenge e) }
    | ok amount ↦
        let afforded =
          can_afford (around.verify_agent_mandate challenge) (around.check_agent_budget challenge)
            amount in
        let refused : Run = record {
          events = requested none ∷ [];
          result = err (cannot_satisfy afforded.reasons);
        } in
        if not afforded.affordable then refused else pay challenge amount
  ]

  unfoldable pub fetch : Run
  unfolding answer
  fetch =
      let response = around.send none in
      let unpaid : Run = record { events = requested none ∷ []; result = ok response } in
      if not (response.status == 402) then unpaid else elim response.payment_required [
        | none ↦ unpaid
        | some header ↦ elim (around.decode_challenge header) [
          | err e ↦ record { events = requested none ∷ []; result = err (bad_challenge e) }
          | ok challenge ↦ answer challenge
        ]
      ]
