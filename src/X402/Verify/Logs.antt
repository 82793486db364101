-- ===== src/X402/Verify/Logs.antt =====
-- That `verifyPaymentProof` of src/x402/server.ts finds the message of the log which a payment must show.
use Prim.Native.String.{String}
use vela_sdk.Prelude.{
  ◌≡◌, refl, sym, ap, ◌∙◌, ◌↔◌, inl, inr, Bool, true, false, [], any, Option-cases,
}
use vela_sdk.Prelude.First.{any-Has, Has-any}
use vela_sdk.Bytes.{codes, contains}
use vela_sdk.Bytes.Parts.{IsPart, contains_iff}
use vela_sdk.Accounts.PullApproval.{or_else}
use vela_sdk.X402.Transaction.{Transaction, has_agent_pull_log}
use vela_sdk.X402.Verify.Pays.{Logs}

tells : String → Bool
tells message = contains (codes message) (codes "Instruction: AgentPull")

has_agent_pull_log_lem :
    (t : Transaction) → has_agent_pull_log t ≡ any tells (or_else t.log_messages [])
unfolding has_agent_pull_log tells
has_agent_pull_log_lem t = refl

tells_iff :
    (message : String)
    → (tells message ≡ true) ↔ IsPart (codes "Instruction: AgentPull") (codes message)
unfolding tells
tells_iff message = contains_iff (codes message) (codes "Instruction: AgentPull")

has_log-Logs : (t : Transaction) → has_agent_pull_log t ≡ true → Logs t
has_log-Logs t h =
    let told = sym (has_agent_pull_log_lem t) ∙ h in
    elim (Option-cases t.log_messages) [
      | inl e ↦
          let none_there : false ≡ true = ap (λ o. any tells (or_else o [])) (sym e) ∙ told in cc
      | inr (messages, e) ↦
          let (message, there, said) =
            any-Has tells messages (ap (λ o. any tells (or_else o [])) (sym e) ∙ told) in
          (messages, message, e, there, (tells_iff message).0 said)
    ]

Logs-has_log : (t : Transaction) → Logs t → has_agent_pull_log t ≡ true
Logs-has_log t (messages, message, e, there, said) =
    has_agent_pull_log_lem t
    ∙ ap (λ o. any tells (or_else o [])) e
    ∙ Has-any tells message messages there ((tells_iff message).1 said)

pub has_agent_pull_log-Logs : (t : Transaction) → (has_agent_pull_log t ≡ true) ↔ Logs t
has_agent_pull_log-Logs t = (has_log-Logs t, Logs-has_log t)
