-- ===== src/X402/Middleware/Served.antt =====
-- What a served request shows.
use Prim.Native.String.{String}
use vela_sdk.Prelude.{◌≡◌, true, some, ℤ, ◌<ℤ◌, arith, Option-cases, Bool-cases, inl, inr, subst}
use vela_sdk.Prelude.Result.{ok, Result-cases}
use vela_sdk.X402.Dict.{lookup}
use vela_sdk.X402.NonceCache.{
  NonceCache, IsValid, prune, get_issued_nonce_expiry, consume_nonce, prune_call, step,
}
use vela_sdk.X402.NonceCache.Replay.{
  IsConsumed, step-IsValid, consume_nonce_succeeds, step-IsConsumed,
}
use vela_sdk.X402.Proof.{PaymentChallenge, PaymentProof}
use vela_sdk.X402.Transaction.{Transaction}
use vela_sdk.X402.Verify.{Chain, verify_payment_proof}
use vela_sdk.X402.Verify.Pays.{Pays}
use vela_sdk.X402.Verify.Laws.{verify_payment_proof_iff}
use vela_sdk.X402.Middleware.{Times, served, handle_proof}

-- What was paid for a served request: the nonce was issued by this cache with an expiry that still
-- lies ahead, and the transaction of the proof pays the challenge of the options.
pub record IsPaid (chain : Chain) (challenge : PaymentChallenge) (proof : PaymentProof)
    (times : Times) (cache after : NonceCache) : Type 0 where
  pub expires : ℤ
  pub issued : lookup proof.challenge.nonce (prune times.cached cache).issued ≡ some expires
  pub early : times.verified <ℤ expires
  pub same : proof.challenge ≡ record challenge { nonce = proof.challenge.nonce; expires = expires }
  pub transaction : Transaction
  pub found : chain.get_transaction proof.tx_signature ≡ some transaction
  pub pays :
      Pays chain transaction (record challenge { nonce = proof.challenge.nonce; expires = expires })
  pub consumed : IsConsumed proof.challenge.nonce expires after

step-prune-IsValid : (now : ℤ) (c : NonceCache) → IsValid c → IsValid (prune now c)
unfolding step
step-prune-IsValid now c v = step-IsValid (prune_call now) c v

pub step-prune-IsConsumed :
    (nonce : String) (expires now : ℤ) (c : NonceCache)
    → now <ℤ expires
    → IsConsumed nonce expires c
    → IsConsumed nonce expires (prune now c)
unfolding step
step-prune-IsConsumed nonce expires now c early h =
    step-IsConsumed nonce expires (prune_call now) c early h

-- The steps of a served request, each with its success.
pub record Steps (chain : Chain) (challenge : PaymentChallenge) (proof : PaymentProof)
    (times : Times) (cache : NonceCache) : Type 0 where
  pub expires : ℤ
  pub issued : lookup proof.challenge.nonce (prune times.cached cache).issued ≡ some expires
  pub good :
      verify_payment_proof chain proof
        (record challenge { nonce = proof.challenge.nonce; expires = expires })
        times.verified
      ≡ ok tt
  pub done :
      (consume_nonce proof.challenge.nonce expires times.consumed (prune times.cached cache)).1
      ≡ true

pub handle_proof-Steps :
    (chain : Chain) (challenge : PaymentChallenge) (proof : PaymentProof) (times : Times)
    (cache : NonceCache)
    → (handle_proof chain challenge proof times cache).1 ≡ served
    → Steps chain challenge proof times cache
unfolding handle_proof get_issued_nonce_expiry
handle_proof-Steps chain challenge proof times cache h =
    let nonce = proof.challenge.nonce in
    let pruned = prune times.cached cache in
    elim (Option-cases (lookup nonce pruned.issued)) [
      | inl missing ↦ absurd (ground (arith, missing))
      | inr (expires, issued) ↦
          let expected = record challenge { nonce = nonce; expires = expires } in
          elim (Result-cases (verify_payment_proof chain proof expected times.verified)) [
            | inr (e, refused) ↦ absurd (ground (arith, issued, refused))
            | inl (_, good) ↦
                elim (Bool-cases (consume_nonce nonce expires times.consumed pruned).1) [
                  | inr kept ↦ absurd (ground (arith, issued, good, kept))
                  | inl done ↦ record {
                    expires = expires;
                    issued = issued;
                    good = good;
                    done = done;
                  }
                ]
          ]
    ]

-- A proof is served only for a nonce that this cache issued and that has not expired, with a
-- transaction that pays the challenge; the nonce is then on record as consumed.
pub handle_proof-IsPaid :
    (chain : Chain) (challenge : PaymentChallenge) (proof : PaymentProof) (times : Times)
    (cache : NonceCache)
    → IsValid cache
    → (handle_proof chain challenge proof times cache).1 ≡ served
    → IsPaid chain challenge proof times cache (handle_proof chain challenge proof times cache).0
unfolding handle_proof get_issued_nonce_expiry
handle_proof-IsPaid chain challenge proof times cache v h =
    let s = handle_proof-Steps chain challenge proof times cache h in
    let nonce = proof.challenge.nonce in
    let (early, same, t, found, pays) =
      (verify_payment_proof_iff chain proof
          (record challenge { nonce = nonce; expires = s.expires }) times.verified).0
        s.good in
    let (_, _, consumed) =
      consume_nonce_succeeds nonce s.expires times.consumed (prune times.cached cache)
        (step-prune-IsValid times.cached cache v) s.done in
    record {
      expires = s.expires;
      issued = s.issued;
      early = subst (λ c. times.verified <ℤ c.expires) same early;
      same = same;
      transaction = t;
      found = found;
      pays = pays;
      consumed = rw (s.issued, s.good, handle_proof) consumed;
    }
