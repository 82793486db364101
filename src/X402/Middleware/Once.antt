-- ===== src/X402/Middleware/Once.antt =====
-- No challenge is served twice, whatever requests come between.
use Prim.Native.String.{String}
use vela_sdk.Prelude.{
  ◌≡◌, ap, sym, ◌∙◌, true, false, Option, List, [], ◌∷◌, All, ℤ, ◌≤ℤ◌, ◌<ℤ◌, arith, Option-cases,
  Bool-cases, inl, inr, subst,
}
use vela_sdk.Prelude.Int.{ltb_ℤ}
use vela_sdk.Prelude.Result.{Result, ok, err, Result-cases}
use vela_sdk.X402.NonceCache.{
  NonceCache, IsValid, prune, get_issued_nonce_expiry, issue, get_expiry, consume, step,
}
use vela_sdk.X402.NonceCache.Replay.{
  IsConsumed, consume_nonce_used, consume_nonce_late, step-IsConsumed,
}
use vela_sdk.X402.Proof.{PaymentChallenge, PaymentProof, PaymentError}
use vela_sdk.X402.Verify.{Chain, verify_payment_proof}
use vela_sdk.X402.Verify.Laws.{verify_payment_proof_iff}
use vela_sdk.X402.Middleware.{Options, Times, served, handle_proof, handle, base_challenge}
use vela_sdk.X402.Middleware.Served.{handle_proof-Steps, handle_proof-IsPaid, step-prune-IsConsumed}

-- A request as the server sees it.
pub record Request : Type 0 where
  pub fresh : String
  pub times : Times
  pub header : Option String

-- The cache after a request, and after several, one after another.
unfoldable pub after_request :
    Chain
    → Options
    → (String → Result PaymentError PaymentProof)
    → Request
    → NonceCache
    → NonceCache
after_request chain options decode request cache =
    elim (handle chain options decode request.fresh request.times request.header cache) [
      | ok (next, _) ↦ next
      | err _ ↦ cache
    ]

unfoldable pub after_requests :
    Chain
    → Options
    → (String → Result PaymentError PaymentProof)
    → List Request
    → NonceCache
    → NonceCache
after_requests chain options decode [] cache = cache
after_requests chain options decode (request ∷ requests) cache =
    after_requests chain options decode requests (after_request chain options decode request cache)

abbrev IsBefore : ℤ → Times → Type 0
IsBefore t times = (times.cached <ℤ t) × (times.consumed <ℤ t)

handle_proof-IsConsumed :
    (chain : Chain) (challenge : PaymentChallenge) (proof : PaymentProof) (times : Times)
    (nonce : String) (expires : ℤ) (cache : NonceCache)
    → IsBefore expires times
    → IsConsumed nonce expires cache
    → IsConsumed nonce expires (handle_proof chain challenge proof times cache).0
unfolding handle_proof step
handle_proof-IsConsumed chain challenge proof times nonce expires cache (early, late) h =
    let n = proof.challenge.nonce in
    let (next, found) = get_issued_nonce_expiry n times.cached cache in
    let k : IsConsumed nonce expires next =
      step-IsConsumed nonce expires (get_expiry n times.cached) cache early h in
    elim (Option-cases found) [
      | inl missing ↦ rw (missing, handle_proof) k
      | inr (e, issued) ↦
          let expected = record challenge { nonce = n; expires = e } in
          elim (Result-cases (verify_payment_proof chain proof expected times.verified)) [
            | inr (failure, refused) ↦ rw (issued, refused, handle_proof) k
            | inl (_, good) ↦
                rw (issued, good, handle_proof)
                  (step-IsConsumed nonce expires (consume n e times.consumed) next late k)
          ]
    ]

after_request-IsConsumed :
    (chain : Chain) (options : Options) (decode : String → Result PaymentError PaymentProof)
    (request : Request) (nonce : String) (expires : ℤ) (cache : NonceCache)
    → IsBefore expires request.times
    → IsConsumed nonce expires cache
    → IsConsumed nonce expires (after_request chain options decode request cache)
unfolding after_request handle step
after_request-IsConsumed chain options decode request nonce expires cache early h =
    elim (Result-cases (base_challenge chain options request.fresh request.times)) [
      | inr (e, failed) ↦ rw (failed, after_request, handle) h
      | inl (challenge, made) ↦ elim (Option-cases request.header) [
        | inl missing ↦
            rw (made, missing, after_request, handle)
              (step-IsConsumed nonce expires
                (issue challenge.nonce challenge.expires request.times.cached) cache early.0 h)
        | inr (text, given) ↦ elim (Result-cases (decode text)) [
          | inr (e, broken) ↦ rw (made, given, broken, after_request, handle) h
          | inl (proof, decoded) ↦
              rw (made, given, decoded, after_request, handle)
                (handle_proof-IsConsumed chain challenge proof request.times nonce expires cache
                  early h)
        ]
      ]
    ]

after_requests-IsConsumed :
    (chain : Chain) (options : Options) (decode : String → Result PaymentError PaymentProof)
    (requests : List Request) (nonce : String) (expires : ℤ) (cache : NonceCache)
    → All (λ r. IsBefore expires r.times) requests
    → IsConsumed nonce expires cache
    → IsConsumed nonce expires (after_requests chain options decode requests cache)
unfolding after_requests
after_requests-IsConsumed chain options decode [] nonce expires cache early h = h
after_requests-IsConsumed chain options decode (r ∷ rs) nonce expires cache (first, later) h =
    after_requests-IsConsumed chain options decode rs nonce expires _ later
      (after_request-IsConsumed chain options decode r nonce expires cache first h)

true-ne-false : ¬ (true ≡ false)
true-ne-false h = cc

-- A consumed nonce is refused at every later time, before its expiry and after it.
again_refused :
    (chain : Chain) (challenge : PaymentChallenge) (again : PaymentProof) (times : Times)
    (expires : ℤ) (cache : NonceCache)
    → again.challenge.expires ≡ expires
    → times.cached ≤ℤ times.verified
    → IsConsumed again.challenge.nonce expires cache
    → ¬ ((handle_proof chain challenge again times cache).1 ≡ served)
again_refused chain challenge again times expires cache e o1 h twice =
    let s = handle_proof-Steps chain challenge again times cache twice in
    let nonce = again.challenge.nonce in
    let (early, same, _, _, _) =
      (verify_payment_proof_iff chain again
          (record challenge { nonce = nonce; expires = s.expires }) times.verified).0
        s.good in
    let end : again.challenge.expires ≡ s.expires = ap (λ c. c.expires) same in
    let pruned = prune times.cached cache in
    let early' : times.cached <ℤ expires =
      subst (λ t. times.cached <ℤ t) e (omega (arith, early)) in
    let kept = step-prune-IsConsumed nonce expires times.cached cache early' h in
    elim (Bool-cases (ltb_ℤ times.consumed expires)) [
      | inl soon ↦ absurd (
          true-ne-false (
            sym s.done
            ∙ consume_nonce_used nonce expires s.expires times.consumed pruned (ground arith) kept))
      | inr late ↦ absurd (
          true-ne-false (
            sym s.done
            ∙ consume_nonce_late nonce s.expires times.consumed pruned
                (subst (λ t. t ≤ℤ times.consumed) (sym e ∙ end) (ground arith))))
    ]

All-IsBefore :
    (requests : List Request) (now expires : ℤ)
    → now <ℤ expires
    → All (λ r. (r.times.cached ≤ℤ now) × (r.times.consumed ≤ℤ now)) requests
    → All (λ r. IsBefore expires r.times) requests
All-IsBefore [] now expires h between = tt
All-IsBefore (r ∷ rs) now expires h ((cached, consumed), later) =
    ((omega arith, omega arith), All-IsBefore rs now expires h later)

-- A challenge is served at most once: after a proof was served, no proof of the same challenge is
-- served again, whatever its transaction is and whatever requests come between, as long as the
-- clock does not run back.
pub served_once :
    (chain : Chain) (options : Options) (decode : String → Result PaymentError PaymentProof)
    (challenge challenge' : PaymentChallenge) (proof again : PaymentProof) (times times' : Times)
    (requests : List Request) (cache : NonceCache)
    → IsValid cache
    → (handle_proof chain challenge proof times cache).1 ≡ served
    → again.challenge ≡ proof.challenge
    → All (λ r. (r.times.cached ≤ℤ times'.cached) × (r.times.consumed ≤ℤ times'.cached)) requests
    → times'.cached ≤ℤ times'.verified
    → ¬ (
        (handle_proof chain challenge' again times' (
          after_requests chain options decode requests
            (handle_proof chain challenge proof times cache).0)).1
        ≡ served)
served_once chain options decode challenge challenge' proof again times times' requests cache v
      first same between o1 twice =
    let paid = handle_proof-IsPaid chain challenge proof times cache v first in
    let after =
      after_requests chain options decode requests
        (handle_proof chain challenge proof times cache).0 in
    let s = handle_proof-Steps chain challenge' again times' after twice in
    let (early, _, _, _, _) =
      (verify_payment_proof_iff chain again
          (record challenge' { nonce = again.challenge.nonce; expires = s.expires })
          times'.verified).0
        s.good in
    let end : again.challenge.expires ≡ paid.expires = ap (λ c. c.expires) (same ∙ paid.same) in
    let early' : times'.cached <ℤ paid.expires =
      subst (λ t. times'.cached <ℤ t) end (omega (arith, early)) in
    let consumed =
      after_requests-IsConsumed chain options decode requests proof.challenge.nonce paid.expires _
        (All-IsBefore requests times'.cached paid.expires early' between) paid.consumed in
    again_refused chain challenge' again times' paid.expires after end o1
      (subst (λ c. IsConsumed c.nonce paid.expires after) (sym same) consumed) twice
