-- ===== src/X402/Client/EndToEnd.antt =====
-- The client of src/x402/client.ts against the middleware of src/x402/server.ts.
use Prim.Native.String.{String}
use vela_sdk.Prelude.{
  ◌≡◌, refl, sym, ap, subst, ◌∙◌, true, none, some, List, [], ◌∷◌, All, ℤ, ◌<ℤ◌, ==_iff, ◌+ℤ◌,
  pos_part,
}
use vela_sdk.Prelude.Result.{Result, ok, bind-eq-ok, ok-injective}
use vela_sdk.Accounts.PullApproval.{or_else}
use vela_sdk.Budget.Afford.{can_afford}
use vela_sdk.X402.Dict.{lookup}
use vela_sdk.X402.NonceCache.{
  NonceCache, IsValid, Call, time, run, prune, issue_nonce, get_issued_nonce_expiry,
}
use vela_sdk.X402.NonceCache.Open.{
  IsOpen, Spares, issue_nonce-IsOpen, run-IsOpen, prune-IsOpen, consume_nonce-IsOpen,
}
use vela_sdk.X402.Proof.{
  PaymentChallenge, PaymentProof, PaymentError, string, bigint, parse_raw_amount, decimal,
  create_payment_challenge, default_x402_network, default_challenge_ttl_ms, create_payment_proof,
}
use vela_sdk.X402.Transaction.{Transaction}
use vela_sdk.X402.Verify.{Chain, verify_payment_proof}
use vela_sdk.X402.Verify.Pays.{Pays}
use vela_sdk.X402.Verify.Laws.{verify_payment_proof_iff}
use vela_sdk.X402.Client.{Surroundings, requested, pulled, pull_request, pay, answer, fetch}
use vela_sdk.X402.Middleware.{
  Options, Times, truthy, payment_required, served, base_challenge, handle_proof, handle,
}

-- The challenge of a request whose amount is valid.
abbrev challenge_of : Chain → Options → ℤ → String → Times → PaymentChallenge
challenge_of chain options amount fresh times = record {
  amount = decimal (pos_part amount);
  network = or_else options.network default_x402_network;
  address = options.agent;
  authority = options.authority;
  destination = options.destination;
  nonce = fresh;
  expires = times.created +ℤ or_else options.challenge_ttl_ms default_challenge_ttl_ms;
  service = truthy options.service;
  wrapped_usdc_mint = truthy options.wrapped_usdc_mint;
  protocol_program = some (or_else (truthy options.protocol_program) chain.program);
}

base_challenge-challenge_of :
    (chain : Chain) (options : Options) (amount same : ℤ) (fresh : String) (times : Times)
    → parse_raw_amount options.amount ≡ ok amount
    → parse_raw_amount (bigint amount) ≡ ok same
    → base_challenge chain options fresh times ≡ ok (challenge_of chain options same fresh times)
unfolding base_challenge create_payment_challenge
base_challenge-challenge_of chain options amount same fresh times good again =
    rw (good, base_challenge) rw (again, create_payment_challenge) refl

-- The challenge of a request has the nonce that was drawn, and but for the nonce and the expiry any
-- other request's challenge, under the same options, is the same.
base_challenge_again :
    (chain : Chain) (options : Options) (fresh fresh' : String) (times times' : Times)
    (challenge : PaymentChallenge)
    → base_challenge chain options fresh times ≡ ok challenge
    → (other : PaymentChallenge) × (base_challenge chain options fresh' times' ≡ ok other)
      × (record other { nonce = challenge.nonce; expires = challenge.expires } ≡ challenge)
unfolding base_challenge create_payment_challenge
base_challenge_again chain options fresh fresh' times times' challenge h =
    let (amount, good, h1) = bind-eq-ok (parse_raw_amount options.amount) _ h in
    let (same, again, h2) = bind-eq-ok (parse_raw_amount (bigint amount)) _ h1 in
    let is_same : challenge_of chain options same fresh times ≡ challenge = ok-injective h2 in
    (
      challenge_of chain options same fresh' times',
      base_challenge-challenge_of chain options amount same fresh' times' good again,
      subst
          (λ c.
            record (challenge_of chain options same fresh' times') {
              nonce = c.nonce;
              expires = c.expires;
            }
            ≡ c)
          is_same refl,
    )

-- The client's proof of a challenge with an open nonce is served, once it verifies.
handle_proof-served :
    (chain : Chain) (other challenge : PaymentChallenge) (signature : String) (paid_at : ℤ)
    (times : Times) (cache : NonceCache)
    → record other { nonce = challenge.nonce; expires = challenge.expires } ≡ challenge
    → IsOpen challenge.nonce challenge.expires cache
    → times.cached <ℤ challenge.expires
    → times.consumed <ℤ challenge.expires
    → verify_payment_proof chain
        (create_payment_proof challenge signature paid_at)
        challenge
        times.verified
      ≡ ok tt
    → (handle_proof chain other (create_payment_proof challenge signature paid_at) times cache).1
      ≡ served
unfolding handle_proof get_issued_nonce_expiry create_payment_proof
handle_proof-served chain other challenge signature paid_at times cache same is_open cached consumed
      good =
    let p = prune-IsOpen challenge.nonce challenge.expires times.cached cache cached is_open in
    let proof = create_payment_proof challenge signature paid_at in
    let verified : verify_payment_proof chain proof
          (record other { nonce = challenge.nonce; expires = challenge.expires }) times.verified
        ≡ ok tt =
      ap (λ c. verify_payment_proof chain proof c times.verified) same ∙ good in
    rw (p.issued, handle_proof) rw verified rw
      (consume_nonce-IsOpen challenge.nonce challenge.expires times.consumed
        (prune times.cached cache) consumed p)
      refl

-- The client is answered with a 402 whose header decodes to the challenge, it can afford what the
-- challenge asks, and its payment goes through.
pub record CanPay {Key : Type 0} (around : Surroundings Key) (challenge : PaymentChallenge)
    (amount : ℤ) (signature : String) : Type 0 where
  pub status : (around.send none).status ≡ 402
  pub header : String
  pub given : (around.send none).payment_required ≡ some header
  pub decoded : around.decode_challenge header ≡ ok challenge
  pub asked : parse_raw_amount (string challenge.amount) ≡ ok amount
  pub affordable :
      (can_afford
        (around.verify_agent_mandate challenge)
        (around.check_agent_budget challenge)
        amount).affordable
      ≡ true
  pub paid : around.agent_pull (pull_request challenge amount) ≡ some signature

fetch-CanPay :
    {Key : Type 0} (around : Surroundings Key) (challenge : PaymentChallenge) (amount : ℤ)
    (signature : String)
    → CanPay around challenge amount signature
    → (fetch around).events
      ≡ requested none
        ∷ pulled (pull_request challenge amount)
        ∷ requested (some (create_payment_proof challenge signature around.paid_at))
        ∷ []
unfolding fetch
fetch-CanPay around challenge amount signature c =
    rw ((==_iff (around.send none).status 402).1 c.status) rw c.given rw c.decoded rw
      (c.asked, answer) rw c.affordable rw (c.paid, pay) refl

-- The first request, and the cache after it.
handle-payment_required :
    (chain : Chain) (options : Options) (decode : String → Result PaymentError PaymentProof)
    (fresh : String) (times : Times) (cache issued : NonceCache) (challenge : PaymentChallenge)
    → handle chain options decode fresh times none cache ≡ ok (issued, payment_required challenge)
    → (base_challenge chain options fresh times ≡ ok challenge)
      × (issue_nonce challenge.nonce challenge.expires times.cached cache ≡ issued)
unfolding handle
handle-payment_required chain options decode fresh times cache issued challenge h =
    let (c, built, h1) = bind-eq-ok (base_challenge chain options fresh times) _ h in
    let pair : (issue_nonce c.nonce c.expires times.cached cache, payment_required c)
        ≡ (issued, payment_required challenge) =
      ok-injective h1 in
    let same : c ≡ challenge = cc (ap (λ t. t.1) pair) in
    (
      built ∙ ap ok same,
      ap (λ t. issue_nonce t.nonce t.expires times.cached cache) (sym same) ∙ ap (λ t. t.0) pair,
    )

-- The middleware serves the client that pays: when a request without a proof was answered with a
-- challenge whose nonce was not used before, a client that can pay it sends a proof as its last request,
-- and that request is served, if the payment is on the chain and pays the challenge, the clock stays
-- before the expiry, and the cache was called in between, however often, for other nonces only.
pub fetch-served :
    {Key : Type 0} (around : Surroundings Key) (chain : Chain) (options : Options)
    (decode : String → Result PaymentError PaymentProof) (fresh fresh' text signature : String)
    (times times' : Times) (cache issued : NonceCache) (calls : List Call)
    (challenge : PaymentChallenge) (amount : ℤ) (transaction : Transaction)
    → IsValid cache
    → lookup challenge.nonce cache.consumed ≡ none
    → handle chain options decode fresh times none cache ≡ ok (issued, payment_required challenge)
    → CanPay around challenge amount signature
    → All (λ call. (time call <ℤ challenge.expires) × Spares challenge.nonce call) calls
    → (times'.cached <ℤ challenge.expires)
      × (times'.verified <ℤ challenge.expires)
      × (times'.consumed <ℤ challenge.expires)
    → decode text ≡ ok (create_payment_proof challenge signature around.paid_at)
    → chain.get_transaction signature ≡ some transaction
    → Pays chain transaction challenge
    → ((fetch around).events
        ≡ requested none
          ∷ pulled (pull_request challenge amount)
          ∷ requested (some (create_payment_proof challenge signature around.paid_at))
          ∷ [])
      × ((after : NonceCache) × (handle chain options decode fresh' times'
              (some text)
              (run calls issued)
            ≡ ok (after, served)))
unfolding handle create_payment_proof
fetch-served around chain options decode fresh fresh' text signature times times' cache issued calls
      challenge amount transaction valid unused first c spared (cached, verified, consumed) decoded
      found pays =
    let proof = create_payment_proof challenge signature around.paid_at in
    let (built, cached_as) =
      handle-payment_required chain options decode fresh times cache issued challenge first in
    let (other, again, same) =
      base_challenge_again chain options fresh fresh' times times' challenge built in
    let is_open = run-IsOpen challenge.nonce challenge.expires calls issued spared (
      subst (λ t. IsOpen challenge.nonce challenge.expires t) cached_as
        (issue_nonce-IsOpen challenge.nonce challenge.expires times.cached cache valid unused)) in
    let good =
      (verify_payment_proof_iff chain proof challenge times'.verified).1
        (verified, refl, transaction, found, pays) in
    let ends =
      handle_proof-served chain other challenge signature around.paid_at times' (run calls issued)
        same is_open cached consumed good in
    let after = (handle_proof chain other proof times' (run calls issued)).0 in
    (
      fetch-CanPay around challenge amount signature c,
      (after, rw (again, handle) rw decoded (ap (λ r. ok (after, r)) ends)),
    )
