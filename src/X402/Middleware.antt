-- ===== src/X402/Middleware.antt =====
-- `createX402Middleware` of src/x402/server.ts: one request against the nonce cache. The header is
-- decoded by a parameter, since base64 and JSON are the platform's; an address among the options is
-- the text that `ensureString` gives.
pub mod Served
pub mod Once
use Prim.Native.String.{String}
use vela_sdk.Prelude.{Option, none, some, ℤ, Bool, true, false, if◌then◌else◌}
use vela_sdk.Prelude.Result.{Result, ok, err, ◌>>=◌}
use vela_sdk.Accounts.PullApproval.{or_else}
use vela_sdk.X402.NonceCache.{NonceCache, issue_nonce, get_issued_nonce_expiry, consume_nonce}
use vela_sdk.X402.Proof.{
  PaymentChallenge, PaymentProof, PaymentError, RawAmount, bigint, parse_raw_amount,
  create_payment_challenge,
}
use vela_sdk.X402.Verify.{Chain, verify_payment_proof}

pub record Options : Type 0 where
  pub amount : RawAmount
  pub agent : String
  pub authority : String
  pub destination : String
  pub service : Option String
  pub wrapped_usdc_mint : Option String
  pub protocol_program : Option String
  pub network : Option String
  pub challenge_ttl_ms : Option ℤ

-- What the clock shows at the calls of `now()`: for the challenge, the cache, the verification and
-- the consumption.
pub record Times : Type 0 where
  pub created : ℤ
  pub cached : ℤ
  pub verified : ℤ
  pub consumed : ℤ

pub data Response : Type 0 where
  -- 402 with a new challenge, 402 with an error, 409, and the result of `next()`.
  payment_required : PaymentChallenge → Response
  challenge_unknown : Response
  invalid_proof : PaymentError → Response
  nonce_used : Response
  served : Response

-- `value ? ensureString(value) : undefined`: the empty text counts as absent.
unfoldable pub truthy : Option String → Option String
truthy none = none
truthy (some String.[]) = none
truthy (some (String.◌∷◌ c s)) = some (String.◌∷◌ c s)

unfoldable pub base_challenge :
    Chain → Options → String → Times → Result PaymentError PaymentChallenge
base_challenge chain options fresh times = do
  amount ← parse_raw_amount options.amount
  create_payment_challenge fresh times.created (record {
    amount = bigint amount;
    address = options.agent;
    authority = options.authority;
    destination = options.destination;
    network = options.network;
    service = truthy options.service;
    wrapped_usdc_mint = truthy options.wrapped_usdc_mint;
    protocol_program = some (or_else (truthy options.protocol_program) chain.program);
    nonce = none;
    expires = none;
    ttl_ms = options.challenge_ttl_ms;
    now = some times.created;
  })

abbrev used_or_served : Bool → Response
used_or_served consumed = if consumed then served else nonce_used

-- A decoded proof: the nonce's expiry is looked up, the proof verified, the nonce consumed.
unfoldable pub handle_proof :
    Chain → PaymentChallenge → PaymentProof → Times → NonceCache → NonceCache × Response
handle_proof chain challenge proof times cache =
    let nonce = proof.challenge.nonce in
    let (cache, issued) = get_issued_nonce_expiry nonce times.cached cache in
    elim issued [
      | none ↦ (cache, challenge_unknown)
      | some expires ↦
          let expected = record challenge { nonce = nonce; expires = expires } in
          elim (verify_payment_proof chain proof expected times.verified) [
            | err e ↦ (cache, invalid_proof e)
            | ok _ ↦
                let (cache, consumed) = consume_nonce nonce expires times.consumed cache in
                (cache, used_or_served consumed)
          ]
    ]

-- A request with its `PAYMENT-SIGNATURE` header, if it has one. An amount among the options that is
-- no raw amount makes the request fail before the cache is used.
unfoldable pub handle :
    Chain
    → Options
    → (String → Result PaymentError PaymentProof)
    → String
    → Times
    → Option String
    → NonceCache
    → Result PaymentError (NonceCache × Response)
handle chain options decode fresh times header cache = do
  challenge ← base_challenge chain options fresh times
  ok (elim header [
    | none ↦ (
      issue_nonce challenge.nonce challenge.expires times.cached cache,
      payment_required challenge,
    )
    | some text ↦ elim (decode text) [
      | err e ↦ (cache, invalid_proof e)
      | ok proof ↦ handle_proof chain challenge proof times cache
    ]
  ])
