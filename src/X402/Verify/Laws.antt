-- ===== src/X402/Verify/Laws.antt =====
-- What a payment proof that verifies shows.
use Prim.Native.String.{String}
use text.Mathlib.Text.{◌==◌ as str_eq}
use text.Mathlib.TextEquality.{eq_iff}
use text.Mathlib.TextPositions.{eq_refl}
use vela_sdk.Prelude.{
  ℕ, ◌≡◌, refl, ap, ap₂, ◌↔◌, sym, subst, [], ◌∷◌, true, false, Option, none, some, List, ℤ, ◌<ℤ◌,
  arith, Option-cases, inl, inr,
}
use vela_sdk.Prelude.Int.{ltb_ℤ, eqb_ℤ, eqb_ℤ_iff}
use vela_sdk.Prelude.Result.{ok, Result-cases}
use vela_sdk.X402.Proof.{PaymentChallenge, PaymentProof, string, parse_raw_amount, is_expired}
use vela_sdk.X402.Transaction.{Transaction, extract_account_keys, includes, same_text}
use vela_sdk.X402.Verify.Pays.{Pays, keys_of, HasPull}
use vela_sdk.X402.Verify.Keys.{extract_account_keys_lem, includes-Has, Has-includes}
use vela_sdk.X402.Verify.Pulls.{has_expected_agent_pull_instruction-HasPull}
use vela_sdk.X402.Verify.Logs.{has_agent_pull_log-Logs}
use vela_sdk.X402.Verify.Gains.{amount_delta-Gains, Gains-amount_delta}
use vela_sdk.Accounts.PullApproval.{or_else}
use vela_sdk.Prelude.First.{Has}
use vela_sdk.X402.Verify.{
  Chain, text_eq, check_fields, amount_delta, check_transaction, verify_payment_proof,
}

same_text_lem : (a b : Option String) → same_text a b ≡ true → a ≡ b
unfolding same_text
same_text_lem none none h = refl
same_text_lem (some a) (some b) h = ap some ((eq_iff a b).0 h)
same_text_lem none (some b) h = cc
same_text_lem (some a) none h = cc

same_text_refl : (a : Option String) → same_text a a ≡ true
unfolding same_text
same_text_refl none = refl
same_text_refl (some a) = eq_refl a

text_eq_lem : (a b : List ℕ) → text_eq a b ≡ true → a ≡ b
unfolding text_eq
text_eq_lem [] [] h = refl
text_eq_lem (a ∷ xs) (b ∷ ys) h = ap₂ ◌∷◌ (ground arith) (text_eq_lem xs ys (ground arith))
text_eq_lem [] (b ∷ ys) h = cc
text_eq_lem (a ∷ xs) [] h = cc

text_eq_refl : (a : List ℕ) → text_eq a a ≡ true
unfolding text_eq
text_eq_refl [] = refl
text_eq_refl (a ∷ xs) = let rest = text_eq_refl xs in ground arith

str_eq_lem : (a b : String) → str_eq a b ≡ true → a ≡ b
str_eq_lem a b h = (eq_iff a b).0 h

-- A proof whose fields pass is a proof of the very challenge.
check_fields_lem : (p e : PaymentChallenge) → check_fields p e ≡ ok tt → p ≡ e
unfolding check_fields
check_fields_lem p e h =
    let network : str_eq p.network e.network ≡ true = ground arith in
    let amount : text_eq p.amount e.amount ≡ true = ground arith in
    let address : str_eq p.address e.address ≡ true = ground arith in
    let authority : str_eq p.authority e.authority ≡ true = ground arith in
    let destination : str_eq p.destination e.destination ≡ true = ground arith in
    let service : same_text p.service e.service ≡ true = ground arith in
    let mint : same_text p.wrapped_usdc_mint e.wrapped_usdc_mint ≡ true = ground arith in
    let program : same_text p.protocol_program e.protocol_program ≡ true = ground arith in
    let nonce : str_eq p.nonce e.nonce ≡ true = ground arith in
    let expires : eqb_ℤ p.expires e.expires ≡ true = ground arith in
    λ i. record {
      amount = text_eq_lem p.amount e.amount amount i;
      network = str_eq_lem p.network e.network network i;
      address = str_eq_lem p.address e.address address i;
      authority = str_eq_lem p.authority e.authority authority i;
      destination = str_eq_lem p.destination e.destination destination i;
      nonce = str_eq_lem p.nonce e.nonce nonce i;
      expires = (eqb_ℤ_iff p.expires e.expires).0 expires i;
      service = same_text_lem p.service e.service service i;
      wrapped_usdc_mint = same_text_lem p.wrapped_usdc_mint e.wrapped_usdc_mint mint i;
      protocol_program = same_text_lem p.protocol_program e.protocol_program program i;
    }

check_fields_refl : (e : PaymentChallenge) → check_fields e e ≡ ok tt
unfolding check_fields
check_fields_refl e = rw (eq_refl e.network) (
    rw (text_eq_refl e.amount, eq_refl e.address, eq_refl e.authority, eq_refl e.destination)
      (rw
        (
          same_text_refl e.service,
          same_text_refl e.wrapped_usdc_mint,
          same_text_refl e.protocol_program,
        )
        (rw (eq_refl e.nonce, (eqb_ℤ_iff e.expires e.expires).1 refl))))

-- Membership in the keys of the code is membership in those of the transaction.
Has_iff :
    (t : Transaction) (key : String)
    → (includes (extract_account_keys t) key ≡ true) ↔ Has key (keys_of t)
Has_iff t key =
    subst (λ keys. (includes keys key ≡ true) ↔ Has key (keys_of t))
      (sym (extract_account_keys_lem t))
      (includes-Has (keys_of t) key, Has-includes (keys_of t) key)

check_transaction-Pays :
    (chain : Chain) (t : Transaction) (challenge : PaymentChallenge)
    → check_transaction chain t challenge ≡ ok tt
    → Pays chain t challenge
unfolding check_transaction
check_transaction-Pays chain t challenge h = elim (Result-cases (amount_delta t challenge)) [
  | inr (e, gained) ↦ absurd (ground (arith, gained))
  | inl (delta, gained) ↦ elim (Result-cases (parse_raw_amount (string challenge.amount))) [
    | inr (e, asked) ↦ absurd (ground (arith, asked))
    | inl (amount, asked) ↦
        let destination = (Has_iff t challenge.destination).0 (ground arith) in
        record {
          succeeded = ground arith;
          destination = destination;
          address = (Has_iff t challenge.address).0 (ground arith);
          authority = (Has_iff t challenge.authority).0 (ground arith);
          pulls = (has_expected_agent_pull_instruction-HasPull chain t challenge).0 (ground arith);
          delta = delta;
          amount = amount;
          gains = amount_delta-Gains t challenge delta destination gained;
          asked = asked;
          enough = ground arith;
          logged = (has_agent_pull_log-Logs t).0 (ground arith);
        }
  ]
]

Pays-check_transaction :
    (chain : Chain) (t : Transaction) (challenge : PaymentChallenge)
    → Pays chain t challenge
    → check_transaction chain t challenge ≡ ok tt
unfolding check_transaction
Pays-check_transaction chain t challenge p =
    let enough : ltb_ℤ p.delta p.amount ≡ false = ground (arith, p.enough) in
    let destination = (Has_iff t challenge.destination).1 p.destination in
    let address = (Has_iff t challenge.address).1 p.address in
    let authority = (Has_iff t challenge.authority).1 p.authority in
    let pulls = (has_expected_agent_pull_instruction-HasPull chain t challenge).1 p.pulls in
    let gained = Gains-amount_delta t challenge p.delta p.gains in
    let logged = (has_agent_pull_log-Logs t).1 p.logged in
    ground
      (arith, p.succeeded, destination, address, authority, pulls, gained, p.asked, logged, enough)

HasPull-other :
    (chain : Chain) (t : Transaction) (challenge : PaymentChallenge) (nonce : String) (expires : ℤ)
    → HasPull chain.agent_pull_discriminator
        (or_else challenge.protocol_program chain.program)
        t
        challenge
    → HasPull chain.agent_pull_discriminator
        (or_else challenge.protocol_program chain.program)
        t
        (record challenge { nonce = nonce; expires = expires })
HasPull-other chain t challenge nonce expires (instructions, instruction, picked, there, pull) = (
  instructions,
  instruction,
  picked,
  there,
  record {
    calls = pull.calls;
    address = pull.address;
    authority = pull.authority;
    destination = pull.destination;
    begins = pull.begins;
  },
)

-- Whether a transaction pays does not depend on the challenge's nonce and expiry.
Pays-other :
    (chain : Chain) (t : Transaction) (challenge : PaymentChallenge) (nonce : String) (expires : ℤ)
    → Pays chain t challenge
    → Pays chain t (record challenge { nonce = nonce; expires = expires })
Pays-other chain t challenge nonce expires p = record {
  succeeded = p.succeeded;
  destination = p.destination;
  address = p.address;
  authority = p.authority;
  pulls = HasPull-other chain t challenge nonce expires p.pulls;
  delta = p.delta;
  amount = p.amount;
  gains = record {
    earlier = p.gains.earlier;
    later = p.gains.later;
    placed = p.gains.placed;
    first = p.gains.first;
    old = p.gains.old;
    new = p.gains.new;
    was = p.gains.was;
    is = p.gains.is;
    known = p.gains.known;
    gained = p.gains.gained;
  };
  asked = p.asked;
  enough = p.enough;
  logged = p.logged;
}

-- A proof verifies exactly when its challenge has not expired, is the challenge that was issued,
-- field by field, and its transaction is known and pays it: it did not fail; its keys have the
-- destination, the agent and the authority; one of its instructions calls the program, passes the
-- three accounts and begins with the discriminator of the pull; a message of its log tells of the
-- pull; and the balance of the destination after it, the first one listed in the mint asked for,
-- exceeds the one before it by at least the amount, where an absent balance counts as zero and one
-- of the two is present.
pub verify_payment_proof_iff :
    (chain : Chain) (proof : PaymentProof) (expected : PaymentChallenge) (now : ℤ)
    → (verify_payment_proof chain proof expected now ≡ ok tt) ↔ (
        (now <ℤ proof.challenge.expires)
        × (proof.challenge ≡ expected)
        × (t : Transaction) × (chain.get_transaction proof.tx_signature ≡ some t)
        × Pays chain t expected)
unfolding verify_payment_proof is_expired
verify_payment_proof_iff chain proof expected now = (verified, shown)
  where
    verified :
        verify_payment_proof chain proof expected now ≡ ok tt
        → (now <ℤ proof.challenge.expires)
          × (proof.challenge ≡ expected)
          × (t : Transaction) × (chain.get_transaction proof.tx_signature ≡ some t)
          × Pays chain t expected
    verified h =
        let same : check_fields proof.challenge expected ≡ ok tt = ground arith in
        elim (Option-cases (chain.get_transaction proof.tx_signature)) [
          | inl missing ↦ absurd (ground arith)
          | inr (t, found) ↦ (
            ground arith,
            check_fields_lem proof.challenge expected same,
            t,
            found,
            check_transaction-Pays chain t expected (ground (arith, found)),
          )
        ]

    shown :
        (now <ℤ proof.challenge.expires)
          × (proof.challenge ≡ expected)
          × (t : Transaction) × (chain.get_transaction proof.tx_signature ≡ some t)
          × Pays chain t expected
        → verify_payment_proof chain proof expected now ≡ ok tt
    shown (early, same, t, found, paid) =
        let late : is_expired proof.challenge.expires now ≡ false = ground arith in
        let fields : check_fields proof.challenge expected ≡ ok tt =
          subst (λ e. check_fields proof.challenge e ≡ ok tt) same
            (check_fields_refl proof.challenge) in
        rw late (rw fields (rw found (Pays-check_transaction chain t expected paid)))

-- The transaction is not tied to the nonce: a proof that verifies does so again, with the same
-- transaction, for any other nonce and expiry that were issued for the same payment.
pub verify_payment_proof_reused :
    (chain : Chain) (proof : PaymentProof) (expected : PaymentChallenge) (nonce : String)
    (expires now later : ℤ)
    → verify_payment_proof chain proof expected now ≡ ok tt
    → later <ℤ expires
    → verify_payment_proof chain
        (record proof { challenge = record proof.challenge { nonce = nonce; expires = expires } })
        (record expected { nonce = nonce; expires = expires })
        later
      ≡ ok tt
verify_payment_proof_reused chain proof expected nonce expires now later h early =
    let (_, same, t, found, paid) = (verify_payment_proof_iff chain proof expected now).0 h in
    let reissue : PaymentChallenge → PaymentChallenge =
      λ c. record c { nonce = nonce; expires = expires } in
    (verify_payment_proof_iff chain _ _ later).1
      (early, ap reissue same, t, found, Pays-other chain t expected nonce expires paid)
