-- ===== src/X402/NonceCache/Open.antt =====
-- A nonce that was issued and not used stays open: it is consumed by the first call that asks for it
-- in time, whatever calls for other nonces come between.
use Prim.Native.String.{String}
use text.Mathlib.TextEquality.{eq_iff}
use vela_sdk.Prelude.{
  ◌≡◌, ◌≢◌, refl, true, none, some, List, [], ◌∷◌, All, ℤ, ◌<ℤ◌, arith, inl, inr, Bool-cases,
}
use vela_sdk.Prelude.Int.{eqb_ℤ_iff}
use vela_sdk.X402.Dict.{
  lookup, lookup-insert, lookup-erase_ne, lookup-keep_live, lookup-keep_live-none,
}
use vela_sdk.X402.NonceCache.{
  NonceCache, IsValid, expires_at, has, prune, issue_nonce, get_issued_nonce_expiry, has_nonce,
  take_nonce, consume_nonce, Call, issue, get_expiry, has_call, consume, prune_call, time, step,
  run,
}
use vela_sdk.X402.NonceCache.Replay.{step-IsValid, take_nonce-IsValid}

-- The nonce is on record as issued until `expires`, and not as consumed.
pub record IsOpen (nonce : String) (expires : ℤ) (c : NonceCache) : Type 0 where
  pub valid : IsValid c
  pub issued : lookup nonce c.issued ≡ some expires
  pub unused : lookup nonce c.consumed ≡ none

-- The call is not for this nonce.
abbrev pub Spares : String → Call → Type 0
Spares nonce (issue n expires now) = n ≢ nonce
Spares nonce (get_expiry n now) = Unit
Spares nonce (has_call n now) = Unit
Spares nonce (consume n expires now) = n ≢ nonce
Spares nonce (prune_call now) = Unit

pub prune-IsOpen :
    (nonce : String) (expires now : ℤ) (c : NonceCache)
    → now <ℤ expires
    → IsOpen nonce expires c
    → IsOpen nonce expires (prune now c)
unfolding prune step
prune-IsOpen nonce expires now c early o = record {
  valid = step-IsValid (prune_call now) c o.valid;
  issued = ground (arith, lookup-keep_live nonce now expires c.issued o.valid.issued o.issued);
  unused = lookup-keep_live-none nonce now c.consumed o.unused;
}

-- A nonce that is not on record as consumed is open once it is issued.
pub issue_nonce-IsOpen :
    (nonce : String) (expires now : ℤ) (c : NonceCache)
    → IsValid c
    → lookup nonce c.consumed ≡ none
    → IsOpen nonce expires (issue_nonce nonce expires now c)
unfolding issue_nonce prune step
issue_nonce-IsOpen nonce expires now c v unused = record {
  valid = step-IsValid (issue nonce expires now) c v;
  issued =
      ground (arith, lookup-insert nonce nonce expires (prune now c).issued, eq_iff nonce nonce);
  unused = lookup-keep_live-none nonce now c.consumed unused;
}

take_nonce-IsOpen :
    (nonce n : String) (expires e : ℤ) (c : NonceCache)
    → n ≢ nonce
    → IsValid (take_nonce n e c)
    → IsOpen nonce expires c
    → IsOpen nonce expires (take_nonce n e c)
unfolding take_nonce
take_nonce-IsOpen nonce n expires e c other v o = record {
  valid = v;
  issued = ground (arith, lookup-erase_ne nonce n c.issued, o.issued);
  unused = ground (arith, lookup-insert nonce n e c.consumed, eq_iff n nonce, o.unused);
}

issue_other-IsOpen :
    (nonce n : String) (expires e now : ℤ) (c : NonceCache)
    → n ≢ nonce
    → now <ℤ expires
    → IsOpen nonce expires c
    → IsOpen nonce expires (issue_nonce n e now c)
unfolding issue_nonce step
issue_other-IsOpen nonce n expires e now c other early o =
    let p = prune-IsOpen nonce expires now c early o in
    record {
      valid = step-IsValid (issue n e now) c o.valid;
      issued =
          ground (arith, lookup-insert nonce n e (prune now c).issued, eq_iff n nonce, p.issued);
      unused = p.unused;
    }

consume_other-IsOpen :
    (nonce n : String) (expires e now : ℤ) (c : NonceCache)
    → n ≢ nonce
    → now <ℤ expires
    → IsOpen nonce expires c
    → IsOpen nonce expires (consume_nonce n e now c).0
unfolding consume_nonce step
consume_other-IsOpen nonce n expires e now c other early o =
    let p = prune-IsOpen nonce expires now c early o in
    elim (Bool-cases (has n (prune now c).consumed)) [
      | inl used ↦ rw used p
      | inr fresh ↦ elim (Bool-cases (expires_at (lookup n (prune now c).issued) e)) [
        | inl match ↦
            rw (fresh, match)
              (take_nonce-IsOpen nonce n expires e (prune now c) other
                (take_nonce-IsValid n e (prune now c) p.valid) p)
        | inr differs ↦ rw (fresh, differs) p
      ]
    ]

step-IsOpen :
    (nonce : String) (expires : ℤ) (call : Call) (c : NonceCache)
    → time call <ℤ expires
    → Spares nonce call
    → IsOpen nonce expires c
    → IsOpen nonce expires (step call c)
unfolding step get_issued_nonce_expiry has_nonce
step-IsOpen nonce expires (issue n e now) c early other o =
    issue_other-IsOpen nonce n expires e now c other early o
step-IsOpen nonce expires (get_expiry n now) c early other o =
    prune-IsOpen nonce expires now c early o
step-IsOpen nonce expires (has_call n now) c early other o =
    prune-IsOpen nonce expires now c early o
step-IsOpen nonce expires (consume n e now) c early other o =
    consume_other-IsOpen nonce n expires e now c other early o
step-IsOpen nonce expires (prune_call now) c early other o =
    prune-IsOpen nonce expires now c early o

pub run-IsOpen :
    (nonce : String) (expires : ℤ) (calls : List Call) (c : NonceCache)
    → All (λ call. (time call <ℤ expires) × Spares nonce call) calls
    → IsOpen nonce expires c
    → IsOpen nonce expires (run calls c)
unfolding run
run-IsOpen nonce expires [] c all o = o
run-IsOpen nonce expires (call ∷ calls) c ((early, other), rest) o =
    run-IsOpen nonce expires calls (step call c) rest
      (step-IsOpen nonce expires call c early other o)

pub consume_nonce-IsOpen :
    (nonce : String) (expires now : ℤ) (c : NonceCache)
    → now <ℤ expires
    → IsOpen nonce expires c
    → (consume_nonce nonce expires now c).1 ≡ true
unfolding consume_nonce
consume_nonce-IsOpen nonce expires now c early o =
    let p = prune-IsOpen nonce expires now c early o in
    rw (p.unused, has) rw (p.issued, expires_at) rw ((eqb_ℤ_iff expires expires).1 refl) refl
