-- ===== src/X402/NonceCache/Replay.antt =====
-- A nonce is consumed at most once, whatever calls come between.
use Prim.Native.String.{String}
use text.Mathlib.TextEquality.{eq_iff}
use text.Mathlib.TextPositions.{eq_refl}
use vela_sdk.Prelude.{
  ◌≡◌, ap, true, false, Option, none, some, List, [], ◌∷◌, All, ℤ, ◌≤ℤ◌, ◌<ℤ◌, arith, inl, inr,
  Bool-cases,
}
use vela_sdk.Prelude.Int.{ltb_ℤ, eqb_ℤ_iff}
use vela_sdk.X402.Dict.{
  lookup, lookup-insert, lookup-keep_live, lookup-keep_live_live, insert-IsMap, erase-IsMap,
  keep_live-IsMap,
}
use vela_sdk.X402.NonceCache.{
  NonceCache, create_nonce_cache, IsValid, expires_at, has, prune, issue_nonce,
  get_issued_nonce_expiry, has_nonce, take_nonce, consume_nonce, Call, issue, get_expiry, has_call,
  consume, prune_call, time, step, run,
}

pub prune-IsValid : (now : ℤ) (c : NonceCache) → IsValid c → IsValid (prune now c)
unfolding prune
prune-IsValid now c v = record {
  issued = keep_live-IsMap now c.issued v.issued;
  consumed = keep_live-IsMap now c.consumed v.consumed;
}

pub take_nonce-IsValid :
    (nonce : String) (expires : ℤ) (c : NonceCache)
    → IsValid c
    → IsValid (take_nonce nonce expires c)
unfolding take_nonce
take_nonce-IsValid nonce expires c v = record {
  issued = erase-IsMap nonce c.issued v.issued;
  consumed = insert-IsMap nonce expires c.consumed v.consumed;
}

pub consume_nonce-IsValid :
    (nonce : String) (expires now : ℤ) (c : NonceCache)
    → IsValid c
    → IsValid (consume_nonce nonce expires now c).0
unfolding consume_nonce
consume_nonce-IsValid nonce expires now c v =
    let v' = prune-IsValid now c v in
    elim (Bool-cases (has nonce (prune now c).consumed)) [
      | inl used ↦ rw used v'
      | inr fresh ↦ elim (Bool-cases (expires_at (lookup nonce (prune now c).issued) expires)) [
        | inl match ↦ rw (fresh, match) (take_nonce-IsValid nonce expires (prune now c) v')
        | inr other ↦ rw (fresh, other) v'
      ]
    ]

-- Every call keeps the cache well formed.
pub step-IsValid : (call : Call) (c : NonceCache) → IsValid c → IsValid (step call c)
unfolding step issue_nonce get_issued_nonce_expiry has_nonce
step-IsValid (issue nonce expires now) c v =
    let v' = prune-IsValid now c v in
    record {
      issued = insert-IsMap nonce expires (prune now c).issued v'.issued;
      consumed = v'.consumed;
    }
step-IsValid (get_expiry nonce now) c v = prune-IsValid now c v
step-IsValid (has_call nonce now) c v = prune-IsValid now c v
step-IsValid (consume nonce expires now) c v = consume_nonce-IsValid nonce expires now c v
step-IsValid (prune_call now) c v = prune-IsValid now c v

pub create_nonce_cache-IsValid : IsValid create_nonce_cache
create_nonce_cache-IsValid = record { issued = tt; consumed = tt }

-- The nonce is on record as consumed, until `expires`.
abbrev pub IsConsumed : String → ℤ → NonceCache → Type 0
IsConsumed nonce expires c = IsValid c × (lookup nonce c.consumed ≡ some expires)

prune-IsConsumed :
    (nonce : String) (expires now : ℤ) (c : NonceCache)
    → now <ℤ expires
    → IsConsumed nonce expires c
    → IsConsumed nonce expires (prune now c)
unfolding prune
prune-IsConsumed nonce expires now c early (v, h) = (
  prune-IsValid now c v,
  ground (arith, lookup-keep_live nonce now expires c.consumed v.consumed h),
)

take_nonce-IsConsumed_other :
    (nonce n : String) (expires e : ℤ) (c : NonceCache)
    → has n c.consumed ≡ false
    → IsConsumed nonce expires c
    → IsConsumed nonce expires (take_nonce n e c)
unfolding take_nonce
take_nonce-IsConsumed_other nonce n expires e c fresh (v, h) = (
  record {
    issued = erase-IsMap n c.issued v.issued;
    consumed = insert-IsMap n e c.consumed v.consumed;
  },
  ground (arith, lookup-insert nonce n e c.consumed, eq_iff n nonce),
)

consume_nonce-IsConsumed :
    (nonce n : String) (expires e now : ℤ) (c : NonceCache)
    → now <ℤ expires
    → IsConsumed nonce expires c
    → IsConsumed nonce expires (consume_nonce n e now c).0
unfolding consume_nonce
consume_nonce-IsConsumed nonce n expires e now c early k =
    let k' = prune-IsConsumed nonce expires now c early k in
    elim (Bool-cases (has n (prune now c).consumed)) [
      | inl used ↦ rw used k'
      | inr fresh ↦ elim (Bool-cases (expires_at (lookup n (prune now c).issued) e)) [
        | inl match ↦
            rw (fresh, match) (take_nonce-IsConsumed_other nonce n expires e (prune now c) fresh k')
        | inr other ↦ rw (fresh, other) k'
      ]
    ]

pub step-IsConsumed :
    (nonce : String) (expires : ℤ) (call : Call) (c : NonceCache)
    → time call <ℤ expires
    → IsConsumed nonce expires c
    → IsConsumed nonce expires (step call c)
unfolding step issue_nonce get_issued_nonce_expiry has_nonce
step-IsConsumed nonce expires (issue n e now) c early k =
    let (v, h) = prune-IsConsumed nonce expires now c early k in
    (record { issued = insert-IsMap n e (prune now c).issued v.issued; consumed = v.consumed }, h)
step-IsConsumed nonce expires (get_expiry n now) c early k =
    prune-IsConsumed nonce expires now c early k
step-IsConsumed nonce expires (has_call n now) c early k =
    prune-IsConsumed nonce expires now c early k
step-IsConsumed nonce expires (consume n e now) c early k =
    consume_nonce-IsConsumed nonce n expires e now c early k
step-IsConsumed nonce expires (prune_call now) c early k =
    prune-IsConsumed nonce expires now c early k

pub run-IsConsumed :
    (nonce : String) (expires : ℤ) (calls : List Call) (c : NonceCache)
    → All (λ call. time call <ℤ expires) calls
    → IsConsumed nonce expires c
    → IsConsumed nonce expires (run calls c)
unfolding run
run-IsConsumed nonce expires [] c early k = k
run-IsConsumed nonce expires (call ∷ calls) c (first, later) k =
    run-IsConsumed nonce expires calls (step call c) later
      (step-IsConsumed nonce expires call c first k)

eq-some_of_expires_at : (o : Option ℤ) (t : ℤ) → expires_at o t ≡ true → o ≡ some t
eq-some_of_expires_at none t h = cc
eq-some_of_expires_at (some s) t h = ap some ((eqb_ℤ_iff s t).0 h)

live_of_prune :
    (nonce : String) (now v : ℤ) (c : NonceCache)
    → lookup nonce (prune now c).issued ≡ some v
    → now <ℤ v
unfolding prune
live_of_prune nonce now v c h = lookup-keep_live_live nonce now v c.issued h

take_nonce-IsConsumed :
    (nonce : String) (expires : ℤ) (c : NonceCache)
    → IsValid c
    → IsConsumed nonce expires (take_nonce nonce expires c)
unfolding take_nonce
take_nonce-IsConsumed nonce expires c v = (
  record {
    issued = erase-IsMap nonce c.issued v.issued;
    consumed = insert-IsMap nonce expires c.consumed v.consumed;
  },
  rw lookup-insert (rw (eq_refl nonce)),
)

-- A nonce is consumed only if it was issued with that expiry, which has not passed; it is then on
-- record as consumed.
pub consume_nonce_succeeds :
    (nonce : String) (expires now : ℤ) (c : NonceCache)
    → IsValid c
    → (consume_nonce nonce expires now c).1 ≡ true
    → (lookup nonce (prune now c).issued ≡ some expires)
      × (now <ℤ expires)
      × IsConsumed nonce expires (consume_nonce nonce expires now c).0
unfolding consume_nonce
consume_nonce_succeeds nonce expires now c v h =
    elim (Bool-cases (has nonce (prune now c).consumed)) [
      | inl used ↦ absurd (ground arith)
      | inr fresh ↦ elim (Bool-cases (expires_at (lookup nonce (prune now c).issued) expires)) [
        | inl match ↦
            let found = eq-some_of_expires_at (lookup nonce (prune now c).issued) expires match in
            (
              found,
              live_of_prune nonce now expires c found,
              rw (fresh, match)
                  (take_nonce-IsConsumed nonce expires (prune now c) (prune-IsValid now c v)),
            )
        | inr other ↦ absurd (ground arith)
      ]
    ]

pub consume_nonce_used :
    (nonce : String) (expires e now : ℤ) (c : NonceCache)
    → now <ℤ expires
    → IsConsumed nonce expires c
    → (consume_nonce nonce e now c).1 ≡ false
unfolding consume_nonce
consume_nonce_used nonce expires e now c early k =
    let (v, h) = prune-IsConsumed nonce expires now c early k in ground arith

consumed_was_issued :
    (nonce : String) (expires now : ℤ) (c : NonceCache)
    → (consume_nonce nonce expires now c).1 ≡ true
    → (lookup nonce (prune now c).issued ≡ some expires) × (now <ℤ expires)
unfolding consume_nonce
consumed_was_issued nonce expires now c h = elim (Bool-cases (has nonce (prune now c).consumed)) [
  | inl used ↦ absurd (ground arith)
  | inr fresh ↦
      let found =
        eq-some_of_expires_at (lookup nonce (prune now c).issued) expires (ground arith) in
      (found, live_of_prune nonce now expires c found)
]

pub consume_nonce_late :
    (nonce : String) (expires now : ℤ) (c : NonceCache)
    → expires ≤ℤ now
    → (consume_nonce nonce expires now c).1 ≡ false
consume_nonce_late nonce expires now c late =
    elim (Bool-cases (consume_nonce nonce expires now c).1) [
      | inl done ↦ absurd (omega (arith, (consumed_was_issued nonce expires now c done).1))
      | inr kept ↦ kept
    ]

pub All-early :
    (calls : List Call) (expires later : ℤ)
    → later <ℤ expires
    → All (λ call. time call ≤ℤ later) calls
    → All (λ call. time call <ℤ expires) calls
All-early [] expires later h bounded = tt
All-early (call ∷ calls) expires later h (first, rest) =
    (omega arith, All-early calls expires later h rest)

-- No replay: once a nonce has been consumed with its expiry, no later call consumes it with that
-- expiry again, whatever calls come between, as long as the clock has not run ahead of that call.
pub no_replay :
    (nonce : String) (expires now later : ℤ) (calls : List Call) (c : NonceCache)
    → IsValid c
    → (consume_nonce nonce expires now c).1 ≡ true
    → All (λ call. time call ≤ℤ later) calls
    → (consume_nonce nonce expires later (run calls (consume_nonce nonce expires now c).0)).1
      ≡ false
no_replay nonce expires now later calls c v h bounded =
    let (_, _, taken) = consume_nonce_succeeds nonce expires now c v h in
    elim (Bool-cases (ltb_ℤ later expires)) [
      | inl early ↦ consume_nonce_used nonce expires expires later _ (ground arith) (
          run-IsConsumed nonce expires calls _
            (All-early calls expires later (ground arith) bounded) taken)
      | inr late ↦ consume_nonce_late nonce expires later _ (ground arith)
    ]
