-- ===== src/X402/NonceCache/Status.antt =====
-- The nonce cache of src/x402/nonce-cache.ts as a state machine of each nonce: a nonce is unknown,
-- pending until an expiry, or used until that expiry.
use Prim.Native.String.{String}
use text.Mathlib.Text.{◌==◌ as str_eq}
use text.Mathlib.TextEquality.{eq_iff}
use vela_sdk.Prelude.{
  ◌≡◌, subst, true, false, Option, none, some, ℤ, ◌⊎◌, inl, inr, arith, Bool-cases, Option-cases,
  if◌then◌else◌,
}
use vela_sdk.Prelude.Int.{leb_ℤ, eqb_ℤ}
use vela_sdk.X402.Dict.{
  Dict, lookup, erase, IsMap, keep_live, lookup-insert, lookup-erase_ne, lookup-erase_self,
  lookup-keep_live, lookup-keep_live-none,
}
use vela_sdk.X402.NonceCache.{
  NonceCache, IsValid, expires_at, has, prune, issue_nonce, get_issued_nonce_expiry, has_nonce,
  take_nonce, consume_nonce, Call, issue, get_expiry, has_call, consume, prune_call, step,
}
use vela_sdk.X402.NonceCache.Replay.{prune-IsValid, step-IsValid}

pub data NonceStatus : Type 0 where
  unknown : NonceStatus
  pending : ℤ → NonceStatus
  used : ℤ → NonceStatus

-- Nothing is remembered of a nonce from its expiry on.
abbrev pub age : ℤ → NonceStatus → NonceStatus
age now unknown = unknown
age now (pending expires) = if leb_ℤ expires now then unknown else pending expires
age now (used expires) = if leb_ℤ expires now then unknown else used expires

-- Only a nonce that is pending until that very time becomes used.
abbrev pub take : ℤ → NonceStatus → NonceStatus
take expires unknown = unknown
take expires (pending until) = if eqb_ℤ until expires then used until else pending until
take expires (used until) = used until

-- What a call makes of the status of a nonce: an issue makes its nonce pending, a consumption takes
-- its nonce, and every other nonce ages.
abbrev pub next : Call → String → NonceStatus → NonceStatus
next (issue nonce expires now) n s = if str_eq nonce n then pending expires else age now s
next (get_expiry nonce now) n s = age now s
next (has_call nonce now) n s = age now s
next (consume nonce expires now) n s =
    if str_eq nonce n then take expires (age now s) else age now s
next (prune_call now) n s = age now s

-- The status that the two maps give.
abbrev pub status_of : Option ℤ → Option ℤ → NonceStatus
status_of issued (some expires) = used expires
status_of (some expires) none = pending expires
status_of none none = unknown

abbrev pub status : String → NonceCache → NonceStatus
status n c = status_of (lookup n c.issued) (lookup n c.consumed)

-- Each map has each nonce once, and no nonce is in both.
pub record IsExclusive (c : NonceCache) : Type 0 where
  pub valid : IsValid c
  pub apart : (n : String) → (lookup n c.issued ≡ none) ⊎ (lookup n c.consumed ≡ none)

-- The nonce that a call issues is not on record as consumed: the server draws it at random.
abbrev pub IsFresh : Call → NonceCache → Type 0
IsFresh (issue nonce expires now) c = lookup nonce c.consumed ≡ none
IsFresh (get_expiry nonce now) c = Unit
IsFresh (has_call nonce now) c = Unit
IsFresh (consume nonce expires now) c = Unit
IsFresh (prune_call now) c = Unit

abbrev live : ℤ → Option ℤ → Option ℤ
live now none = none
live now (some v) = if leb_ℤ v now then none else some v

lookup-keep_live_lem :
    (k : String) (now : ℤ) (dict : Dict)
    → IsMap dict
    → lookup k (keep_live now dict) ≡ live now (lookup k dict)
lookup-keep_live_lem k now dict m = elim (Option-cases (lookup k dict)) [
  | inl missing ↦ rw missing (lookup-keep_live-none k now dict missing)
  | inr (v, found) ↦ rw found (lookup-keep_live k now v dict m found)
]

-- The maps of a cache that follows the call, as the two options of one nonce.
abbrev Follows : Call → NonceCache → NonceCache → Type 0
Follows call c c' =
    (n : String)
    → ((lookup n c'.issued ≡ none) ⊎ (lookup n c'.consumed ≡ none))
      × (status n c' ≡ next call n (status n c))

module _ (c : NonceCache) (exclusive : IsExclusive c) where
  prune-Follows : (now : ℤ) → Follows (prune_call now) c (prune now c)
  unfolding prune
  prune-Follows now n =
      let issued = lookup-keep_live_lem n now c.issued exclusive.valid.issued in
      let consumed = lookup-keep_live_lem n now c.consumed exclusive.valid.consumed in
      let apart = exclusive.apart n in (ground (arith), ground (arith))

  prune-consumed_none :
      (n : String) (now : ℤ) → lookup n c.consumed ≡ none → lookup n (prune now c).consumed ≡ none
  unfolding prune
  prune-consumed_none n now h = lookup-keep_live-none n now c.consumed h

  issue-Follows :
      (nonce : String) (expires now : ℤ)
      → lookup nonce c.consumed ≡ none
      → Follows (issue nonce expires now) c (issue_nonce nonce expires now c)
  unfolding issue_nonce
  issue-Follows nonce expires now fresh n =
      let (apart, aged) = prune-Follows now n in
      let pruned = prune-consumed_none nonce now fresh in
      let written = lookup-insert n nonce expires (prune now c).issued in
      let same = eq_iff nonce n in
      elim (Bool-cases (str_eq nonce n)) [
        | inl hit ↦
            let e : nonce ≡ n = same.0 hit in
            let free : lookup n (prune now c).consumed ≡ none =
              subst (λ m. lookup m (prune now c).consumed ≡ none) e pruned in
            (inr free, ground (arith, hit, written, free))
        | inr miss ↦ (ground (arith, miss, written, apart), ground (arith, miss, written, aged))
      ]

  take_nonce-Follows :
      (nonce : String) (expires now : ℤ)
      → has nonce (prune now c).consumed ≡ false
      → expires_at (lookup nonce (prune now c).issued) expires ≡ true
      → Follows (consume nonce expires now) c (take_nonce nonce expires (prune now c))
  unfolding take_nonce
  take_nonce-Follows nonce expires now unused matched n =
      let (apart, aged) = prune-Follows now n in
      let written = lookup-insert n nonce expires (prune now c).consumed in
      let valid = prune-IsValid now c exclusive.valid in
      let gone = lookup-erase_self nonce (prune now c).issued valid.issued in
      let same = eq_iff nonce n in
      elim (Bool-cases (str_eq nonce n)) [
        | inl hit ↦
            let e : nonce ≡ n = same.0 hit in
            let erased : lookup n (erase nonce (prune now c).issued) ≡ none =
              subst (λ m. lookup m (erase nonce (prune now c).issued) ≡ none) e gone in
            let unused' : has n (prune now c).consumed ≡ false =
              subst (λ m. has m (prune now c).consumed ≡ false) e unused in
            let matched' : expires_at (lookup n (prune now c).issued) expires ≡ true =
              subst (λ m. expires_at (lookup m (prune now c).issued) expires ≡ true) e matched in
            (inl erased, ground (arith, hit, written, erased, unused', matched', aged))
        | inr miss ↦
            let kept = lookup-erase_ne n nonce (prune now c).issued (ground (arith, same, miss)) in
            (ground (arith, miss, kept, written, apart), ground (arith, miss, kept, written, aged))
      ]

  refused-Follows :
      (nonce : String) (expires now : ℤ)
      → (has nonce (prune now c).consumed ≡ true)
        ⊎ (expires_at (lookup nonce (prune now c).issued) expires ≡ false)
      → Follows (consume nonce expires now) c (prune now c)
  refused-Follows nonce expires now refused n =
      let (apart, aged) = prune-Follows now n in
      elim (Bool-cases (str_eq nonce n)) [
        | inl hit ↦
            let e : nonce ≡ n = (eq_iff nonce n).0 hit in
            let refused' : (has n (prune now c).consumed ≡ true)
                ⊎ (expires_at (lookup n (prune now c).issued) expires ≡ false) =
              subst
                (λ m.
                  (has m (prune now c).consumed ≡ true)
                  ⊎ (expires_at (lookup m (prune now c).issued) expires ≡ false))
                e refused in
            (apart, ground (arith, hit, apart, refused', aged))
        | inr miss ↦ (apart, ground (arith, miss, aged))
      ]

  consume-Follows :
      (nonce : String) (expires now : ℤ)
      → Follows (consume nonce expires now) c (consume_nonce nonce expires now c).0
  unfolding consume_nonce
  consume-Follows nonce expires now = elim (Bool-cases (has nonce (prune now c).consumed)) [
    | inl present ↦ rw present (refused-Follows nonce expires now (inl present))
    | inr unused ↦ elim (Bool-cases (expires_at (lookup nonce (prune now c).issued) expires)) [
      | inl matched ↦ rw (unused, matched) (take_nonce-Follows nonce expires now unused matched)
      | inr other ↦ rw (unused, other) (refused-Follows nonce expires now (inr other))
    ]
  ]

  step-Follows : (call : Call) → IsFresh call c → Follows call c (step call c)
  unfolding step get_issued_nonce_expiry has_nonce
  step-Follows (issue nonce expires now) fresh = issue-Follows nonce expires now fresh
  step-Follows (get_expiry nonce now) fresh = prune-Follows now
  step-Follows (has_call nonce now) fresh = prune-Follows now
  step-Follows (consume nonce expires now) fresh = consume-Follows nonce expires now
  step-Follows (prune_call now) fresh = prune-Follows now

-- In a cache where no nonce is in both maps, every call, which issues no nonce that is on record as
-- consumed, leaves no nonce in both, and takes the status of each nonce to what the state machine of
-- a nonce says: a call forgets a nonce whose expiry is reached, then an issue makes its nonce
-- pending, and a consumption makes its nonce used if it is pending until that very expiry.
pub step-IsExclusive :
    (call : Call) (c : NonceCache)
    → IsExclusive c
    → IsFresh call c
    → IsExclusive (step call c) × ((n : String) → status n (step call c) ≡ next call n (status n c))
step-IsExclusive call c exclusive fresh = (
  record {
    valid = step-IsValid call c exclusive.valid;
    apart = λ n. (step-Follows c exclusive call fresh n).0;
  },
  λ n. (step-Follows c exclusive call fresh n).1,
)
