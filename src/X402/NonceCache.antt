-- ===== src/X402/NonceCache.antt =====
-- The nonce cache of src/x402/nonce-cache.ts. Times are milliseconds; every operation is given the
-- time, which the source reads from the clock by default.
pub mod Open
pub mod Replay
pub mod Status
use Prim.Native.String.{String}
use vela_sdk.Prelude.{Bool, true, false, Option, none, some, List, [], ◌∷◌, ℤ, if◌then◌else◌}
use vela_sdk.Prelude.Int.{eqb_ℤ}
use vela_sdk.X402.Dict.{Dict, lookup, insert, erase, keep_live, IsMap}

pub record NonceCache : Type 0 where
  pub issued : Dict
  pub consumed : Dict

abbrev pub create_nonce_cache : NonceCache
create_nonce_cache = record { issued = []; consumed = [] }

-- `issued.get(nonce) === expiresAt`
abbrev pub expires_at : Option ℤ → ℤ → Bool
expires_at none t = false
expires_at (some s) t = eqb_ℤ s t

abbrev pub has : String → Dict → Bool
has nonce dict = elim (lookup nonce dict) [ none ↦ false | some _ ↦ true ]

unfoldable pub prune : ℤ → NonceCache → NonceCache
prune now c = record { issued = keep_live now c.issued; consumed = keep_live now c.consumed }

unfoldable pub issue_nonce : String → ℤ → ℤ → NonceCache → NonceCache
issue_nonce nonce expires now c =
    let c = prune now c in record c { issued = insert nonce expires c.issued }

unfoldable pub get_issued_nonce_expiry : String → ℤ → NonceCache → NonceCache × Option ℤ
get_issued_nonce_expiry nonce now c = let c = prune now c in (c, lookup nonce c.issued)

unfoldable pub has_nonce : String → ℤ → NonceCache → NonceCache × Bool
has_nonce nonce now c = let c = prune now c in (c, has nonce c.consumed)

-- The writes of a successful `consumeNonce`.
unfoldable pub take_nonce : String → ℤ → NonceCache → NonceCache
take_nonce nonce expires c = record {
  issued = erase nonce c.issued;
  consumed = insert nonce expires c.consumed;
}

unfoldable pub consume_nonce : String → ℤ → ℤ → NonceCache → NonceCache × Bool
consume_nonce nonce expires now c =
    let c = prune now c in
    if has nonce c.consumed
    then (c, false)
    else if expires_at (lookup nonce c.issued) expires
    then (take_nonce nonce expires c, true)
    else (c, false)

-- Each map has each nonce once.
pub record IsValid (c : NonceCache) : Type 0 where
  pub issued : IsMap c.issued
  pub consumed : IsMap c.consumed

-- A call of the cache, with its time.
pub data Call : Type 0 where
  issue : String → ℤ → ℤ → Call
  get_expiry : String → ℤ → Call
  has_call : String → ℤ → Call
  consume : String → ℤ → ℤ → Call
  prune_call : ℤ → Call

abbrev pub time : Call → ℤ
time (issue nonce expires now) = now
time (get_expiry nonce now) = now
time (has_call nonce now) = now
time (consume nonce expires now) = now
time (prune_call now) = now

unfoldable pub step : Call → NonceCache → NonceCache
step (issue nonce expires now) c = issue_nonce nonce expires now c
step (get_expiry nonce now) c = (get_issued_nonce_expiry nonce now c).0
step (has_call nonce now) c = (has_nonce nonce now c).0
step (consume nonce expires now) c = (consume_nonce nonce expires now c).0
step (prune_call now) c = prune now c

-- The calls of any number of requests, in the order in which they reach the cache.
unfoldable pub run : List Call → NonceCache → NonceCache
run [] c = c
run (call ∷ calls) c = run calls (step call c)
