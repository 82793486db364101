-- ===== src/Tests/Nonces.antt =====
-- A nonce that is issued, consumed, and presented again after other calls.
use Prim.Native.String.{String}
use vela_sdk.Prelude.{◌≡◌, refl, inl, ◌<ℤ◌, true, false, some, List, [], ◌∷◌, pos, arith}
use vela_sdk.X402.Dict.{lookup, insert, keep_live}
use vela_sdk.X402.NonceCache.{
  NonceCache, create_nonce_cache, issue_nonce, consume_nonce, prune, IsValid, Call, step, run,
  issue, consume, has_call,
}
use vela_sdk.X402.NonceCache.Status.{IsExclusive, status, next, step-IsExclusive}
use vela_sdk.X402.NonceCache.Replay.{
  step-IsValid, consume_nonce_succeeds, no_replay, IsConsumed, create_nonce_cache-IsValid,
}

abbrev issued : NonceCache
issued = step (issue "n1" (pos 60_000) (pos 0)) create_nonce_cache

issued-IsValid : IsValid issued
issued-IsValid =
    step-IsValid (issue "n1" (pos 60_000) (pos 0)) create_nonce_cache create_nonce_cache-IsValid

abbrev calls : List Call
calls = has_call "n1" (pos 200) ∷ issue "n1" (pos 60_000) (pos 300) ∷ []

consumed : (consume_nonce "n1" (pos 60_000) (pos 100) issued).1 ≡ true
unfolding consume_nonce step issue_nonce prune keep_live insert lookup
consumed = refl

no_replay_example :
    (consume_nonce "n1"
      (pos 60_000)
      (pos 400)
      (run calls (consume_nonce "n1" (pos 60_000) (pos 100) issued).0)).1
    ≡ false
no_replay_example =
    no_replay "n1" (pos 60_000) (pos 100) (pos 400) calls issued issued-IsValid consumed
      (omega arith, (omega arith, tt))

consume_nonce_succeeds_example :
    (lookup "n1" (prune (pos 100) issued).issued ≡ some (pos 60_000))
    × (pos 100 <ℤ pos 60_000)
    × IsConsumed "n1" (pos 60_000) (consume_nonce "n1" (pos 60_000) (pos 100) issued).0
consume_nonce_succeeds_example =
    consume_nonce_succeeds "n1" (pos 60_000) (pos 100) issued issued-IsValid consumed

created-IsExclusive : IsExclusive create_nonce_cache
unfolding lookup
created-IsExclusive = record { valid = create_nonce_cache-IsValid; apart = λ n. inl refl }

issued-IsExclusive : IsExclusive issued
issued-IsExclusive =
    (step-IsExclusive (issue "n1" (pos 60_000) (pos 0)) create_nonce_cache created-IsExclusive
      (unfold lookup in refl)).0

step-IsExclusive_example :
    IsExclusive (step (consume "n1" (pos 60_000) (pos 100)) issued)
    × ((n : String)
        → status n (step (consume "n1" (pos 60_000) (pos 100)) issued)
          ≡ next (consume "n1" (pos 60_000) (pos 100)) n (status n issued))
step-IsExclusive_example =
    step-IsExclusive (consume "n1" (pos 60_000) (pos 100)) issued issued-IsExclusive tt
