-- ===== src/Accounts/StreamMandate/Layout.antt =====
-- The bytes of a StreamMandate account, written field by field in the order of the account's
-- structure, and the round trip through `deserialize_stream_mandate`.
use native.Mathlib.Nat.{add_assoc}
use vela_sdk.Prelude.{
  ℕ, ◌+◌, ◌^◌, ◌<◌, ◌≤◌, ◌≡◌, refl, ◌∙◌, false, not, ◌&&◌, Option, none, some, List, [], ◌∷◌, ◌++◌,
  ℤ, pos, length, drop, replicate, arith, subst, ◌==◌, not-ltb_of_le,
}
use vela_sdk.Prelude.Result.{ok}
use vela_sdk.Bytes.{le_bytes, u64_le, i64_le}
use vela_sdk.Bytes.Integers.{IsU64, IsI64}
use vela_sdk.Bytes.Readers.{slice_equals_self}
use vela_sdk.Accounts.Platform.{
  Platform, IsLawful, account_discriminator, length-account_discriminator,
}
use vela_sdk.Accounts.Steps.{u8_step, u32_step, u64_step, i64_step, bytes_step, key_step}
use vela_sdk.Accounts.StreamMandate.{
  StreamMandate, StreamStatus, active, paused, cancelled, map_stream_status, read_option_u64,
  read_option_i64, read_version_2, read_pending, deserialize_stream_mandate,
}

abbrev pub status_byte : StreamStatus → ℕ
status_byte active = 0
status_byte paused = 1
status_byte cancelled = 2

-- An optional integer takes nine bytes, present or not.
abbrev pub option_bytes : (ℤ → List ℕ) → Option ℤ → List ℕ
option_bytes write none = 0 ∷ replicate 8 0
option_bytes write (some v) = 1 ∷ write v

abbrev pub IsOptional : (ℤ → Type 0) → Option ℤ → Type 0
IsOptional P none = Unit
IsOptional P (some v) = P v

module _ {Key : Type 0} ⦃platform : Platform Key⦄ where
  unfoldable pub pending_bytes : StreamMandate Key → List ℕ → List ℕ
  pending_bytes m rest =
      u64_le m.pending_new_rate_per_second
      ++ (u64_le m.pending_new_authorized_max_rate
          ++ (i64_le m.pending_effective_at
              ++ ((m.pending_change_type ∷ []) ++ (m.pending_nonce_short ++ rest))))

  unfoldable pub stream_mandate_bytes : StreamMandate Key → List ℕ → List ℕ
  stream_mandate_bytes m rest =
      account_discriminator platform "StreamMandate"
      ++ ((m.version ∷ [])
          ++ (platform.to_bytes m.subscriber
              ++ (platform.to_bytes m.merchant
                  ++ (platform.to_bytes m.mint
                      ++ (u64_le m.rate_per_second
                          ++ (u64_le m.authorized_max_rate
                              ++ (i64_le m.last_settled_ts
                                  ++ (u64_le m.total_streamed
                                      ++ (option_bytes u64_le m.max_streamed
                                          ++ (option_bytes i64_le m.paused_at
                                              ++ (le_bytes 4 m.min_settle_interval
                                                  ++ ((status_byte m.status ∷ [])
                                                      ++ (u64_le m.mandate_index
                                                          ++ ((m.bump ∷ []) ++ rest))))))))))))))

  -- Every field fits its place in the account.
  pub record Fits (m : StreamMandate Key) : Type 0 where
    pub rate_per_second : IsU64 m.rate_per_second
    pub authorized_max_rate : IsU64 m.authorized_max_rate
    pub last_settled_ts : IsI64 m.last_settled_ts
    pub total_streamed : IsU64 m.total_streamed
    pub max_streamed : IsOptional IsU64 m.max_streamed
    pub paused_at : IsOptional IsI64 m.paused_at
    pub min_settle_interval : m.min_settle_interval < 2 ^ 32
    pub mandate_index : IsU64 m.mandate_index

  pub record PendingFits (m : StreamMandate Key) : Type 0 where
    pub rate : IsU64 m.pending_new_rate_per_second
    pub max_rate : IsU64 m.pending_new_authorized_max_rate
    pub effective_at : IsI64 m.pending_effective_at
    pub nonce : length m.pending_nonce_short ≡ 8

  -- What version 1 reads for the fields that it lacks.
  pub record HasNoChange (m : StreamMandate Key) : Type 0 where
    pub rate : m.pending_new_rate_per_second ≡ pos 0
    pub max_rate : m.pending_new_authorized_max_rate ≡ pos 0
    pub effective_at : m.pending_effective_at ≡ pos 0
    pub change_type : m.pending_change_type ≡ 0
    pub nonce : m.pending_nonce_short ≡ []

option_u64_step :
    (bytes rest : List ℕ) (o : ℕ) (v : Option ℤ)
    → drop o bytes ≡ option_bytes u64_le v ++ rest
    → IsOptional IsU64 v
    → (read_option_u64 bytes o ≡ ok (v, o + 9)) × (drop (o + 9) bytes ≡ rest)
unfolding read_option_u64
option_u64_step bytes rest o none h k =
    let (tag, _) = u8_step bytes o 0 h in
    (rw tag, (bytes_step bytes o 9 (0 ∷ replicate 8 0) h refl).1)
option_u64_step bytes rest o (some v) h k =
    let (tag, h1) = u8_step bytes o 1 h in
    let (value, h9) = u64_step bytes (o + 1) v h1 k in
    (rw (tag, value), subst (λ n. drop n bytes ≡ rest) (add_assoc o 1 8) h9)

option_i64_step :
    (bytes rest : List ℕ) (o : ℕ) (v : Option ℤ)
    → drop o bytes ≡ option_bytes i64_le v ++ rest
    → IsOptional IsI64 v
    → (read_option_i64 bytes o ≡ ok (v, o + 9)) × (drop (o + 9) bytes ≡ rest)
unfolding read_option_i64
option_i64_step bytes rest o none h k =
    let (tag, _) = u8_step bytes o 0 h in
    (rw tag, (bytes_step bytes o 9 (0 ∷ replicate 8 0) h refl).1)
option_i64_step bytes rest o (some v) h k =
    let (tag, h1) = u8_step bytes o 1 h in
    let (value, h9) = i64_step bytes (o + 1) v h1 k in
    (rw (tag, value), subst (λ n. drop n bytes ≡ rest) (add_assoc o 1 8) h9)

map_stream_status-status_byte : (s : StreamStatus) → map_stream_status (status_byte s) ≡ ok s
unfolding map_stream_status
map_stream_status-status_byte active = refl
map_stream_status-status_byte paused = refl
map_stream_status-status_byte cancelled = refl

read_pending_2 :
    (bytes : List ℕ) (o v : ℕ) → v ≡ 2 → read_pending bytes o v ≡ read_version_2 bytes o
unfolding read_pending
read_pending_2 bytes o v h = ground arith

module _ {Key : Type 0} ⦃platform : Platform Key⦄ where
  read_version_2_bytes :
      (m : StreamMandate Key) (bytes rest : List ℕ) (o : ℕ)
      → PendingFits m
      → drop o bytes ≡ pending_bytes m rest
      → read_version_2 bytes o
        ≡ ok (
          m.pending_new_rate_per_second, m.pending_new_authorized_max_rate, m.pending_effective_at,
          m.pending_change_type, m.pending_nonce_short,
        )
  unfolding read_version_2 pending_bytes
  read_version_2_bytes m bytes rest o fits h =
      let (rate, h1) = u64_step bytes o m.pending_new_rate_per_second h fits.rate in
      let (max_rate, h2) =
        u64_step bytes (o + 8) m.pending_new_authorized_max_rate h1 fits.max_rate in
      let (effective, h3) =
        i64_step bytes (o + 8 + 8) m.pending_effective_at h2 fits.effective_at in
      let (change, h4) = u8_step bytes (o + 8 + 8 + 8) m.pending_change_type h3 in
      let (nonce, _) = bytes_step bytes (o + 8 + 8 + 8 + 1) 8 m.pending_nonce_short h4 fits.nonce in
      rw (rate, max_rate, effective, change, nonce)

  deserialize_from :
      (m : StreamMandate Key) (rest bytes : List ℕ)
      → IsLawful platform
      → Fits m
      → bytes ≡ stream_mandate_bytes m rest
      → 225 ≤ length bytes
      → (drop 169 bytes ≡ rest
          → read_pending bytes 169 m.version
            ≡ ok (
              m.pending_new_rate_per_second, m.pending_new_authorized_max_rate,
              m.pending_effective_at, m.pending_change_type, m.pending_nonce_short,
            ))
      → (not (m.version == 1) && not (m.version == 2)) ≡ false
      → deserialize_stream_mandate m.address bytes ≡ ok m
  unfolding deserialize_stream_mandate stream_mandate_bytes
  deserialize_from m rest bytes lawful fits e long pending versioned =
      let disc = account_discriminator platform "StreamMandate" in
      let (got, h0) =
        bytes_step bytes 0 8 disc e
          (length-account_discriminator platform "StreamMandate" lawful) in
      let (version, h1) = u8_step bytes 8 m.version h0 in
      let (subscriber, h2) = key_step lawful bytes 9 m.subscriber h1 in
      let (merchant, h3) = key_step lawful bytes 41 m.merchant h2 in
      let (mint, h4) = key_step lawful bytes 73 m.mint h3 in
      let (rate, h5) = u64_step bytes 105 m.rate_per_second h4 fits.rate_per_second in
      let (max_rate, h6) = u64_step bytes 113 m.authorized_max_rate h5 fits.authorized_max_rate in
      let (settled, h7) = i64_step bytes 121 m.last_settled_ts h6 fits.last_settled_ts in
      let (total, h8) = u64_step bytes 129 m.total_streamed h7 fits.total_streamed in
      let (most, h9) = option_u64_step bytes _ 137 m.max_streamed h8 fits.max_streamed in
      let (stopped, h10) = option_i64_step bytes _ 146 m.paused_at h9 fits.paused_at in
      let (interval, h11) = u32_step bytes 155 m.min_settle_interval h10 fits.min_settle_interval in
      let (status, h12) = u8_step bytes 159 (status_byte m.status) h11 in
      let (index, h13) = u64_step bytes 160 m.mandate_index h12 fits.mandate_index in
      let (bump, h14) = u8_step bytes 168 m.bump h13 in
      rw (not-ltb_of_le (length bytes) 225 long) (
        rw got (
          rw (slice_equals_self disc) (
            rw version (
              rw versioned (
                rw (subscriber, merchant, mint, rate, max_rate, settled, total, most)
                  (rw (stopped, interval, status, map_stream_status-status_byte m.status, index)
                    (rw (bump, pending h14))))))))

  -- A version 2 account of a mandate whose fields fit is read back as that mandate, whatever
  -- bytes fill the account up.
  pub deserialize_stream_mandate-bytes_2 :
      (m : StreamMandate Key) (rest : List ℕ)
      → IsLawful platform
      → Fits m
      → PendingFits m
      → m.version ≡ 2
      → 225 ≤ length (stream_mandate_bytes m (pending_bytes m rest))
      → deserialize_stream_mandate m.address (stream_mandate_bytes m (pending_bytes m rest)) ≡ ok m
  deserialize_stream_mandate-bytes_2 m rest lawful fits pending v long =
      let bytes = stream_mandate_bytes m (pending_bytes m rest) in
      deserialize_from m (pending_bytes m rest) bytes lawful fits refl long
        (λ h.
          read_pending_2 bytes 169 m.version v ∙ read_version_2_bytes m bytes rest 169 pending h)
        (ground arith)

  -- So is a version 1 account, which has no scheduled change.
  pub deserialize_stream_mandate-bytes_1 :
      (m : StreamMandate Key) (rest : List ℕ)
      → IsLawful platform
      → Fits m
      → HasNoChange m
      → m.version ≡ 1
      → 225 ≤ length (stream_mandate_bytes m rest)
      → deserialize_stream_mandate m.address (stream_mandate_bytes m rest) ≡ ok m
  unfolding read_pending
  deserialize_stream_mandate-bytes_1 m rest lawful fits plain v long =
      deserialize_from m rest (stream_mandate_bytes m rest) lawful fits refl long
        (λ h. ground arith) (ground arith)
