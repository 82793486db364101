-- ===== src/Accounts/AgentMandate/Layout.antt =====
-- The bytes of an AgentMandate account, its list of services included, and the round trip through
-- `read_agent_mandate_account`.
use vela_sdk.Prelude.{
  ℕ, suc, ◌+◌, ◌*◌, ◌^◌, ◌<◌, ◌≡◌, refl, sym, ap, subst, some, List, [], ◌∷◌, ◌++◌, length, drop,
  arith, not-ltb_of_le, length-drop, length-append,
}
use vela_sdk.Prelude.Result.{ok}
use vela_sdk.Bytes.{le_bytes, u64_le, i64_le}
use vela_sdk.Bytes.Integers.{IsU64, IsI64}
use vela_sdk.Bytes.Readers.{slice_equals_prefix}
use vela_sdk.Accounts.Platform.{Platform, IsLawful}
use vela_sdk.Accounts.Steps.{u8_step, u32_step, u64_step, i64_step, bytes_step, key_step}
use vela_sdk.Accounts.Status.{agent_mandate_status_byte, map_agent_mandate_status_lem}
use vela_sdk.Accounts.AgentMandate.{
  AgentServiceLimit, AgentMandate, agent_mandate_discriminator, read_service, read_services,
  read_agent_mandate_account,
}

module _ {Key : Type 0} ⦃platform : Platform Key⦄ where
  unfoldable pub service_bytes : AgentServiceLimit Key → List ℕ → List ℕ
  service_bytes s rest =
      platform.to_bytes s.service
      ++ (u64_le s.daily_limit ++ (u64_le s.daily_spent ++ (i64_le s.last_reset ++ rest)))

  unfoldable pub services_bytes : List (AgentServiceLimit Key) → List ℕ → List ℕ
  services_bytes [] rest = rest
  services_bytes (s ∷ services) rest = service_bytes s (services_bytes services rest)

  -- The account, with its last 66 bytes and what follows it as `rest`.
  unfoldable pub agent_mandate_bytes : AgentMandate Key → List ℕ → List ℕ → List ℕ
  agent_mandate_bytes m reserved rest =
      agent_mandate_discriminator
      ++ (platform.to_bytes m.authority
          ++ (platform.to_bytes m.agent
              ++ (u64_le m.daily_limit
                  ++ (u64_le m.daily_spent
                      ++ (i64_le m.daily_last_reset
                          ++ (u64_le m.lifetime_cap
                              ++ (u64_le m.total_spent
                                  ++ (u64_le m.min_pull_amount
                                      ++ (i64_le m.min_pull_interval
                                          ++ (i64_le m.last_pull_at
                                              ++ ((agent_mandate_status_byte m.status ∷ [])
                                                  ++ (le_bytes 4 (length m.services)
                                                      ++ services_bytes m.services (
                                                          (m.bump ∷ [])
                                                          ++ ((1 ∷ [])
                                                            ++ (reserved ++ rest)))))))))))))))

  abbrev ServiceFits : AgentServiceLimit Key → Type 0
  ServiceFits s = IsU64 s.daily_limit × IsU64 s.daily_spent × IsI64 s.last_reset

  abbrev pub ServicesFit : List (AgentServiceLimit Key) → Type 0
  ServicesFit [] = Unit
  ServicesFit (s ∷ services) = ServiceFits s × ServicesFit services

  pub record Fits (m : AgentMandate Key) : Type 0 where
    pub daily_limit : IsU64 m.daily_limit
    pub daily_spent : IsU64 m.daily_spent
    pub daily_last_reset : IsI64 m.daily_last_reset
    pub lifetime_cap : IsU64 m.lifetime_cap
    pub total_spent : IsU64 m.total_spent
    pub min_pull_amount : IsU64 m.min_pull_amount
    pub min_pull_interval : IsI64 m.min_pull_interval
    pub last_pull_at : IsI64 m.last_pull_at
    pub services : ServicesFit m.services
    pub count : length m.services < 2 ^ 32

  service_step :
      (bytes rest : List ℕ) (o : ℕ) (s : AgentServiceLimit Key)
      → IsLawful platform
      → ServiceFits s
      → drop o bytes ≡ service_bytes s rest
      → (read_service bytes o ≡ ok (s, o + 56)) × (drop (o + 56) bytes ≡ rest)
  unfolding read_service service_bytes
  service_step bytes rest o s lawful (fits_limit, fits_spent, fits_reset) h =
      let (service, h1) = key_step lawful bytes o s.service h in
      let (limit, h2) = u64_step bytes (o + 32) s.daily_limit h1 fits_limit in
      let (spent, h3) = u64_step bytes (o + 32 + 8) s.daily_spent h2 fits_spent in
      let (reset, h4) = i64_step bytes (o + 32 + 8 + 8) s.last_reset h3 fits_reset in
      let e : o + 32 + 8 + 8 + 8 ≡ o + 56 = omega arith in
      (
        rw (service, limit, spent, reset) (ap (λ n. ok (s, n)) e),
        subst (λ n. drop n bytes ≡ rest) e h4,
      )

  services_step :
      (bytes rest : List ℕ) (o : ℕ) (services : List (AgentServiceLimit Key))
      → IsLawful platform
      → ServicesFit services
      → drop o bytes ≡ services_bytes services rest
      → (read_services bytes (length services) o ≡ ok (services, o + 56 * length services))
        × (drop (o + 56 * length services) bytes ≡ rest)
  unfolding read_services services_bytes
  services_step bytes rest o [] lawful fits h =
      let e : o ≡ o + 56 * 0 = omega arith in
      (ap (λ n. ok ([], n)) e, subst (λ n. drop n bytes ≡ rest) e h)
  services_step bytes rest o (s ∷ services) lawful (fits, fits') h =
      let (entry, h1) = service_step bytes (services_bytes services rest) o s lawful fits h in
      let (entries, h2) = services_step bytes rest (o + 56) services lawful fits' h1 in
      let e : o + 56 + 56 * length services ≡ o + 56 * suc (length services) = omega arith in
      (
        rw (entry, entries) (ap (λ n. ok (s ∷ services, n)) e),
        subst (λ n. drop n bytes ≡ rest) e h2,
      )

  -- A mandate whose fields fit, with any number of services, is read back as it was written.
  pub read_agent_mandate_account-bytes :
      (m : AgentMandate Key) (reserved rest : List ℕ)
      → IsLawful platform
      → Fits m
      → length reserved ≡ 64
      → m.version ≡ some 1
      → m.reserved ≡ some reserved
      → read_agent_mandate_account m.address (agent_mandate_bytes m reserved rest) ≡ ok m
  unfolding read_agent_mandate_account agent_mandate_bytes
  read_agent_mandate_account-bytes m reserved rest lawful fits k v r =
      let bytes = agent_mandate_bytes m reserved rest in
      let h0 = (bytes_step bytes 0 8 agent_mandate_discriminator refl refl).1 in
      let (authority, h1) = key_step lawful bytes 8 m.authority h0 in
      let (agent, h2) = key_step lawful bytes 40 m.agent h1 in
      let (limit, h3) = u64_step bytes 72 m.daily_limit h2 fits.daily_limit in
      let (spent, h4) = u64_step bytes 80 m.daily_spent h3 fits.daily_spent in
      let (reset, h5) = i64_step bytes 88 m.daily_last_reset h4 fits.daily_last_reset in
      let (lifetime, h6) = u64_step bytes 96 m.lifetime_cap h5 fits.lifetime_cap in
      let (total, h7) = u64_step bytes 104 m.total_spent h6 fits.total_spent in
      let (amount, h8) = u64_step bytes 112 m.min_pull_amount h7 fits.min_pull_amount in
      let (interval, h9) = i64_step bytes 120 m.min_pull_interval h8 fits.min_pull_interval in
      let (last, h10) = i64_step bytes 128 m.last_pull_at h9 fits.last_pull_at in
      let (status, h11) = u8_step bytes 136 (agent_mandate_status_byte m.status) h10 in
      let (count, h12) = u32_step bytes 137 (length m.services) h11 fits.count in
      let (services, h13) = services_step bytes _ 141 m.services lawful fits.services h12 in
      let o = 141 + 56 * length m.services in
      let (bump, h14) = u8_step bytes o m.bump h13 in
      let (version, h15) = u8_step bytes (o + 1) 1 h14 in
      let (kept, h16) = bytes_step bytes (o + 1 + 1) 64 reserved h15 k in
      rw
        (not-ltb_of_le (length bytes) 170 (
          omega (arith, length-drop (o + 1 + 1) bytes, ap length h15, length-append reserved rest)))
        (rw (slice_equals_prefix agent_mandate_discriminator _) (
          rw (authority, agent, limit, spent, reset, lifetime, total, amount, interval, last)
            (rw
              (status, map_agent_mandate_status_lem m.status, count, services, bump, version, kept)
              (λ i. ok (record m { version = sym v i; reserved = sym r i })))))
