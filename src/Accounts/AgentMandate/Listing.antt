-- ===== src/Accounts/AgentMandate/Listing.antt =====
-- Which accounts `listAgentMandates` returns: those of the authority, in the order of the accounts,
-- each under its own address.
use vela_sdk.Prelude.{
  ℕ, ◌≡◌, refl, ap₂, true, List, [], ◌∷◌, All, map, subst, arith, Bool-cases, inl, inr, ◌∙◌,
}
use vela_sdk.Prelude.Result.{ok, bind-eq-ok, ok-injective}
use vela_sdk.Bytes.{subarray}
use vela_sdk.Accounts.Platform.{Platform, IsLawful, read_key}
use vela_sdk.Accounts.AgentMandate.{
  AgentMandate, read_agent_mandate_account, is_mandate_of, keep_mandates_of, read_agent_mandates,
  list_agent_mandates,
}

module _ {Key : Type 0} ⦃platform : Platform Key⦄ where
  -- A mandate that was read has the address asked for, and the authority that the filter looks at.
  pub read_agent_mandate_account_ids :
      (address : Key) (bytes : List ℕ) (m : AgentMandate Key)
      → read_agent_mandate_account address bytes ≡ ok m
      → (m.address ≡ address) × (m.authority ≡ platform.of_bytes (subarray bytes 8 40))
  unfolding read_agent_mandate_account read_key
  read_agent_mandate_account_ids address bytes m h = (ground arith, ground arith)

  abbrev IsMandateOf : Key → Key × List ℕ → Type 0
  IsMandateOf authority account = is_mandate_of authority account.1 ≡ true

  keep_mandates_of-All :
      (authority : Key) (accounts : List (Key × List ℕ))
      → All (IsMandateOf authority) (keep_mandates_of authority accounts)
  unfolding keep_mandates_of
  keep_mandates_of-All authority [] = tt
  keep_mandates_of-All authority (account ∷ accounts) =
      elim (Bool-cases (is_mandate_of authority account.1)) [
        | inl kept ↦ rw kept (kept, keep_mandates_of-All authority accounts)
        | inr left ↦ rw left (keep_mandates_of-All authority accounts)
      ]

  authority_of_is_mandate_of :
      (authority : Key) (bytes : List ℕ)
      → IsLawful platform
      → is_mandate_of authority bytes ≡ true
      → platform.of_bytes (subarray bytes 8 40) ≡ authority
  unfolding is_mandate_of
  authority_of_is_mandate_of authority bytes lawful h =
      ground (arith, lawful.equals_iff authority (platform.of_bytes (subarray bytes 8 40)))

  read_agent_mandates_ids :
      (authority : Key) (accounts : List (Key × List ℕ)) (ms : List (AgentMandate Key))
      → IsLawful platform
      → All (IsMandateOf authority) accounts
      → read_agent_mandates accounts ≡ ok ms
      → All (λ m. m.authority ≡ authority) ms × (map (λ m. m.address) ms ≡ map (λ a. a.0) accounts)
  unfolding read_agent_mandates
  read_agent_mandates_ids authority [] [] lawful all h = (tt, refl)
  read_agent_mandates_ids authority [] (m ∷ ms) lawful all h = cc
  read_agent_mandates_ids authority ((pubkey, bytes) ∷ accounts) ms lawful (here, there) h =
      let (m, read, h') = bind-eq-ok _ _ h in
      let (ms', rest, e) = bind-eq-ok _ _ h' in
      let (address, owner) = read_agent_mandate_account_ids pubkey bytes m read in
      let (owners, addresses) = read_agent_mandates_ids authority accounts ms' lawful there rest in
      let mine = owner ∙ authority_of_is_mandate_of authority bytes lawful here in
      subst
        (λ t.
          All (λ m. m.authority ≡ authority) t
          × (map (λ m. m.address) t ≡ pubkey ∷ map (λ a. a.0) accounts))
        (ok-injective e) ((mine, owners), ap₂ ◌∷◌ address addresses)

  -- Every mandate listed belongs to the authority, and the list has the address of every account
  -- that the filter keeps, in order.
  pub list_agent_mandates_lem :
      (authority : Key) (accounts : List (Key × List ℕ)) (ms : List (AgentMandate Key))
      → IsLawful platform
      → list_agent_mandates accounts authority ≡ ok ms
      → All (λ m. m.authority ≡ authority) ms
        × (map (λ m. m.address) ms ≡ map (λ a. a.0) (keep_mandates_of authority accounts))
  unfolding list_agent_mandates
  list_agent_mandates_lem authority accounts ms lawful h =
      read_agent_mandates_ids authority (keep_mandates_of authority accounts) ms lawful
        (keep_mandates_of-All authority accounts) h
