-- ===== src/Accounts/PullApproval/Layout.antt =====
-- The bytes of a PullApproval account, the round trip, and what makes an approval current.
use vela_sdk.Prelude.{
  ℕ, ◌≡◌, refl, Bool, true, false, List, [], ◌∷◌, ◌++◌, ◌↔◌, ℤ, ◌≤ℤ◌, pos, length, arith,
  not-ltb_of_le, length-drop, ap, not, ◌==◌,
}
use vela_sdk.Prelude.Int.{eqb_ℤ_iff}
use vela_sdk.Prelude.Result.{ok}
use vela_sdk.Bytes.{u64_le, i64_le}
use vela_sdk.Bytes.Integers.{IsU64, IsI64}
use vela_sdk.Bytes.Readers.{slice_equals_self}
use vela_sdk.Accounts.Platform.{
  Platform, IsLawful, account_discriminator, length-account_discriminator,
}
use vela_sdk.Accounts.Steps.{u8_step, u64_step, i64_step, bytes_step, key_step}
use vela_sdk.Accounts.PullApproval.{
  PullApprovalAccount, PullApprovalStatusInput, or_else, deserialize_pull_approval_account,
  is_pull_approval_current,
}

-- How a Boolean field is written.
abbrev pub bool_byte : Bool → ℕ
bool_byte true = 1
bool_byte false = 0

bool_byte-ne-zero : (b : Bool) → not (bool_byte b == 0) ≡ b
bool_byte-ne-zero true = refl
bool_byte-ne-zero false = refl

module _ {Key : Type 0} ⦃platform : Platform Key⦄ where
  unfoldable pub pull_approval_bytes : PullApprovalAccount Key → List ℕ → List ℕ
  pull_approval_bytes a rest =
      account_discriminator platform "PullApproval"
      ++ (platform.to_bytes a.mandate
          ++ (i64_le a.period_start
              ++ (i64_le a.period_end
                  ++ (i64_le a.valid_until
                      ++ ((bool_byte a.approved ∷ [])
                          ++ (u64_le a.approved_amount
                              ++ (i64_le a.created_at ++ ((a.bump ∷ []) ++ rest))))))))

  pub record IsCurrent (clock : ℤ) (a : PullApprovalAccount Key)
      (input : PullApprovalStatusInput Key) : Type 0 where
    pub approved : a.approved ≡ true
    pub mandate : a.mandate ≡ input.expected_mandate
    pub period_start : a.period_start ≡ input.expected_period_start
    pub period_end : a.period_end ≡ input.expected_period_end
    pub valid_until : or_else input.now clock ≤ℤ a.valid_until
    pub approved_amount : or_else input.min_amount (pos 0) ≤ℤ a.approved_amount

  pub record Fits (a : PullApprovalAccount Key) : Type 0 where
    pub period_start : IsI64 a.period_start
    pub period_end : IsI64 a.period_end
    pub valid_until : IsI64 a.valid_until
    pub approved_amount : IsU64 a.approved_amount
    pub created_at : IsI64 a.created_at

  -- An account whose fields fit is read back as it was written, whatever follows it.
  pub deserialize_pull_approval_account-bytes :
      (a : PullApprovalAccount Key) (rest : List ℕ)
      → IsLawful platform
      → Fits a
      → deserialize_pull_approval_account a.address (pull_approval_bytes a rest) ≡ ok a
  unfolding deserialize_pull_approval_account pull_approval_bytes
  deserialize_pull_approval_account-bytes a rest lawful fits =
      let bytes = pull_approval_bytes a rest in
      let disc = account_discriminator platform "PullApproval" in
      let (got, h0) =
        bytes_step bytes 0 8 disc refl
          (length-account_discriminator platform "PullApproval" lawful) in
      let (mandate, h1) = key_step lawful bytes 8 a.mandate h0 in
      let (start, h2) = i64_step bytes 40 a.period_start h1 fits.period_start in
      let (end, h3) = i64_step bytes 48 a.period_end h2 fits.period_end in
      let (until, h4) = i64_step bytes 56 a.valid_until h3 fits.valid_until in
      let (approved, h5) = u8_step bytes 64 (bool_byte a.approved) h4 in
      let (amount, h6) = u64_step bytes 65 a.approved_amount h5 fits.approved_amount in
      let (created, h7) = i64_step bytes 73 a.created_at h6 fits.created_at in
      let (bump, h8) = u8_step bytes 81 a.bump h7 in
      rw (not-ltb_of_le (length bytes) 82 (omega (arith, length-drop 81 bytes, ap length h7))) (
        rw got (
          rw (slice_equals_self disc) (
            rw (
              mandate,
              start,
              end,
              until,
              approved,
              amount,
              created,
              bump,
              bool_byte-ne-zero a.approved,
            ))))

  -- An approval is current exactly when it was given, names the expected mandate and period, is
  -- still valid at the time asked for, and covers the amount.
  pub is_pull_approval_current_iff :
      (clock : ℤ) (a : PullApprovalAccount Key) (input : PullApprovalStatusInput Key)
      → IsLawful platform
      → (is_pull_approval_current clock a input ≡ true) ↔ IsCurrent clock a input
  unfolding is_pull_approval_current
  is_pull_approval_current_iff clock a input lawful =
      let same = lawful.equals_iff a.mandate input.expected_mandate in
      let start = eqb_ℤ_iff a.period_start input.expected_period_start in
      let end = eqb_ℤ_iff a.period_end input.expected_period_end in
      (λ h. ground (arith, same, start, end), λ h. ground (arith, same, start, end))
