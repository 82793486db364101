-- ===== src/Accounts/PullApproval.antt =====
-- The PullApproval account: `PullApprovalAccount` of src/types.ts, and
-- `deserializePullApprovalAccount`, `fetchPullApproval` and `isPullApprovalCurrent` of
-- src/accounts/deserialize.ts.
pub mod Layout
use vela_sdk.Prelude.{ℕ, ◌+◌, Bool, not, ◌&&◌, Option, none, some, List, ℤ, pos, length, ltb, ◌==◌}
use vela_sdk.Prelude.Int.{leb_ℤ, eqb_ℤ}
use vela_sdk.Prelude.Result.{ok, err, ◌>>=◌, ◌>>◌, throw_if}
use vela_sdk.Errors.{AccountKind}
use vela_sdk.Errors.{Checked, truncated, wrong_account_type}
use vela_sdk.Bytes.{subarray, slice_equals, hex_from_bytes, read_u8, read_u64_le, read_i64_le}
use vela_sdk.Accounts.Platform.{Platform, read_key, account_discriminator}

pub record PullApprovalAccount (Key : Type 0) : Type 0 where
  pub address : Key
  pub mandate : Key
  pub period_start : ℤ
  pub period_end : ℤ
  pub valid_until : ℤ
  pub approved : Bool
  pub approved_amount : ℤ
  pub created_at : ℤ
  pub bump : ℕ

-- `PullApprovalStatusInput`
pub record PullApprovalStatusInput (Key : Type 0) : Type 0 where
  pub expected_mandate : Key
  pub expected_period_start : ℤ
  pub expected_period_end : ℤ
  pub now : Option ℤ
  pub min_amount : Option ℤ

-- `x ?? d`
abbrev pub or_else {ℓ} : {A : Type ℓ} → Option A → A → A
or_else none d = d
or_else (some a) d = a

module _ {Key : Type 0} ⦃platform : Platform Key⦄ where
  unfoldable pub deserialize_pull_approval_account :
      Key → List ℕ → Checked (PullApprovalAccount Key)
  deserialize_pull_approval_account address bytes = do
    throw_if (ltb (length bytes) 82)
        (truncated AccountKind.pull_approval (platform.to_base58 address))
    let got_discriminator = subarray bytes 0 8
    throw_if
        (not (slice_equals got_discriminator (account_discriminator platform "PullApproval") 0))
        (wrong_account_type AccountKind.pull_approval (platform.to_base58 address)
          (hex_from_bytes got_discriminator))
    let offset : ℕ = 8
    let mandate = read_key bytes offset
    let offset = offset + 32
    period_start ← read_i64_le bytes offset
    let offset = offset + 8
    period_end ← read_i64_le bytes offset
    let offset = offset + 8
    valid_until ← read_i64_le bytes offset
    let offset = offset + 8
    approved ← read_u8 bytes offset
    let offset = offset + 1
    approved_amount ← read_u64_le bytes offset
    let offset = offset + 8
    created_at ← read_i64_le bytes offset
    let offset = offset + 8
    bump ← read_u8 bytes offset
    ok (record {
      address = address;
      mandate = mandate;
      period_start = period_start;
      period_end = period_end;
      valid_until = valid_until;
      approved = not (approved == 0);
      approved_amount = approved_amount;
      created_at = created_at;
      bump = bump;
    })

  -- `null` for an account that does not exist.
  unfoldable pub fetch_pull_approval :
      (Key → Option (List ℕ)) → Key → Checked (Option (PullApprovalAccount Key))
  fetch_pull_approval get_account_info address = elim (get_account_info address) [
    | none ↦ ok none
    | some bytes ↦ do approval ← deserialize_pull_approval_account address bytes; ok (some approval)
  ]

  -- `clock` is the machine's time in seconds, which `now` overrides.
  unfoldable pub is_pull_approval_current :
      ℤ → PullApprovalAccount Key → PullApprovalStatusInput Key → Bool
  is_pull_approval_current clock approval input =
      let now = or_else input.now clock in
      let min_amount = or_else input.min_amount (pos 0) in
      approval.approved
      && (platform.equals approval.mandate input.expected_mandate
          && (eqb_ℤ approval.period_start input.expected_period_start
              && (eqb_ℤ approval.period_end input.expected_period_end
                  && (leb_ℤ now approval.valid_until
                      && leb_ℤ min_amount approval.approved_amount))))
