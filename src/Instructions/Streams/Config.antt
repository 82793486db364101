-- ===== src/Instructions/Streams/Config.antt =====
-- The ProtocolConfig account as the program stores it (idl/vela_protocol.json), and the two keys that
-- the builders take from its bytes.
use vela_sdk.Prelude.{
  ℕ, ◌≡◌, ◌≤◌, refl, ap, Option, some, List, [], ◌∷◌, ◌++◌, ℤ, length, drop, arith, length-append,
  drop-append_length, drop_step, if◌then◌else◌, not-ltb_of_le,
}
use vela_sdk.Prelude.Result.{ok}
use vela_sdk.Bytes.{u64_le, i64_le}
use vela_sdk.Bytes.Integers.{length-u64_le, length-i64_le}
use vela_sdk.Accounts.Platform.{
  Platform, IsLawful, read_key_part, account_discriminator, length-account_discriminator,
}
use vela_sdk.Accounts.Pda
use vela_sdk.Instructions.{transfer_hook_program_id}
use vela_sdk.Instructions.Streams.{
  ProtocolConfigValues, config_values, fetch_protocol_config_values,
  fetch_protocol_config_values_checked,
}

pub record StoredConfig (Key : Type 0) : Type 0 where
  pub admin : Key
  pub cluster_pubkey : Key
  pub cluster_type : ℕ
  pub cluster_offset : ℤ
  pub wrapped_usdc_mint : Key
  pub wrapping_vault : Key
  pub paused : ℕ
  pub paused_at : ℤ
  pub transfer_hook_program_id : Key
  pub bump : ℕ
  pub version : ℕ
  pub mxe_program_id : Key

module _ {Key : Type 0} ⦃platform : Platform Key⦄ where
  head_bytes : StoredConfig Key → List ℕ
  head_bytes c =
      account_discriminator platform "ProtocolConfig"
      ++ (platform.to_bytes c.admin
          ++ (platform.to_bytes c.cluster_pubkey
              ++ ((c.cluster_type ∷ [])
                  ++ (u64_le c.cluster_offset ++ platform.to_bytes c.wrapped_usdc_mint))))

  -- The bytes of the account, with any bytes after them.
  unfoldable pub stored_config_bytes : StoredConfig Key → List ℕ → List ℕ
  unfolding head_bytes
  stored_config_bytes c rest =
      head_bytes c
      ++ (platform.to_bytes c.wrapping_vault
          ++ ((c.paused ∷ i64_le c.paused_at)
              ++ (platform.to_bytes c.transfer_hook_program_id
                  ++ ((c.bump ∷ c.version ∷ []) ++ (platform.to_bytes c.mxe_program_id ++ rest)))))

  -- What the program uses: its vault, and its hook or the default one.
  unfoldable pub values_of : StoredConfig Key → ProtocolConfigValues Key
  values_of c = record {
    wrapping_vault = c.wrapping_vault;
    hook_program_id =
        if platform.equals c.transfer_hook_program_id platform.default_key
        then transfer_hook_program_id
        else c.transfer_hook_program_id;
  }

  length-head_bytes : (c : StoredConfig Key) → IsLawful platform → length (head_bytes c) ≡ 113
  unfolding head_bytes
  length-head_bytes c lawful = omega (
    arith,
    length-append {0},
    length-account_discriminator platform "ProtocolConfig" lawful,
    lawful.length-to_bytes c.admin,
    lawful.length-to_bytes c.cluster_pubkey,
    lawful.length-to_bytes c.wrapped_usdc_mint,
    length-u64_le c.cluster_offset,
  )

  drop_113 :
      (c : StoredConfig Key) (rest : List ℕ)
      → IsLawful platform
      → drop 113 (stored_config_bytes c rest)
        ≡ platform.to_bytes c.wrapping_vault
          ++ ((c.paused ∷ i64_le c.paused_at)
              ++ (platform.to_bytes c.transfer_hook_program_id
                  ++ ((c.bump ∷ c.version ∷ []) ++ (platform.to_bytes c.mxe_program_id ++ rest))))
  unfolding stored_config_bytes
  drop_113 c rest lawful = drop-append_length 113 (head_bytes c) _ (length-head_bytes c lawful)

  drop_154 :
      (c : StoredConfig Key) (rest : List ℕ)
      → IsLawful platform
      → drop 154 (stored_config_bytes c rest)
        ≡ platform.to_bytes c.transfer_hook_program_id
          ++ ((c.bump ∷ c.version ∷ []) ++ (platform.to_bytes c.mxe_program_id ++ rest))
  drop_154 c rest lawful =
      let bytes = stored_config_bytes c rest in
      drop_step bytes 145 9 (c.paused ∷ i64_le c.paused_at) _
        (drop_step bytes 113 32 (platform.to_bytes c.wrapping_vault) _ (drop_113 c rest lawful)
          (lawful.length-to_bytes c.wrapping_vault))
        (omega (arith, length-i64_le c.paused_at))

  -- The hook's key ends at 186.
  long :
      (c : StoredConfig Key) (rest : List ℕ)
      → IsLawful platform
      → 154 ≤ length (stored_config_bytes c rest)
  unfolding stored_config_bytes account_discriminator u64_le i64_le
  long c rest lawful = omega (
    arith,
    length-append {0},
    length-head_bytes c lawful,
    lawful.length-to_bytes c.wrapping_vault,
    length-i64_le c.paused_at,
    lawful.length-to_bytes c.transfer_hook_program_id,
  )

  pub config_values-bytes :
      (c : StoredConfig Key) (rest : List ℕ)
      → IsLawful platform
      → config_values (stored_config_bytes c rest) ≡ values_of c
  unfolding config_values values_of
  config_values-bytes c rest lawful =
      rw
        (read_key_part lawful (stored_config_bytes c rest) _ 113 c.wrapping_vault
          (drop_113 c rest lawful))
        rw
        (read_key_part lawful (stored_config_bytes c rest) _ 154 c.transfer_hook_program_id
          (drop_154 c rest lawful))
        refl

  module _ (get_account_info : Key → Option (List ℕ)) (program_id : Key) (c : StoredConfig Key)
      (rest : List ℕ) (lawful : IsLawful platform)
      (stored : get_account_info (Pda.config program_id).0
        ≡ some (stored_config_bytes c rest)) where
    pub fetch_protocol_config_values-ok :
        fetch_protocol_config_values get_account_info program_id ≡ ok (values_of c)
    unfolding fetch_protocol_config_values
    fetch_protocol_config_values-ok =
        rw (stored, fetch_protocol_config_values) (ap ok (config_values-bytes c rest lawful))

    pub fetch_protocol_config_values_checked-ok :
        fetch_protocol_config_values_checked get_account_info program_id ≡ ok (values_of c)
    unfolding fetch_protocol_config_values_checked
    fetch_protocol_config_values_checked-ok =
        rw (stored, fetch_protocol_config_values_checked) rw
          (not-ltb_of_le (length (stored_config_bytes c rest)) 154 (long c rest lawful))
          (ap ok (config_values-bytes c rest lawful))
