-- ===== src/Errors.antt =====
-- The errors that the SDK's own code throws (src/errors and the `throw` statements of the modules
-- modelled here). An error that names a public key carries its base58 text.
pub mod Translate
use Prim.Native.String.{String}
use vela_sdk.Prelude.{ℕ, List, ℤ}
use vela_sdk.Prelude.Result.{Result}

pub data AccountKind : Type 0 where
  pull_approval stream_mandate vela_mandate token_config agent_mandate merchant_state : AccountKind
  protocol_config : AccountKind

pub data SdkError : Type 0 where
  -- `RangeError` of `checkedDataView`: offset, width, length.
  byte_out_of_range : ℕ → ℕ → ℕ → SdkError
  truncated : AccountKind → String → SdkError
  account_not_found : AccountKind → String → SdkError
  -- `WrongAccountTypeError`: the address and the discriminator that was read, in hexadecimal.
  wrong_account_type : AccountKind → String → List ℕ → SdkError
  -- `Account … does not contain …`
  not_an_account : AccountKind → String → SdkError
  unsupported_version : ℕ → SdkError
  unknown_variant : String → ℕ → SdkError
  stream_terminal_status : String → SdkError
  -- An enum of Anchor without any of the known keys.
  unknown_anchor_variant : String → SdkError
  -- `ERR_OUT_OF_RANGE` of a Buffer's writer: the value, and the offset with the width and length.
  value_out_of_range : ℤ → SdkError
  write_out_of_range : ℕ → ℕ → ℕ → SdkError

abbrev pub Checked : Type 0 → Type 0
Checked = Result SdkError
