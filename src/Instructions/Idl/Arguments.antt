-- ===== src/Instructions/Idl/Arguments.antt =====
-- The program reads the numbers that the byte writers write.
use vela_sdk.Prelude.{
  ℕ, ◌%◌, ◌^◌, ◌<◌, ◌≡◌, refl, ap, ◌∙◌, Option, none, some, List, ◌∷◌, ◌++◌, ℤ, pos, length, arith,
  length-append, take-append_length, drop-append_length, not-ltb_of_le,
}
use vela_sdk.Bytes.{u64_mod, u64_le, option_u64_le, of_le_bytes, le_bytes, as_uint64}
use vela_sdk.Bytes.Integers.{
  IsU64, of_le_bytes-u64_le, length-u64_le, length-le_bytes, of_le_bytes-le_bytes,
}
use vela_sdk.Accounts.StreamMandate.Layout.{IsOptional}
use vela_sdk.Instructions.Idl.{
  ArgType, u32, u64, option_u64, Value, number, optional, decode_number, decode_arg, decode_args,
}

pub decode_number_lem :
    (width : ℕ) (part rest : List ℕ)
    → length part ≡ width
    → decode_number width (part ++ rest) ≡ some (pos (of_le_bytes part), rest)
unfolding decode_number
decode_number_lem width part rest h =
    rw (not-ltb_of_le (length (part ++ rest)) width (omega (arith, length-append part rest, h))) rw
      (take-append_length width part rest h) rw (drop-append_length width part rest h) refl

decode_number-u64_le :
    (v : ℤ) (rest : List ℕ) → IsU64 v → decode_number 8 (u64_le v ++ rest) ≡ some (v, rest)
decode_number-u64_le v rest h =
    decode_number_lem 8 (u64_le v) rest (length-u64_le v)
    ∙ ap (λ n. some (n, rest)) (of_le_bytes-u64_le v h)

pub decode_u64-u64_le :
    (v : ℤ) (rest : List ℕ) → IsU64 v → decode_arg u64 (u64_le v ++ rest) ≡ some (number v, rest)
unfolding decode_arg
decode_u64-u64_le v rest h = rw (decode_number-u64_le v rest h, decode_arg) refl

pub decode_option_u64-option_u64_le :
    (v : Option ℤ) (rest : List ℕ)
    → IsOptional IsU64 v
    → decode_arg option_u64 (option_u64_le v ++ rest) ≡ some (optional v, rest)
unfolding decode_arg option_u64_le
decode_option_u64-option_u64_le none rest h = refl
decode_option_u64-option_u64_le (some v) rest h = rw (decode_number-u64_le v rest h) refl

pub decode_args-cons :
    (type : ArgType) (types : List ArgType) (bytes rest : List ℕ) (value : Value)
    (values : List Value)
    → decode_arg type bytes ≡ some (value, rest)
    → decode_args types rest ≡ some values
    → decode_args (type ∷ types) bytes ≡ some (value ∷ values)
unfolding decode_args
decode_args-cons type types bytes rest value values here there =
    rw (here, decode_args) rw (there, decode_args) refl

pub decode_u32-le_bytes :
    (n : ℕ) (rest : List ℕ)
    → n < 2 ^ 32
    → decode_arg u32 (le_bytes 4 (as_uint64 (pos n)) ++ rest) ≡ some (number (pos n), rest)
unfolding decode_arg as_uint64
decode_u32-le_bytes n rest h =
    let fits : n % u64_mod ≡ n = omega arith in
    rw fits rw (decode_number_lem 4 (le_bytes 4 n) rest (length-le_bytes 4 n), decode_arg) rw
      (of_le_bytes-le_bytes 4 n h) refl
