-- ===== src/Bytes.antt =====
-- Byte readers and writers: src/browser/bytes.ts. A byte array is a list of numbers; offsets are
-- the non-negative numbers that every caller passes.
pub mod Integers
pub mod Parts
pub mod Readers
use Prim.Native.Char.{code}
use Prim.Native.String.{String}
use vela_sdk.Prelude.{
  ℕ, zero, suc, ◌+◌, ◌-◌, ◌*◌, ◌/◌, ◌%◌, ◌^◌, Bool, true, false, ◌&&◌, ◌||◌, List, [], ◌∷◌, ◌++◌,
  Option, none, some, ℤ, pos, negsuc, ltb, leb, ◌==◌, if◌then◌else◌, length, take, drop, map,
}
use vela_sdk.Prelude.Result.{Result, ok, err, ◌>>=◌}
use vela_sdk.Errors.{Checked, byte_out_of_range}

abbrev pub u64_mod : ℕ
u64_mod = 2 ^ 64

-- `checkedDataView`: the `width` bytes at `offset`.
unfoldable pub checked_data_view : List ℕ → ℕ → ℕ → Checked (List ℕ)
checked_data_view bytes offset width =
    if ltb (length bytes) (offset + width)
    then err (byte_out_of_range offset width (length bytes))
    else ok (take width (drop offset bytes))

-- `data.subarray(from, to)`: both ends are clamped to the length.
unfoldable pub subarray : List ℕ → ℕ → ℕ → List ℕ
subarray bytes from to = take (to - from) (drop from bytes)

-- `bytes[i] === target[i]` for every index of `target`.
unfoldable pub starts_with : List ℕ → List ℕ → Bool
starts_with bytes [] = true
starts_with [] (t ∷ target) = false
starts_with (b ∷ bytes) (t ∷ target) = b == t && starts_with bytes target

-- `text.includes(part)` on the codes of the characters.
unfoldable pub contains : List ℕ → List ℕ → Bool
contains [] part = starts_with [] part
contains (c ∷ text) part = starts_with (c ∷ text) part || contains text part

unfoldable pub slice_equals : List ℕ → List ℕ → ℕ → Bool
unfolding starts_with
slice_equals bytes target offset =
    if ltb (length bytes) (offset + length target)
    then false
    else starts_with (drop offset bytes) target

-- The value of little-endian bytes, and the `width` low bytes of a value.
unfoldable pub of_le_bytes : List ℕ → ℕ
of_le_bytes [] = 0
of_le_bytes (b ∷ bytes) = b + 256 * of_le_bytes bytes

unfoldable pub le_bytes : ℕ → ℕ → List ℕ
le_bytes zero n = []
le_bytes (suc width) n = n % 256 ∷ le_bytes width (n / 256)

-- `DataView.getBigInt64`: two's complement.
unfoldable pub as_int64 : ℕ → ℤ
as_int64 w = if ltb w (2 ^ 63) then pos w else negsuc (u64_mod - w - 1)

-- `DataView.setBigUint64` and `setBigInt64` store a value modulo 2^64.
unfoldable pub as_uint64 : ℤ → ℕ
as_uint64 (pos n) = n % u64_mod
as_uint64 (negsuc n) = u64_mod - 1 - n % u64_mod

unfoldable pub read_u8 : List ℕ → ℕ → Checked ℕ
unfolding checked_data_view of_le_bytes
read_u8 bytes offset = do view ← checked_data_view bytes offset 1; ok (of_le_bytes view)

unfoldable pub read_u32_le : List ℕ → ℕ → Checked ℕ
unfolding checked_data_view of_le_bytes
read_u32_le bytes offset = do view ← checked_data_view bytes offset 4; ok (of_le_bytes view)

unfoldable pub read_u64_le : List ℕ → ℕ → Checked ℤ
unfolding checked_data_view of_le_bytes
read_u64_le bytes offset = do view ← checked_data_view bytes offset 8; ok (pos (of_le_bytes view))

unfoldable pub read_i64_le : List ℕ → ℕ → Checked ℤ
unfolding checked_data_view of_le_bytes as_int64
read_i64_le bytes offset = do
  view ← checked_data_view bytes offset 8
  ok (as_int64 (of_le_bytes view))

unfoldable pub u64_le : ℤ → List ℕ
unfolding le_bytes as_uint64
u64_le value = le_bytes 8 (as_uint64 value)

unfoldable pub i64_le : ℤ → List ℕ
unfolding le_bytes as_uint64
i64_le value = le_bytes 8 (as_uint64 value)

unfoldable pub option_u64_le : Option ℤ → List ℕ
unfolding u64_le
option_u64_le none = 0 ∷ []
option_u64_le (some value) = 1 ∷ u64_le value

unfoldable pub option_i64_le : Option ℤ → List ℕ
unfolding i64_le
option_i64_le none = 0 ∷ []
option_i64_le (some value) = 1 ∷ i64_le value

-- `concatBytes`: the parts that are not null, one after another.
unfoldable pub concat_bytes : List (Option (List ℕ)) → List ℕ
concat_bytes [] = []
concat_bytes (none ∷ parts) = concat_bytes parts
concat_bytes (some part ∷ parts) = part ++ concat_bytes parts

-- The bytes before the first zero, which `utf8FromFixedBytes` hands to the text decoder.
unfoldable pub before_zero : List ℕ → List ℕ
before_zero [] = []
before_zero (b ∷ bytes) = if b == 0 then [] else b ∷ before_zero bytes

hex_digit : ℕ → ℕ
hex_digit d = if ltb d 10 then b'0' + d else b'a' + (d - 10)

-- `byte.toString(16).padStart(2, "0")` for each byte, as code points.
unfoldable pub hex_from_bytes : List ℕ → List ℕ
unfolding hex_digit
hex_from_bytes [] = []
hex_from_bytes (b ∷ bytes) = hex_digit (b / 16) ∷ hex_digit (b % 16) ∷ hex_from_bytes bytes

-- `textEncoder.encode` of an ASCII text: its code points.
abbrev pub codes : String → List ℕ
codes String.[] = []
codes (String.◌∷◌ c s) = code c ∷ codes s
