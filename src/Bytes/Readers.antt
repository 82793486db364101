-- ===== src/Bytes/Readers.antt =====
-- What a reader returns at an offset where a writer's bytes stand, and when it throws.
use vela_sdk.Prelude.{
  ℕ, ◌+◌, ◌-◌, ◌^◌, ◌≤◌, ◌<◌, ◌≡◌, refl, ap, ◌∙◌, true, false, List, [], ◌∷◌, ◌++◌, ℤ, arith,
  length, take, drop, lt→ltb, not-ltb_of_le, subst, append-nil, ◌↔◌, ==_refl, length-append,
  length-drop, take-append_length,
}
use vela_sdk.Prelude.Result.{ok}
use vela_sdk.Bytes.{
  checked_data_view, subarray, starts_with, slice_equals, le_bytes, read_u8, read_u32_le,
  read_u64_le, read_i64_le, u64_le, i64_le,
}
use vela_sdk.Bytes.Integers.{
  IsU64, IsI64, length-le_bytes, of_le_bytes-le_bytes, length-u64_le, length-i64_le,
  of_le_bytes-u64_le, of_le_bytes-i64_le,
}

-- A read of some width, at an offset where a part of that length stands.
checked_data_view_part :
    (bytes part rest : List ℕ) (offset width : ℕ)
    → drop offset bytes ≡ part ++ rest
    → length part ≡ width
    → 0 < width
    → checked_data_view bytes offset width ≡ ok part
unfolding checked_data_view
checked_data_view_part bytes part rest offset width h k p =
    let e : take width (drop offset bytes) ≡ part =
      ap (take width) h ∙ take-append_length width part rest k in
    let room : length bytes - offset ≡ width + length rest =
      omega (arith, length-drop offset bytes, ap length h, length-append part rest, k) in
    ground arith

pub read_u8_part :
    (bytes rest : List ℕ) (offset b : ℕ)
    → drop offset bytes ≡ b ∷ rest
    → read_u8 bytes offset ≡ ok b
unfolding read_u8
read_u8_part bytes rest offset b h =
    rw (checked_data_view_part bytes (b ∷ []) rest offset 1 h refl (omega arith))
      (ap ok (omega arith))

pub read_u32_le_part :
    (bytes rest : List ℕ) (offset n : ℕ)
    → drop offset bytes ≡ le_bytes 4 n ++ rest
    → n < 2 ^ 32
    → read_u32_le bytes offset ≡ ok n
unfolding read_u32_le
read_u32_le_part bytes rest offset n h k =
    rw
      (checked_data_view_part bytes (le_bytes 4 n) rest offset 4 h (length-le_bytes 4 n)
        (omega arith))
      (ap ok (of_le_bytes-le_bytes 4 n k))

pub read_u64_le_part :
    (bytes rest : List ℕ) (offset : ℕ) (v : ℤ)
    → drop offset bytes ≡ u64_le v ++ rest
    → IsU64 v
    → read_u64_le bytes offset ≡ ok v
unfolding read_u64_le
read_u64_le_part bytes rest offset v h k =
    rw (checked_data_view_part bytes (u64_le v) rest offset 8 h (length-u64_le v) (omega arith))
      (ap ok (of_le_bytes-u64_le v k))

pub read_i64_le_part :
    (bytes rest : List ℕ) (offset : ℕ) (v : ℤ)
    → drop offset bytes ≡ i64_le v ++ rest
    → IsI64 v
    → read_i64_le bytes offset ≡ ok v
unfolding read_i64_le
read_i64_le_part bytes rest offset v h k =
    rw (checked_data_view_part bytes (i64_le v) rest offset 8 h (length-i64_le v) (omega arith))
      (ap ok (of_le_bytes-i64_le v k))

pub subarray_part :
    (bytes part rest : List ℕ) (from to : ℕ)
    → drop from bytes ≡ part ++ rest
    → length part ≡ to - from
    → subarray bytes from to ≡ part
unfolding subarray
subarray_part bytes part rest from to h k =
    ap (take (to - from)) h ∙ take-append_length (to - from) part rest k

pub starts_with-append : (part rest : List ℕ) → starts_with (part ++ rest) part ≡ true
unfolding starts_with
starts_with-append [] rest = refl
starts_with-append (b ∷ part) rest = rw (==_refl b) (starts_with-append part rest)

-- `starts_with` compares the first bytes, as many as the target has.
pub starts_with_iff :
    (bytes target : List ℕ)
    → (starts_with bytes target ≡ true) ↔ (take (length target) bytes ≡ target)
unfolding starts_with
starts_with_iff bytes [] = (λ _. refl, λ _. refl)
starts_with_iff [] (t ∷ target) = (λ h. cc, λ h. cc)
starts_with_iff (b ∷ bytes) (t ∷ target) = (
  λ h. ground (arith, (starts_with_iff bytes target).0),
  λ h. ground (arith, (starts_with_iff bytes target).1),
)

-- `sliceEquals` says whether the bytes at the offset, as many as the target has, are the target.
pub slice_equals_iff :
    (bytes target : List ℕ) (offset : ℕ)
    → offset + length target ≤ length bytes
    → (slice_equals bytes target offset ≡ true)
      ↔ (take (length target) (drop offset bytes) ≡ target)
unfolding slice_equals
slice_equals_iff bytes target offset room =
    rw (not-ltb_of_le (length bytes) (offset + length target) room)
      (starts_with_iff (drop offset bytes) target)

-- It refuses a target that reaches past the end.
pub slice_equals_short :
    (bytes target : List ℕ) (offset : ℕ)
    → length bytes < offset + length target
    → slice_equals bytes target offset ≡ false
unfolding slice_equals
slice_equals_short bytes target offset h = rw (lt→ltb _ _ h)

pub slice_equals_prefix : (part rest : List ℕ) → slice_equals (part ++ rest) part 0 ≡ true
unfolding slice_equals
slice_equals_prefix part rest =
    rw
      (not-ltb_of_le (length (part ++ rest)) (0 + length part)
        (omega (arith, length-append part rest)))
      (starts_with-append part rest)

pub slice_equals_self : (part : List ℕ) → slice_equals part part 0 ≡ true
slice_equals_self part =
    subst (λ t. slice_equals t part 0 ≡ true) (append-nil part) (slice_equals_prefix part [])

-- A read succeeds exactly when its bytes are there.
pub checked_data_view_total :
    (bytes : List ℕ) (offset width : ℕ)
    → offset + width ≤ length bytes
    → checked_data_view bytes offset width ≡ ok (take width (drop offset bytes))
unfolding checked_data_view
checked_data_view_total bytes offset width h = rw (not-ltb_of_le (length bytes) (offset + width) h)
