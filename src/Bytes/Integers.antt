-- ===== src/Bytes/Integers.antt =====
-- Fixed-width integers in little-endian bytes: writing and reading them back.
use vela_sdk.Prelude.{
  ℕ, zero, suc, ◌*◌, ◌/◌, ◌^◌, ◌<◌, ◌≡◌, refl, ap, ◌∙◌, ℤ, pos, negsuc, ◌≤ℤ◌, ◌<ℤ◌, arith, length,
}
use vela_sdk.Bytes.{u64_mod, of_le_bytes, le_bytes, as_int64, as_uint64, u64_le, i64_le}
use native.Mathlib.Nat.{pow-suc}

-- The values that a `u64` and an `i64` field can hold.
abbrev pub IsU64 : ℤ → Type 0
IsU64 v = (pos 0 ≤ℤ v) × (v <ℤ pos u64_mod)

abbrev pub IsI64 : ℤ → Type 0
IsI64 v = (negsuc (2 ^ 63) <ℤ v) × (v <ℤ pos (2 ^ 63))

pub length-le_bytes : (width n : ℕ) → length (le_bytes width n) ≡ width
unfolding le_bytes
length-le_bytes zero n = refl
length-le_bytes (suc width) n = ap suc (length-le_bytes width _)

-- The low bytes of a number that fits give the number back.
pub of_le_bytes-le_bytes : (width n : ℕ) → n < 256 ^ width → of_le_bytes (le_bytes width n) ≡ n
unfolding of_le_bytes le_bytes
of_le_bytes-le_bytes zero n h = omega arith
of_le_bytes-le_bytes (suc width) n h =
    let fits : n < 256 ^ width * 256 = subst_pow in
    omega (arith, of_le_bytes-le_bytes width (n / 256) (omega arith))
  where
    subst_pow : n < 256 ^ width * 256
    subst_pow = omega (arith, pow-suc 256 width)

as_uint64-lt : (v : ℤ) → as_uint64 v < u64_mod
unfolding as_uint64
as_uint64-lt (pos n) = omega arith
as_uint64-lt (negsuc n) = omega arith

as_uint64_of_IsU64 : (v : ℤ) → IsU64 v → pos (as_uint64 v) ≡ v
unfolding as_uint64
as_uint64_of_IsU64 (pos n) h = ap pos (omega arith)
as_uint64_of_IsU64 (negsuc n) h = absurd (omega arith)

as_int64-as_uint64 : (v : ℤ) → IsI64 v → as_int64 (as_uint64 v) ≡ v
unfolding as_int64 as_uint64
as_int64-as_uint64 (pos n) h = ground arith
as_int64-as_uint64 (negsuc n) h = ground arith

pub length-u64_le : (v : ℤ) → length (u64_le v) ≡ 8
unfolding u64_le
length-u64_le v = refl

pub length-i64_le : (v : ℤ) → length (i64_le v) ≡ 8
unfolding i64_le
length-i64_le v = refl

pub of_le_bytes-u64_le : (v : ℤ) → IsU64 v → pos (of_le_bytes (u64_le v)) ≡ v
unfolding u64_le
of_le_bytes-u64_le v h =
    ap pos (of_le_bytes-le_bytes 8 (as_uint64 v) (as_uint64-lt v)) ∙ as_uint64_of_IsU64 v h

pub of_le_bytes-i64_le : (v : ℤ) → IsI64 v → as_int64 (of_le_bytes (i64_le v)) ≡ v
unfolding i64_le
of_le_bytes-i64_le v h =
    ap as_int64 (of_le_bytes-le_bytes 8 (as_uint64 v) (as_uint64-lt v)) ∙ as_int64-as_uint64 v h
