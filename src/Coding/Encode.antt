-- ===== src/Coding/Encode.antt =====
-- What the varint writers of utils/dbformat.cpp write: the digits of the number to the base 128,
-- lowest first, each but the last with the top bit set.
use yangkv_v.Base.{
  ℕ, zero, suc, ◌+◌, ◌/◌, ◌%◌, ◌^◌, ◌≤◌, ◌<◌, ◌≡◌, ap, ◌∙◌, List, [], ◌∷◌, length, ltb,
  if◌then◌else◌, All, arith, bit_and, bit_or, lt_wf,
}
use yangkv_v.Base.Bits.{bit_or_top, bit_and_low}
use yangkv_v.Coding.{
  IsByte, IsU32, IsU64, encode_varint32, encode_varint64_loop, encode_varint64, varint_length_loop,
  varint_length,
}
use mathlib.Core.WellFounded.{Acc}

-- The digits of `v`, for `v` below 128 ^ (k + 1).
unfoldable pub base128 : ℕ → ℕ → List ℕ
base128 zero v = v ∷ []
base128 (suc k) v =
    let rest = base128 k (v / 128) in if ltb v 128 then v ∷ [] else (v % 128 + 128) ∷ rest

-- The five branches of EncodeVarint32 write the base-128 digits of a 32-bit number, each but the
-- last with its top bit set.
pub encode_varint32-base128 : (v : ℕ) → IsU32 v → encode_varint32 v ≡ base128 4 v
unfolding encode_varint32 base128
encode_varint32-base128 v h =
    ground (
      arith,
      bit_or_top v,
      bit_or_top (v / 2 ^ 7),
      bit_or_top (v / 2 ^ 14),
      bit_or_top (v / 2 ^ 21),
    )

inner : (v : ℕ) → bit_or (bit_and v 127) 128 % 256 ≡ v % 128 + 128
inner v = omega (arith, bit_and_low v, bit_or_top (bit_and v 127))

encode_varint64_loop-base128 :
    (k v : ℕ) (w : Acc ◌<◌ v) → v < 128 ^ suc k → encode_varint64_loop v w ≡ base128 k v
unfolding encode_varint64_loop base128
encode_varint64_loop-base128 zero v (Acc.intro _ smaller) h = ground arith
encode_varint64_loop-base128 (suc k) v (Acc.intro _ smaller) h = grind (
  arith,
  inner v,
  λ (w : Acc ◌<◌ (v / 128)). encode_varint64_loop-base128 k (v / 128) w (omega arith),
)

-- The loop of EncodeVarint64 writes the base-128 digits of a 64-bit number, each but the last with
-- its top bit set.
pub encode_varint64-base128 : (v : ℕ) → IsU64 v → encode_varint64 v ≡ base128 9 v
unfolding encode_varint64
encode_varint64-base128 v h = encode_varint64_loop-base128 9 v (lt_wf.apply v) (omega arith)

varint_length_loop-base128 :
    (k v len : ℕ) (w : Acc ◌<◌ v)
    → v < 128 ^ suc k
    → varint_length_loop v (len + 1) w ≡ len + length (base128 k v)
unfolding varint_length_loop base128
varint_length_loop-base128 zero v len (Acc.intro _ smaller) h = ground arith
varint_length_loop-base128 (suc k) v len (Acc.intro _ smaller) h = grind (
  arith,
  λ (w : Acc ◌<◌ (v / 128)). varint_length_loop-base128 k (v / 128) (len + 1) w (omega arith),
)

-- VarintLength is the number of bytes that EncodeVarint64 writes of a 64-bit number.
pub varint_length-encode_varint64 : (v : ℕ) → IsU64 v → varint_length v ≡ length (encode_varint64 v)
unfolding varint_length
varint_length-encode_varint64 v h =
    varint_length_loop-base128 9 v 0 (lt_wf.apply v) (omega arith)
    ∙ omega (arith, ap (length {A = ℕ}) (encode_varint64-base128 v h))

base128_more : (k v : ℕ) → v < 128 ^ suc k → base128 (suc k) v ≡ base128 k v
unfolding base128
base128_more zero v h = ground arith
base128_more (suc k) v h = ground (arith, base128_more k (v / 128) (omega arith))

base128-from_4 : (v : ℕ) → IsU32 v → base128 9 v ≡ base128 4 v
base128-from_4 v h =
    base128_more 8 v (omega arith)
    ∙ base128_more 7 v (omega arith)
    ∙ base128_more 6 v (omega arith)
    ∙ base128_more 5 v (omega arith)
    ∙ base128_more 4 v (omega arith)

-- On a 32-bit number the two writers agree, and VarintLength is the length that both write.
pub varint_length-encode_varint32 : (v : ℕ) → IsU32 v → varint_length v ≡ length (encode_varint32 v)
varint_length-encode_varint32 v h = omega (
  arith,
  varint_length-encode_varint64 v (omega arith),
  ap (length {A = ℕ}) (encode_varint64-base128 v (omega arith)),
  ap (length {A = ℕ}) (base128-from_4 v h),
  ap (length {A = ℕ}) (encode_varint32-base128 v h),
)

pub base128-IsByte : (k v : ℕ) → v < 128 ^ suc k → All IsByte (base128 k v)
unfolding base128
base128-IsByte zero v h = omega arith
base128-IsByte (suc k) v h = ground (arith, base128-IsByte k (v / 128) (omega arith))

pub length-base128 : (k v : ℕ) → (1 ≤ length (base128 k v)) × (length (base128 k v) ≤ k + 1)
unfolding base128
length-base128 zero v = omega arith
length-base128 (suc k) v = ground (arith, length-base128 k (v / 128))

-- EncodeVarint32 writes 1 to 5 bytes.
pub encode_varint32_shape :
    (v : ℕ)
    → IsU32 v
    → (1 ≤ length (encode_varint32 v))
      × (length (encode_varint32 v) ≤ 5)
      × All IsByte (encode_varint32 v)
encode_varint32_shape v h =
    rw (encode_varint32-base128 v h)
      ((length-base128 4 v).0, (length-base128 4 v).1, base128-IsByte 4 v (omega arith))

-- EncodeVarint64 writes 1 to 10 bytes.
pub encode_varint64_shape :
    (v : ℕ)
    → IsU64 v
    → (1 ≤ length (encode_varint64 v))
      × (length (encode_varint64 v) ≤ 10)
      × All IsByte (encode_varint64 v)
encode_varint64_shape v h =
    rw (encode_varint64-base128 v h)
      ((length-base128 9 v).0, (length-base128 9 v).1, base128-IsByte 9 v (omega arith))
