-- ===== src/Coding.antt =====
-- utils/dbformat.h and utils/dbformat.cpp: numbers as bytes, at a fixed width and as varints.
-- A pointer is the bytes that may be read from it on, and a limit the number of bytes before it.
pub mod Fixed
pub mod Encode
pub mod RoundTrip
pub mod Bounds
use yangkv_v.Base.{
  ℕ, ◌+◌, ◌-◌, ◌*◌, ◌/◌, ◌%◌, ◌^◌, ◌≤◌, ◌<◌, bit_and, bit_or, ◌&&◌, List, [], ◌∷◌, ◌++◌, ltb, leb,
  ◌==◌, if◌then◌else◌, length, drop, arith, lt_wf,
}
use yangkv_v.Base.Outcome.{Outcome, done, refused, fault, ◌>>=◌}
use yangkv_v.Slice.{Slice, remove_prefix}
use mathlib.Core.Logic.{dite}
use mathlib.Core.WellFounded.{Acc}
use native.Mathlib.Decide.{dec_le}

abbrev pub IsByte : ℕ → Type 0
IsByte b = b < 256

abbrev pub IsU32 : ℕ → Type 0
IsU32 v = v < 2 ^ 32

abbrev pub IsU64 : ℕ → Type 0
IsU64 v = v < 2 ^ 64

-- `memcpy(buf, &value, sizeof(value))` on a machine that stores the lowest byte first, which the
-- branch that is switched off spells out.
unfoldable pub encode_fixed32 : ℕ → List ℕ
encode_fixed32 v = v % 256 ∷ v / 2 ^ 8 % 256 ∷ v / 2 ^ 16 % 256 ∷ v / 2 ^ 24 % 256 ∷ []

unfoldable pub encode_fixed64 : ℕ → List ℕ
unfolding encode_fixed32
encode_fixed64 v = encode_fixed32 (v % 2 ^ 32) ++ encode_fixed32 (v / 2 ^ 32)

unfoldable pub put_fixed32 : List ℕ → ℕ → List ℕ
put_fixed32 dst v = dst ++ encode_fixed32 v

unfoldable pub put_fixed64 : List ℕ → ℕ → List ℕ
put_fixed64 dst v = dst ++ encode_fixed64 v

unfoldable pub decode_fixed32 : List ℕ → Outcome ℕ
decode_fixed32 (a ∷ b ∷ c ∷ d ∷ _) = done (a + b * 2 ^ 8 + c * 2 ^ 16 + d * 2 ^ 24)
decode_fixed32 _ = fault

unfoldable pub decode_fixed64 : List ℕ → Outcome ℕ
unfolding decode_fixed32
decode_fixed64 p = do lo ← decode_fixed32 p; hi ← decode_fixed32 (drop 4 p); done (hi * 2 ^ 32 + lo)

-- What `*(ptr++) = v | B` stores in an unsigned char.
abbrev more_byte : ℕ → ℕ
more_byte v = bit_or v 128 % 256

unfoldable pub encode_varint32 : ℕ → List ℕ
encode_varint32 v =
    if ltb v (2 ^ 7)
    then v % 256 ∷ []
    else if ltb v (2 ^ 14)
    then more_byte v ∷ v / 2 ^ 7 % 256 ∷ []
    else if ltb v (2 ^ 21)
    then more_byte v ∷ more_byte (v / 2 ^ 7) ∷ v / 2 ^ 14 % 256 ∷ []
    else if ltb v (2 ^ 28)
    then more_byte v ∷ more_byte (v / 2 ^ 7) ∷ more_byte (v / 2 ^ 14) ∷ v / 2 ^ 21 % 256 ∷ []
    else more_byte v
      ∷ more_byte (v / 2 ^ 7)
      ∷ more_byte (v / 2 ^ 14)
      ∷ more_byte (v / 2 ^ 21)
      ∷ v / 2 ^ 28 % 256
      ∷ []

unfoldable pub put_varint32 : List ℕ → ℕ → List ℕ
put_varint32 dst v = dst ++ encode_varint32 v

pub shift_shrinks : (v : ℕ) → 128 ≤ v → v / 2 ^ 7 < v
shift_shrinks v h = omega arith

-- `while (v >= B) { *(ptr++) = (v & (B-1)) | B; v >>= 7; }`
encode_varint64_loop : (v : ℕ) → Acc ◌<◌ v → List ℕ
encode_varint64_loop v (Acc.intro _ smaller) =
    dite (dec_le 128 v)
      (λ h.
        bit_or (bit_and v 127) 128 % 256
        ∷ encode_varint64_loop (v / 2 ^ 7) (smaller _ (shift_shrinks v h)))
      (λ _. v % 256 ∷ [])

unfoldable pub encode_varint64 : ℕ → List ℕ
unfolding encode_varint64_loop lt_wf dec_le
encode_varint64 v = encode_varint64_loop v (lt_wf.apply v)

unfoldable pub put_varint64 : List ℕ → ℕ → List ℕ
put_varint64 dst v = dst ++ encode_varint64 v

varint_length_loop : (v len : ℕ) → Acc ◌<◌ v → ℕ
varint_length_loop v len (Acc.intro _ smaller) =
    dite (dec_le 128 v)
      (λ h. varint_length_loop (v / 2 ^ 7) (len + 1) (smaller _ (shift_shrinks v h))) (λ _. len)

unfoldable pub varint_length : ℕ → ℕ
unfolding varint_length_loop lt_wf dec_le
varint_length v = varint_length_loop v 1 (lt_wf.apply v)

-- A value that was read, the pointer behind it, and how many bytes stand before the limit there.
abbrev pub Read : Type 0
Read = ℕ × List ℕ × ℕ

-- The loop of GetVarint32PtrFallback and GetVarint64Ptr; `top` is the last shift, `width` the
-- number of bits of the result, which the shift and the `|=` wrap around.
module _ (top width : ℕ) where
  get_varint_loop : List ℕ → ℕ → ℕ → ℕ → Outcome Read
  get_varint_loop [] n shift result = if leb shift top && ltb 0 n then fault else refused
  get_varint_loop (byte ∷ p) n shift result =
      let more =
        get_varint_loop p (n - 1) (shift + 7)
          (bit_or result (bit_and byte 127 * 2 ^ shift % 2 ^ width)) in
      if leb shift top && ltb 0 n
      then (if bit_and byte 128 == 0
          then done (bit_or result (byte * 2 ^ shift % 2 ^ width), p, n - 1)
          else more)
      else refused

unfoldable pub get_varint32_ptr_fallback : List ℕ → ℕ → Outcome Read
unfolding get_varint_loop
get_varint32_ptr_fallback p n = get_varint_loop 28 32 p n 0 0

-- The test of one byte before the fallback; with no byte before the limit nothing is read.
unfoldable pub get_varint32_ptr : List ℕ → ℕ → Outcome Read
unfolding get_varint32_ptr_fallback
get_varint32_ptr [] n = if ltb 0 n then fault else get_varint32_ptr_fallback [] n
get_varint32_ptr (byte ∷ p) n =
    if ltb 0 n && bit_and byte 128 == 0
    then done (byte, p, n - 1)
    else get_varint32_ptr_fallback (byte ∷ p) n

unfoldable pub get_varint64_ptr : List ℕ → ℕ → Outcome Read
unfolding get_varint_loop
get_varint64_ptr p n = get_varint_loop 63 64 p n 0 0

-- `*input = Slice(q, limit - q)`
abbrev rest_of : Outcome Read → Outcome (ℕ × Slice)
rest_of r = do (v, q, n) ← r; done (v, record { ptr = q; size = n })

unfoldable pub get_varint32 : Slice → Outcome (ℕ × Slice)
unfolding get_varint32_ptr
get_varint32 input = rest_of (get_varint32_ptr input.ptr input.size)

unfoldable pub get_varint64 : Slice → Outcome (ℕ × Slice)
unfolding get_varint64_ptr
get_varint64 input = rest_of (get_varint64_ptr input.ptr input.size)

-- The size is a size_t, and the varint takes its lowest 32 bits. The slice that is appended is a
-- run of bytes here: each caller appends one that it has just built.
unfoldable pub put_length_prefixed_slice : List ℕ → List ℕ → List ℕ
unfolding put_varint32
put_length_prefixed_slice dst value = put_varint32 dst (length value % 2 ^ 32) ++ value

unfoldable pub get_length_prefixed_slice : Slice → Outcome (Slice × Slice)
unfolding get_varint32 remove_prefix
get_length_prefixed_slice input = do
  (len, input') ← get_varint32 input
  if leb len input'.size
      then (do
        rest ← remove_prefix input' len
        done (record { ptr = input'.ptr; size = len }, rest))
      else refused
