-- ===== src/Coding/Fixed.antt =====
-- The fixed-width numbers of utils/dbformat: what is put is read back, in four or eight bytes.
use yangkv_v.Base.{ℕ, ◌≡◌, ap, List, ◌++◌, length, All, arith}
use yangkv_v.Base.Outcome.{done}
use yangkv_v.Coding.{
  IsByte, IsU32, IsU64, encode_fixed32, encode_fixed64, decode_fixed32, decode_fixed64,
}

-- DecodeFixed32 reads back the 32-bit word that EncodeFixed32 stored, whatever follows it.
pub decode_fixed32-encode_fixed32 :
    (v : ℕ) (rest : List ℕ) → IsU32 v → decode_fixed32 (encode_fixed32 v ++ rest) ≡ done v
unfolding decode_fixed32 encode_fixed32
decode_fixed32-encode_fixed32 v rest h = ap done (omega arith)

-- DecodeFixed64 reads back the 64-bit word that EncodeFixed64 stored, whatever follows it.
pub decode_fixed64-encode_fixed64 :
    (v : ℕ) (rest : List ℕ) → IsU64 v → decode_fixed64 (encode_fixed64 v ++ rest) ≡ done v
unfolding decode_fixed64 encode_fixed64
decode_fixed64-encode_fixed64 v rest h = ap done (omega arith)

pub encode_fixed32_shape : (v : ℕ) → (length (encode_fixed32 v) ≡ 4) × All IsByte (encode_fixed32 v)
unfolding encode_fixed32
encode_fixed32_shape v = omega arith

pub encode_fixed64_shape : (v : ℕ) → (length (encode_fixed64 v) ≡ 8) × All IsByte (encode_fixed64 v)
unfolding encode_fixed64
encode_fixed64_shape v = omega arith
