-- ===== src/MemEntry/Storable.antt =====
-- What an entry says, when it can be stored, and the bytes that EncodeMemEntry of
-- utils/dbformat.cpp makes of it.
use yangkv_v.Base.{
  length-take, ==_refl, le→leb, ℕ, ◌+◌, ◌*◌, ◌%◌, ◌^◌, ◌≤◌, ◌<◌, bit_or, Bool, true, false, List,
  ◌++◌, length, take, ◌≡◌, arith, length-append,
}
use yangkv_v.Coding.Encode.{encode_varint32_shape, varint_length-encode_varint32}
use yangkv_v.Coding.{encode_fixed64, encode_varint32, varint_length}
use yangkv_v.Base.Bits.{bit_or_flag}
use yangkv_v.Base.Outcome.{done}
use yangkv_v.Slice.{Slice}
use yangkv_v.Coding.Fixed.{encode_fixed64_shape}
use yangkv_v.MemEntry.{MemEntry, flag, encode_mem_entry}

-- The bytes that a slice shows, and what an entry says.
abbrev pub view : Slice → List ℕ
view s = take s.size s.ptr

abbrev pub shown : MemEntry → List ℕ × List ℕ × ℕ × Bool
shown e = (view e.key, view e.value, e.seq_num, e.value_type)

-- A byte may be read behind each slice, as behind the characters of a string; the lengths fit 32
-- bits and the sequence number 56.
pub record IsStorable (e : MemEntry) : Type 0 where
  pub key_room : e.key.size < length e.key.ptr
  pub value_room : e.value.size < length e.value.ptr
  pub key_fits : e.key.size + 9 < 2 ^ 32
  pub value_fits : e.value.size + 1 < 2 ^ 32
  pub seq_fits : e.seq_num < 2 ^ 56

abbrev pub info_of : MemEntry → ℕ
info_of e = e.seq_num * 256 + flag e.value_type

-- The value's part of an encoding, and the whole of it.
abbrev pub value_code : MemEntry → List ℕ
value_code e = encode_varint32 (e.value.size + 1) ++ take (e.value.size + 1) e.value.ptr

abbrev pub code : MemEntry → List ℕ
code e =
    encode_varint32 (e.key.size + 9)
    ++ (take (e.key.size + 1) e.key.ptr ++ (encode_fixed64 (info_of e) ++ value_code e))

pub flag-le-one : (b : Bool) → flag b ≤ 1
flag-le-one true = omega arith
flag-le-one false = omega arith

info_word :
    (e : MemEntry)
    → IsStorable e
    → bit_or (e.seq_num * 2 ^ 8 % 2 ^ 64) (flag e.value_type) ≡ info_of e
info_word e h =
    let fits : e.seq_num * 2 ^ 8 % 2 ^ 64 ≡ e.seq_num * 2 ^ 8 = omega (arith, h.seq_fits) in
    rw fits (bit_or_flag e.seq_num (flag e.value_type) (flag-le-one e.value_type))

encoded_size :
    (e : MemEntry)
    → IsStorable e
    → (varint_length (e.key.size + 9)
          + (e.key.size + 9)
          + varint_length (e.value.size + 1)
          + (e.value.size + 1))
        % 2 ^ 64
      ≡ length (code e)
encoded_size e h = omega (
  arith,
  varint_length-encode_varint32 (e.key.size + 9) h.key_fits,
  varint_length-encode_varint32 (e.value.size + 1) h.value_fits,
  encode_varint32_shape (e.key.size + 9) h.key_fits,
  encode_varint32_shape (e.value.size + 1) h.value_fits,
  length-append (encode_varint32 (e.key.size + 9))
      (take (e.key.size + 1) e.key.ptr ++ (encode_fixed64 (info_of e) ++ value_code e)),
  length-append (take (e.key.size + 1) e.key.ptr) (encode_fixed64 (info_of e) ++ value_code e),
  length-append (encode_fixed64 (info_of e)) (value_code e),
  length-append (encode_varint32 (e.value.size + 1)) (take (e.value.size + 1) e.value.ptr),
  encode_fixed64_shape (info_of e),
  length-take (e.key.size + 1) e.key.ptr,
  length-take (e.value.size + 1) e.value.ptr,
)

pub encode_mem_entry-code :
    (e : MemEntry)
    → IsStorable e
    → encode_mem_entry e ≡ done (record { ptr = code e; size = length (code e) })
unfolding encode_mem_entry
encode_mem_entry-code e h =
    let k₁ : (e.key.size + 1) % 2 ^ 64 ≡ e.key.size + 1 = omega arith in
    let k₂ : (e.key.size + 1 + 8) % 2 ^ 64 ≡ e.key.size + 9 = omega arith in
    let k₃ : (e.key.size + 9) % 2 ^ 32 ≡ e.key.size + 9 = omega arith in
    let v₁ : (e.value.size + 1) % 2 ^ 64 ≡ e.value.size + 1 = omega arith in
    let v₂ : (e.value.size + 1) % 2 ^ 32 ≡ e.value.size + 1 = omega arith in
    rw (
      k₁,
      k₂,
      k₃,
      v₁,
      v₂,
      le→leb (e.key.size + 1) (length e.key.ptr) (omega arith),
      le→leb (e.value.size + 1) (length e.value.ptr) (omega arith),
      info_word e h,
      encoded_size e h,
      ==_refl (length (code e)),
    )
