-- ===== src/MemEntry.antt =====
-- utils/dbformat.h and utils/dbformat.cpp: an entry of the store, and the one run of bytes that the
-- logs and the lists keep of it.
pub mod Storable
pub mod RoundTrip
use yangkv_v.Base.{
  ℕ, ◌+◌, ◌-◌, ◌*◌, ◌/◌, ◌%◌, ◌^◌, bit_and, bit_or, Bool, true, false, not, List, ◌++◌, length,
  drop, ltb, ◌==◌, if◌then◌else◌,
}
use yangkv_v.Base.Outcome.{Outcome, done, refused, fault, ◌>>=◌}
use yangkv_v.Slice.{Slice, copy, of_string}
use yangkv_v.Coding.{
  Read, encode_fixed64, decode_fixed64, encode_varint32, varint_length, get_varint32_ptr,
}

pub record MemEntry : Type 0 where
  pub key : Slice
  pub value : Slice
  pub seq_num : ℕ
  -- `true` marks a deletion.
  pub value_type : Bool

-- MemEntry(key_, value_, seq, type): the slices are views of the caller's strings.
abbrev pub of_strings : List ℕ → List ℕ → ℕ → Bool → MemEntry
of_strings k v seq type = record {
  key = of_string k;
  value = of_string v;
  seq_num = seq;
  value_type = type;
}

abbrev flag : Bool → ℕ
flag true = 1
flag false = 0

-- A null pointer that is read through.
abbrev deref : Outcome Read → Outcome Read
deref refused = fault
deref r = r

-- EncodeMemEntry. Both sizes count the byte behind the slice, which is copied with it. The buffer
-- has `encoded_len` bytes; `fault` is a write past it, or the assertion at the end.
unfoldable pub encode_mem_entry : MemEntry → Outcome Slice
unfolding copy
encode_mem_entry entry = do
  let key_size = (entry.key.size + 1) % 2 ^ 64
  let val_size = (entry.value.size + 1) % 2 ^ 64
  let internal_key_size = (key_size + 8) % 2 ^ 64
  let encoded_len =
      (varint_length internal_key_size + internal_key_size + varint_length val_size + val_size)
      % 2 ^ 64
  key ← copy entry.key.ptr key_size
  value ← copy entry.value.ptr val_size
  let buf =
      encode_varint32 (internal_key_size % 2 ^ 32)
      ++ (key
          ++ (encode_fixed64 (bit_or (entry.seq_num * 2 ^ 8 % 2 ^ 64) (flag entry.value_type))
              ++ (encode_varint32 (val_size % 2 ^ 32) ++ value)))
  if length buf == encoded_len then done (record { ptr = buf; size = encoded_len }) else fault

-- DecodeMemEntry. No size is looked at: the lengths in the bytes decide, and each varint is read
-- under a limit of five bytes. `taken` is `key_ptr - ptr`; the model has no bytes in front of the
-- slice, so a pointer there is a fault. The lengths are 32-bit words, and so are `klength - 9` and
-- `vlength - 1`.
unfoldable pub decode_mem_entry : Slice → Outcome MemEntry
decode_mem_entry s = do
  (klength, key_ptr, left) ← deref (get_varint32_ptr s.ptr 5)
  let taken = 5 - left
  info ←
      (if ltb (taken + klength) 8 then fault else decode_fixed64 (drop (taken + klength - 8) s.ptr))
  (vlength, vptr, _) ← deref (get_varint32_ptr (drop klength key_ptr) 5)
  done (record {
    key = record { ptr = key_ptr; size = (klength + 2 ^ 32 - 9) % 2 ^ 32 };
    value = record { ptr = vptr; size = (vlength + 2 ^ 32 - 1) % 2 ^ 32 };
    seq_num = info / 2 ^ 8;
    value_type = not (bit_and info 255 == 0);
  })
