-- ===== src/Format.antt =====
-- table/format.h and table/format.cpp: where a block stands in a table file, and the footer of a table.
pub mod Read
pub mod RoundTrip
use yangkv_v.Base.{
  ℕ, ◌+◌, ◌-◌, ◌*◌, ◌/◌, ◌%◌, ◌^◌, List, ◌++◌, length, take, drop, replicate, ◌==◌, if◌then◌else◌,
}
use yangkv_v.Base.Outcome.{Outcome, done, refused, fault, ◌>>=◌}
use yangkv_v.Slice.{Slice}
use yangkv_v.Coding.{put_varint64, get_varint64, put_fixed32, decode_fixed32}
use Prim.Native.Nat.{bit_or}

pub record BlockHandle : Type 0 where
  pub offset : ℕ
  pub size : ℕ

-- BlockHandle(): all bits set in both.
abbrev pub new_handle : BlockHandle
new_handle = record { offset = 2 ^ 64 - 1; size = 2 ^ 64 - 1 }

-- BlockHandle::EncodeTo, with its two assertions.
unfoldable pub encode_handle : List ℕ → BlockHandle → Outcome (List ℕ)
encode_handle dst h =
    if h.offset == 2 ^ 64 - 1
    then fault
    else if h.size == 2 ^ 64 - 1
    then fault
    else done (put_varint64 (put_varint64 dst h.offset) h.size)

-- BlockHandle::DecodeFrom: the handle, and the input that is left; `refused` is the status Error.
unfoldable pub decode_handle : Slice → Outcome (BlockHandle × Slice)
decode_handle input = do
  (offset, input₁) ← get_varint64 input
  (size, input₂) ← get_varint64 input₁
  done (record { offset = offset; size = size }, input₂)

pub record Footer : Type 0 where
  pub metaindex_handle : BlockHandle
  pub index_handle : BlockHandle

abbrev pub k_max_encoded_length : ℕ
k_max_encoded_length = 20

abbrev pub k_encoded_length : ℕ
k_encoded_length = 2 * k_max_encoded_length + 8

abbrev pub k_table_magic_number : ℕ
k_table_magic_number = 0xdb4775248b80fb57

-- std::string::resize
unfoldable pub resize : ℕ → List ℕ → List ℕ
resize n l = take n l ++ replicate (n - length l) 0

-- Footer::EncodeTo: the padding cuts or fills all of `dst`, what stood in it before included.
unfoldable pub encode_footer : List ℕ → Footer → Outcome (List ℕ)
unfolding resize
encode_footer dst f = do
  dst₁ ← encode_handle dst f.metaindex_handle
  dst₂ ← encode_handle dst₁ f.index_handle
  let dst₃ =
      put_fixed32
        (put_fixed32 (resize (2 * k_max_encoded_length) dst₂) (k_table_magic_number % 2 ^ 32))
        (k_table_magic_number / 2 ^ 32)
  if length dst₃ == length dst + k_encoded_length then done dst₃ else fault

abbrev decode_handles : Slice → Outcome (Footer × Slice)
decode_handles input = do
  (metaindex, input₁) ← decode_handle input
  (index, _) ← decode_handle input₁
  done (
    record { metaindex_handle = metaindex; index_handle = index },
    record {
      ptr = drop k_encoded_length input.ptr;
      size = (input.size + 2 ^ 64 - k_encoded_length) % 2 ^ 64;
    },
  )

-- Footer::DecodeFrom: the magic number is read at its place whatever the size of the input is; the
-- decoders move both ends of the input together, so the end of the input is where it was.
unfoldable pub decode_footer : Slice → Outcome (Footer × Slice)
decode_footer input = do
  magic_lo ← decode_fixed32 (drop (k_encoded_length - 8) input.ptr)
  magic_hi ← decode_fixed32 (drop (k_encoded_length - 8 + 4) input.ptr)
  let magic = bit_or (magic_hi * 2 ^ 32) magic_lo
  if magic == k_table_magic_number then decode_handles input else refused
