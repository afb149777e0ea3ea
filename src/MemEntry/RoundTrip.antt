-- ===== src/MemEntry/RoundTrip.antt =====
-- An entry survives EncodeMemEntry and DecodeMemEntry of utils/dbformat.cpp.
use yangkv_v.Base.{
  zero, suc, ◌∷◌, le→not_ltb, drop_front, length-take, ℕ, ◌+◌, ◌-◌, ◌*◌, ◌/◌, ◌%◌, ◌^◌, ◌≤◌, ◌<◌,
  Bool, true, false, not, List, [], ◌++◌, length, take, drop, ltb, ◌==◌, ◌≡◌, refl, ap, arith,
  length-append, append_assoc,
}
use yangkv_v.Coding.RoundTrip.{get_varint32_ptr-encode_varint32}
use yangkv_v.Coding.Encode.{encode_varint32_shape}
use yangkv_v.Coding.{IsU64, encode_fixed64, encode_varint32}
use yangkv_v.Base.Bits.{bit_and_byte}
use yangkv_v.Base.Outcome.{done, fault}
use yangkv_v.Slice.{Slice}
use yangkv_v.Coding.Fixed.{decode_fixed64-encode_fixed64, encode_fixed64_shape}
use yangkv_v.MemEntry.{MemEntry, flag, encode_mem_entry, decode_mem_entry}
use yangkv_v.MemEntry.Storable.{
  IsStorable, code, encode_mem_entry-code, flag-le-one, info_of, shown, value_code,
}
use native.Mathlib.Numerals.{add-one}

-- DecodeMemEntry on the parts of an encoding.
decode_parts :
    (k v rest : List ℕ) (n info : ℕ)
    → 1 ≤ length k
    → length k + 8 < 2 ^ 32
    → 1 ≤ length v
    → length v < 2 ^ 32
    → IsU64 info
    → decode_mem_entry (record {
      ptr =
          encode_varint32 (length k + 8)
          ++ (k ++ (encode_fixed64 info ++ (encode_varint32 (length v) ++ (v ++ rest))));
      size = n;
    })
      ≡ done (record {
        key = record {
          ptr = k ++ (encode_fixed64 info ++ (encode_varint32 (length v) ++ (v ++ rest)));
          size = length k - 1;
        };
        value = record { ptr = v ++ rest; size = length v - 1 };
        seq_num = info / 256;
        value_type = not (info % 256 == 0);
      })
unfolding decode_mem_entry
decode_parts k v rest n info k₁ k₂ v₁ v₂ hi =
    let head = encode_varint32 (length k + 8) in
    let tail = encode_varint32 (length v) ++ (v ++ rest) in
    let (lo, hi_len, _) = encode_varint32_shape (length k + 8) k₂ in
    let (_, hi_len', _) = encode_varint32_shape (length v) v₂ in
    let read_key =
      get_varint32_ptr-encode_varint32 (length k + 8) 5 (5 - length head)
        (k ++ (encode_fixed64 info ++ tail)) k₂ (omega arith) in
    let read_value =
      get_varint32_ptr-encode_varint32 (length v) 5 (5 - length (encode_varint32 (length v)))
        (v ++ rest) v₂ (omega arith) in
    let at_info : drop (5 - (5 - length head) + (length k + 8) - 8)
          (head ++ (k ++ (encode_fixed64 info ++ tail)))
        ≡ encode_fixed64 info ++ tail =
      rw (← append_assoc head k (encode_fixed64 info ++ tail)) (
        drop_front _ (head ++ k) (encode_fixed64 info ++ tail)
          (omega (arith, length-append head k))) in
    let at_value : drop (length k + 8) (k ++ (encode_fixed64 info ++ tail)) ≡ tail =
      rw (← append_assoc k (encode_fixed64 info) tail) (
        drop_front _ (k ++ encode_fixed64 info) tail
          (omega (arith, length-append k (encode_fixed64 info), encode_fixed64_shape info))) in
    let in_front : ltb (5 - (5 - length head) + (length k + 8)) 8 ≡ false =
      le→not_ltb _ 8 (omega arith) in
    let key_size : (length k + 8 + 2 ^ 32 - 9) % 2 ^ 32 ≡ length k - 1 = omega arith in
    let value_size : (length v + 2 ^ 32 - 1) % 2 ^ 32 ≡ length v - 1 = omega arith in
    rw (
      read_key,
      in_front,
      at_info,
      decode_fixed64-encode_fixed64 info tail hi,
      at_value,
      read_value,
      bit_and_byte info,
      key_size,
      value_size,
    )

-- The entry that is read back from an encoding with `rest` behind it.
abbrev pub reread : MemEntry → List ℕ → MemEntry
reread e rest = record {
  key = record {
    ptr = take (e.key.size + 1) e.key.ptr ++ (encode_fixed64 (info_of e) ++ (value_code e ++ rest));
    size = e.key.size;
  };
  value = record { ptr = take (e.value.size + 1) e.value.ptr ++ rest; size = e.value.size };
  seq_num = e.seq_num;
  value_type = e.value_type;
}

flag_back : (s : ℕ) (b : Bool) → not ((s * 256 + flag b) % 256 == 0) ≡ b
flag_back s true = let e : (s * 256 + 1) % 256 ≡ 1 = omega arith in rw e
flag_back s false = let e : (s * 256 + 0) % 256 ≡ 0 = omega arith in rw e

-- DecodeMemEntry on an encoding, whatever stands behind it and whatever the slice's size is.
pub decode_mem_entry-code :
    (e : MemEntry) (rest : List ℕ) (n : ℕ)
    → IsStorable e
    → decode_mem_entry (record { ptr = code e ++ rest; size = n }) ≡ done (reread e rest)
decode_mem_entry-code e rest n h =
    let k = take (e.key.size + 1) e.key.ptr in
    let v = take (e.value.size + 1) e.value.ptr in
    let k_len : length k ≡ e.key.size + 1 =
      omega (arith, length-take (e.key.size + 1) e.key.ptr, h.key_room) in
    let v_len : length v ≡ e.value.size + 1 =
      omega (arith, length-take (e.value.size + 1) e.value.ptr, h.value_room) in
    let k₈ : length k + 8 ≡ e.key.size + 9 = omega arith in
    let k₁ : length k - 1 ≡ e.key.size = omega arith in
    let v₁ : length v - 1 ≡ e.value.size = omega arith in
    let seq : info_of e / 256 ≡ e.seq_num = omega (arith, flag-le-one e.value_type) in
    let parts =
      decode_parts k v rest n (info_of e) (omega arith) (omega arith) (omega arith) (omega arith)
        (omega (arith, flag-le-one e.value_type)) in
    rw
      (
        append_assoc (encode_varint32 (e.key.size + 9))
            (k ++ (encode_fixed64 (info_of e) ++ value_code e)) rest,
        append_assoc k (encode_fixed64 (info_of e) ++ value_code e) rest,
        append_assoc (encode_fixed64 (info_of e)) (value_code e) rest,
        append_assoc (encode_varint32 (e.value.size + 1)) v rest,
      )
      (rw (k₈, k₁, v₁, v_len, seq, flag_back e.seq_num e.value_type) at parts)

view_front : (n : ℕ) (p rest : List ℕ) → n < length p → take n (take (suc n) p ++ rest) ≡ take n p
view_front zero p rest h = refl
view_front (suc n) [] rest h = absurd (omega arith)
view_front (suc n) (x ∷ p) rest h = ap (λ (l : List ℕ). x ∷ l) (view_front n p rest (omega arith))

pub view_behind :
    (n : ℕ) (p rest : List ℕ) → n < length p → take n (take (n + 1) p ++ rest) ≡ take n p
view_behind n p rest h = rw (add-one n) (view_front n p rest h)

pub reread-shown : (e : MemEntry) (rest : List ℕ) → IsStorable e → shown (reread e rest) ≡ shown e
reread-shown e rest h =
    let k =
      view_behind e.key.size e.key.ptr (encode_fixed64 (info_of e) ++ (value_code e ++ rest))
        h.key_room in
    let v = view_behind e.value.size e.value.ptr rest h.value_room in
    λ i. (k i, v i, e.seq_num, e.value_type)

pub reread-IsStorable : (e : MemEntry) (rest : List ℕ) → IsStorable e → IsStorable (reread e rest)
reread-IsStorable e rest h = omega (
  arith,
  h.key_room,
  h.value_room,
  h.key_fits,
  h.value_fits,
  h.seq_fits,
  length-take (e.key.size + 1) e.key.ptr,
  length-take (e.value.size + 1) e.value.ptr,
  length-append (take (e.key.size + 1) e.key.ptr)
      (encode_fixed64 (info_of e) ++ (value_code e ++ rest)),
  length-append (take (e.value.size + 1) e.value.ptr) rest,
)

-- A storable entry is encoded, and the bytes, with anything behind them, are decoded to an entry
-- with the same key, value, number and deletion mark, which is storable again.
pub mem_entry_round_trip :
    (e : MemEntry) (rest : List ℕ)
    → IsStorable e
    → (s : Slice) × (e' : MemEntry) × (encode_mem_entry e ≡ done s)
      × (decode_mem_entry (record { ptr = s.ptr ++ rest; size = s.size }) ≡ done e')
      × (shown e' ≡ shown e)
      × IsStorable e'
mem_entry_round_trip e rest h = (
  record { ptr = code e; size = length (code e) },
  reread e rest,
  encode_mem_entry-code e h,
  decode_mem_entry-code e rest (length (code e)) h,
  reread-shown e rest h,
  reread-IsStorable e rest h,
)

-- EncodeMemEntry reads outside the object of a key slice that ends where its object ends.
pub encode_mem_entry_overread :
    (e : MemEntry)
    → e.key.size ≡ length e.key.ptr
    → e.key.size + 1 < 2 ^ 64
    → encode_mem_entry e ≡ fault
unfolding encode_mem_entry
encode_mem_entry_overread e h fits = ground arith
