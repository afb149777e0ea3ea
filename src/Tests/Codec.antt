-- ===== src/Tests/Codec.antt =====
-- Runs of the codec of utils/dbformat.cpp on small inputs.
use yangkv_v.Base.{ℕ, ◌+◌, ◌≤◌, ◌<◌, ◌≡◌, ◌≢◌, List, [], ◌∷◌, ◌++◌, length, refl, arith, false}
use yangkv_v.Base.Outcome.{done, fault}
use yangkv_v.Slice.{Slice}
use yangkv_v.Coding.{encode_fixed64, encode_varint32, varint_length, get_varint64_ptr}
use yangkv_v.Coding.Bounds.{get_varint64_ptr_safe}
use yangkv_v.MemEntry.{MemEntry, of_strings, encode_mem_entry, decode_mem_entry}
use yangkv_v.MemEntry.RoundTrip.{mem_entry_round_trip}
use yangkv_v.MemEntry.Storable.{IsStorable, shown}

get_varint64_ptr_safe_example :
    (get_varint64_ptr (172 ∷ 2 ∷ []) 2 ≢ fault)
    × ((v : ℕ) (q : List ℕ) (m : ℕ)
        → get_varint64_ptr (172 ∷ 2 ∷ []) 2 ≡ done (v, q, m)
        → (m < 2) × (2 ≤ m + 10) × (length q + 2 ≡ 2 + m))
get_varint64_ptr_safe_example = get_varint64_ptr_safe (172 ∷ 2 ∷ []) 2 (omega arith)

-- The key "k" with the value "v", written with number 5.
abbrev entry : MemEntry
entry = of_strings (107 ∷ []) (118 ∷ []) 5 false

entry-IsStorable : IsStorable entry
entry-IsStorable = record {
  key_room = omega arith;
  value_room = omega arith;
  key_fits = omega arith;
  value_fits = omega arith;
  seq_fits = omega arith;
}

mem_entry_round_trip_example :
    (s : Slice) × (e' : MemEntry) × (encode_mem_entry entry ≡ done s)
    × (decode_mem_entry (record { ptr = s.ptr ++ 1 ∷ []; size = s.size }) ≡ done e')
    × (shown e' ≡ shown entry)
    × IsStorable e'
mem_entry_round_trip_example = mem_entry_round_trip entry (1 ∷ []) entry-IsStorable

-- The bytes of the entry: the length of the key and eight, the key, the tag, the length of the value
-- and one, the value and the character behind it.
encode_entry :
    encode_mem_entry entry
    ≡ done (record {
      ptr = 10 ∷ 107 ∷ 0 ∷ 0 ∷ 5 ∷ 0 ∷ 0 ∷ 0 ∷ 0 ∷ 0 ∷ 0 ∷ 2 ∷ 118 ∷ 0 ∷ [];
      size = 14;
    })
unfolding encode_mem_entry encode_varint32 encode_fixed64 varint_length
encode_entry = refl
