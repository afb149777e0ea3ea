-- ===== src/Coding/RoundTrip.antt =====
-- What the varint writers of utils/dbformat.cpp write is what the readers read.
use yangkv_v.Base.{
  sym, drop-append, le→leb, length-append, append_assoc, [], ℕ, zero, suc, ◌+◌, ◌-◌, ◌*◌, ◌/◌, ◌%◌,
  ◌^◌, ◌≤◌, ◌<◌, ◌≡◌, refl, ap, ◌∙◌, List, ◌∷◌, ◌++◌, length, ltb, leb, ◌==◌, true, false, ◌&&◌,
  ltb→lt, Bool-cases, inl, inr, arith, bit_and, bit_or,
}
use yangkv_v.Coding.Encode.{encode_varint32-base128, encode_varint64-base128, base128}
use yangkv_v.Coding.{
  encode_varint32, encode_varint64, IsU32, IsU64, put_length_prefixed_slice, put_varint32,
  put_varint64, get_length_prefixed_slice, get_varint32, get_varint32_ptr,
  get_varint32_ptr_fallback, get_varint64, get_varint64_ptr, get_varint_loop,
}
use yangkv_v.Base.Bits.{zero-bit_or, bit_and_top, bit_and_low, bit_or_disjoint}
use yangkv_v.Base.Outcome.{done}
use yangkv_v.Slice.{Slice}
use native.Mathlib.Numerals.{towards_suc}
use native.Mathlib.Nat.{add_assoc, div-add-mod, mod-eq_of_lt}

module _ (top width : ℕ) where
  go_on :
      (byte n shift acc : ℕ) (rest : List ℕ)
      → (leb shift top && ltb 0 n) ≡ true
      → (bit_and byte 128 == 0) ≡ false
      → get_varint_loop top width (byte ∷ rest) n shift acc
        ≡ get_varint_loop top width rest
            (n - 1)
            (shift + 7)
            (bit_or acc (bit_and byte 127 * 2 ^ shift % 2 ^ width))
  unfolding get_varint_loop
  go_on byte n shift acc rest h t = rw (h, t)

  -- The last byte of a number: it is below 128 and its digit fits the word.
  last_byte :
      (w shift acc n : ℕ) (rest : List ℕ)
      → w < 128
      → shift ≤ top
      → acc < 2 ^ shift
      → w * 2 ^ shift < 2 ^ width
      → get_varint_loop top width (w ∷ rest) (suc n) shift acc ≡ done (acc + w * 2 ^ shift, rest, n)
  unfolding get_varint_loop
  last_byte w shift acc n rest hw ht ha fits =
      rw (mod-eq_of_lt fits, bit_or_disjoint shift acc w ha) (ground (arith, bit_and_top w))

  -- A byte with the top bit set over the digit `g`.
  inner_byte :
      (g shift acc n : ℕ) (rest : List ℕ)
      → g < 128
      → shift ≤ top
      → acc < 2 ^ shift
      → g * 2 ^ shift < 2 ^ width
      → get_varint_loop top width ((g + 128) ∷ rest) (suc n) shift acc
        ≡ get_varint_loop top width rest n (shift + 7) (acc + g * 2 ^ shift)
  inner_byte g shift acc n rest hg ht ha fits =
      let low : bit_and (g + 128) 127 ≡ g = omega (arith, bit_and_low (g + 128)) in
      let one : suc n - 1 ≡ n = omega arith in
      rw
        (go_on (g + 128) (suc n) shift acc rest (ground arith)
          (ground (arith, bit_and_top (g + 128))))
        (rw (one, low, mod-eq_of_lt fits, bit_or_disjoint shift acc g ha))

seven_more : (s : ℕ) → 2 ^ (s + 7) ≡ 128 * 2 ^ s
seven_more s = simp towards_suc (omega arith)

-- The lowest digit of `w` and the others, both shifted by `s`.
split_digit : (w s : ℕ) → w * 2 ^ s ≡ w % 128 * 2 ^ s + w / 128 * 2 ^ (s + 7)
split_digit w s =
    let digits : w * 2 ^ s ≡ (128 * (w / 128) + w % 128) * 2 ^ s =
      ap (λ (n : ℕ). n * 2 ^ s) (sym (div-add-mod w 128)) in
    let higher = ap (λ (p : ℕ). w / 128 * p) (seven_more s) in omega (digits, higher, arith)

≤-mul : (a b c : ℕ) → a ≤ b → a * c ≤ b * c
≤-mul a b c h = grind arith

-- A digit in front of the bits that are read already.
digit_below : (g acc s : ℕ) → g < 128 → acc < 2 ^ s → acc + g * 2 ^ s < 2 ^ (s + 7)
digit_below g acc s hg ha = omega (arith, seven_more s, ≤-mul g 127 (2 ^ s) (omega arith))

module _ (top width : ℕ) where
  -- `w` is what is still to be read, and it counts from bit `shift` on.
  get_varint_loop-base128 :
      (k w shift acc m n : ℕ) (rest : List ℕ)
      → m ≡ length (base128 k w) + n
      → w < 128 ^ suc k
      → shift + 7 * k ≤ top
      → acc < 2 ^ shift
      → w * 2 ^ shift < 2 ^ width
      → get_varint_loop top width (base128 k w ++ rest) m shift acc
        ≡ done (acc + w * 2 ^ shift, rest, n)
  unfolding base128
  get_varint_loop-base128 zero w shift acc m n rest hm hw ht ha fits =
      let e : m ≡ suc n = omega arith in
      rw e (last_byte top width w shift acc n rest hw (omega arith) ha fits)
  get_varint_loop-base128 (suc k) w shift acc m n rest hm hw ht ha fits =
      elim (Bool-cases (ltb w 128)) [
        | inl small ↦
            let e : m ≡ suc n = hm ∙ rw small (omega arith) in
            rw (small, e)
              (last_byte top width w shift acc n rest (ltb→lt w 128 small) (omega arith) ha fits)
        | inr large ↦
            let e : m ≡ suc (length (base128 k (w / 128)) + n) = hm ∙ rw large (omega arith) in
            rw (large, e)
              (inner_byte top width (w % 128) shift acc (length (base128 k (w / 128)) + n)
                  (base128 k (w / 128) ++ rest) (omega arith) (omega arith) ha
                  (omega (arith, split_digit w shift))
                ∙ get_varint_loop-base128 k (w / 128) (shift + 7) (acc + w % 128 * 2 ^ shift)
                    (length (base128 k (w / 128)) + n) n rest refl (omega arith) (omega arith)
                    (digit_below (w % 128) acc shift (omega arith) ha)
                    (omega (arith, split_digit w shift))
                ∙ ap (λ (t : ℕ). done (t, rest, n)) (omega (arith, split_digit w shift)))
      ]

fast_path :
    (byte n : ℕ) (p : List ℕ)
    → byte < 256
    → get_varint32_ptr (byte ∷ p) n ≡ get_varint32_ptr_fallback (byte ∷ p) n
unfolding get_varint32_ptr get_varint_loop
fast_path byte n p h = ground (arith, zero-bit_or (byte * 2 ^ 0 % 2 ^ 32))

base128_fast :
    (k v n : ℕ) (rest : List ℕ)
    → v < 128 ^ suc k
    → get_varint32_ptr (base128 k v ++ rest) n ≡ get_varint32_ptr_fallback (base128 k v ++ rest) n
unfolding base128
base128_fast zero v n rest h = fast_path v n rest (omega arith)
base128_fast (suc k) v n rest h = elim (Bool-cases (ltb v 128)) [
  | inl small ↦ rw small (fast_path v n rest (omega (arith, ltb→lt v 128 small)))
  | inr large ↦ rw large (fast_path (v % 128 + 128) n (base128 k (v / 128) ++ rest) (omega arith))
]

-- GetVarint32Ptr reads back what EncodeVarint32 wrote, whatever follows it and wherever behind it
-- the limit stands.
pub get_varint32_ptr-encode_varint32 :
    (v m n : ℕ) (rest : List ℕ)
    → IsU32 v
    → m ≡ length (encode_varint32 v) + n
    → get_varint32_ptr (encode_varint32 v ++ rest) m ≡ done (v, rest, n)
unfolding get_varint32_ptr_fallback
get_varint32_ptr-encode_varint32 v m n rest h hm =
    let e : encode_varint32 v ≡ base128 4 v = encode_varint32-base128 v h in
    rw (e, base128_fast 4 v m rest (omega arith))
      (get_varint_loop-base128 28 32 4 v 0 0 m n rest (rw e at hm) (omega arith) (omega arith)
          (omega arith) (omega arith)
        ∙ ap (λ (t : ℕ). done (t, rest, n)) (omega arith))

-- GetVarint64Ptr reads back what EncodeVarint64 wrote.
pub get_varint64_ptr-encode_varint64 :
    (v m n : ℕ) (rest : List ℕ)
    → IsU64 v
    → m ≡ length (encode_varint64 v) + n
    → get_varint64_ptr (encode_varint64 v ++ rest) m ≡ done (v, rest, n)
unfolding get_varint64_ptr
get_varint64_ptr-encode_varint64 v m n rest h hm =
    let e : encode_varint64 v ≡ base128 9 v = encode_varint64-base128 v h in
    rw e (
      get_varint_loop-base128 63 64 9 v 0 0 m n rest (rw e at hm) (omega arith) (omega arith)
        (omega arith) (omega arith)
      ∙ ap (λ (t : ℕ). done (t, rest, n)) (omega arith))

-- A slice that shows `n` bytes behind a run of bytes.
abbrev pub shows : List ℕ → List ℕ → ℕ → Slice
shows code rest n = record { ptr = code ++ rest; size = length code + n }

-- GetVarint32 reads back the 32-bit number that PutVarint32 appended and advances the slice past
-- it.
pub get_varint32-put_varint32 :
    (v n : ℕ) (rest : List ℕ)
    → IsU32 v
    → get_varint32 (shows (put_varint32 [] v) rest n) ≡ done (v, record { ptr = rest; size = n })
unfolding get_varint32 put_varint32
get_varint32-put_varint32 v n rest h = rw (get_varint32_ptr-encode_varint32 v _ n rest h refl)

-- GetVarint64 reads back the 64-bit number that PutVarint64 appended and advances the slice past
-- it.
pub get_varint64-put_varint64 :
    (v n : ℕ) (rest : List ℕ)
    → IsU64 v
    → get_varint64 (shows (put_varint64 [] v) rest n) ≡ done (v, record { ptr = rest; size = n })
unfolding get_varint64 put_varint64
get_varint64-put_varint64 v n rest h = rw (get_varint64_ptr-encode_varint64 v _ n rest h refl)

-- GetLengthPrefixedSlice reads back the run of bytes that PutLengthPrefixedSlice appended, when its
-- length fits 32 bits, and advances the slice past it.
pub get_length_prefixed_slice-put_length_prefixed_slice :
    (value rest : List ℕ) (n : ℕ)
    → IsU32 (length value)
    → get_length_prefixed_slice (shows (put_length_prefixed_slice [] value) rest n)
      ≡ done (record { ptr = value ++ rest; size = length value }, record { ptr = rest; size = n })
unfolding get_length_prefixed_slice put_length_prefixed_slice
get_length_prefixed_slice-put_length_prefixed_slice value rest n h =
    let code = encode_varint32 (length value) in
    let m = length code + (length value + n) in
    rw
      (
        mod-eq_of_lt h,
        append_assoc code value rest,
        length-append code value,
        add_assoc (length code) (length value) n,
        get_varint32_ptr-encode_varint32 (length value) m (length value + n) (value ++ rest) h refl,
        le→leb (length value) (length value + n) (omega arith),
        drop-append value rest,
      )
      (ap
        (λ (t : ℕ).
          done
            (record { ptr = value ++ rest; size = length value }, record { ptr = rest; size = t }))
        (omega arith))
