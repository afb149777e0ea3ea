-- ===== src/Format/RoundTrip.antt =====
-- The handles and the footer of table/format.cpp are read back as they were written.
use yangkv_v.Base.{
  ℕ, ◌+◌, ◌-◌, ◌*◌, ◌/◌, ◌%◌, ◌^◌, ◌≤◌, ◌<◌, ◌≡◌, refl, sym, ap, ◌∙◌, List, [], ◌++◌, length, take,
  drop, replicate, length-replicate, take_all, drop_front, ◌==◌, true, false, arith, append_assoc,
  length-append,
}
use yangkv_v.Format.{
  k_table_magic_number, BlockHandle, Footer, encode_handle, decode_handle, encode_footer,
  decode_footer, resize, k_encoded_length,
}
use yangkv_v.Base.Outcome.{done}
use yangkv_v.Slice.{Slice}
use yangkv_v.Coding.{put_varint64, put_fixed32, decode_fixed32, encode_varint64, encode_fixed32}
use yangkv_v.Coding.RoundTrip.{shows, get_varint64-put_varint64}
use yangkv_v.Coding.Encode.{encode_varint64_shape}
use yangkv_v.Coding.Fixed.{decode_fixed32-encode_fixed32, encode_fixed32_shape}
use Prim.Native.Nat.{bit_or}
use mathlib.Core.Path.{ap₂}

-- A handle that has been set: not all bits are set in a field.
pub record IsAssigned (h : BlockHandle) : Type 0 where
  pub offset_set : h.offset < 2 ^ 64 - 1
  pub size_set : h.size < 2 ^ 64 - 1

abbrev pub handle_code : BlockHandle → List ℕ
handle_code h = encode_varint64 h.offset ++ encode_varint64 h.size

pub encode_handle-handle_code :
    (dst : List ℕ) (h : BlockHandle)
    → IsAssigned h
    → encode_handle dst h ≡ done (dst ++ handle_code h)
unfolding encode_handle put_varint64
encode_handle-handle_code dst h s =
    let one : (h.offset == 2 ^ 64 - 1) ≡ false = ground (arith, s.offset_set) in
    let two : (h.size == 2 ^ 64 - 1) ≡ false = ground (arith, s.size_set) in
    rw (one, two) (ap done (append_assoc dst (encode_varint64 h.offset) (encode_varint64 h.size)))

pub length-handle_code : (h : BlockHandle) → IsAssigned h → length (handle_code h) ≤ 20
length-handle_code h s = omega (
  arith,
  length-append (encode_varint64 h.offset) (encode_varint64 h.size),
  (encode_varint64_shape h.offset (omega (arith, s.offset_set))).1,
  (encode_varint64_shape h.size (omega (arith, s.size_set))).1,
)

pub decode_handle-handle_code :
    (h : BlockHandle) (rest : List ℕ) (n : ℕ)
    → IsAssigned h
    → decode_handle (shows (handle_code h) rest n) ≡ done (h, record { ptr = rest; size = n })
unfolding decode_handle put_varint64
decode_handle-handle_code h rest n s =
    let a = encode_varint64 h.offset in
    let b = encode_varint64 h.size in
    let first =
      get_varint64-put_varint64 h.offset (length b + n) (b ++ rest) (omega (arith, s.offset_set)) in
    let second = get_varint64-put_varint64 h.size n rest (omega (arith, s.size_set)) in
    let len : length (a ++ b) + n ≡ length a + (length b + n) = omega (arith, length-append a b) in
    rw (append_assoc a b rest, len, first, second) refl

abbrev body : Footer → List ℕ
body f = handle_code f.metaindex_handle ++ handle_code f.index_handle

abbrev pad : Footer → List ℕ
pad f = replicate (40 - length (body f)) 0

abbrev magic_bytes : List ℕ
magic_bytes =
    encode_fixed32 (k_table_magic_number % 2 ^ 32) ++ encode_fixed32 (k_table_magic_number / 2 ^ 32)

abbrev pub footer_code : Footer → List ℕ
footer_code f = (body f ++ pad f) ++ magic_bytes

length-body :
    (f : Footer) → IsAssigned f.metaindex_handle → IsAssigned f.index_handle → length (body f) ≤ 40
length-body f hm hi = omega (
  arith,
  length-append (handle_code f.metaindex_handle) (handle_code f.index_handle),
  length-handle_code f.metaindex_handle hm,
  length-handle_code f.index_handle hi,
)

length-padded : (f : Footer) → length (body f) ≤ 40 → length (body f ++ pad f) ≡ 40
length-padded f h =
    omega (arith, length-append (body f) (pad f), length-replicate {A = ℕ} (40 - length (body f)) 0)

length-magic_bytes : length magic_bytes ≡ 8
unfolding encode_fixed32
length-magic_bytes = refl

length-footer_code : (f : Footer) → length (body f) ≤ 40 → length (footer_code f) ≡ 48
length-footer_code f h =
    omega
      (arith, length-append (body f ++ pad f) magic_bytes, length-padded f h, length-magic_bytes)

encode_footer-footer_code :
    (f : Footer)
    → IsAssigned f.metaindex_handle
    → IsAssigned f.index_handle
    → encode_footer [] f ≡ done (footer_code f)
unfolding encode_footer resize put_fixed32
encode_footer-footer_code f hm hi =
    let short = length-body f hm hi in
    let shape : (take 40 (body f) ++ pad f ++ encode_fixed32 (k_table_magic_number % 2 ^ 32))
          ++ encode_fixed32 (k_table_magic_number / 2 ^ 32)
        ≡ footer_code f =
      rw (take_all 40 (body f) short) (append_assoc (body f ++ pad f) _ _) in
    rw
      (
        encode_handle-handle_code [] f.metaindex_handle hm,
        encode_handle-handle_code (handle_code f.metaindex_handle) f.index_handle hi,
        shape,
        length-footer_code f short,
      )
      refl

decode_parts :
    (f : Footer) (x rest : List ℕ) (size n lo hi : ℕ) (s₁ s₂ : Slice)
    → decode_fixed32 (drop 40 x) ≡ done lo
    → decode_fixed32 (drop 44 x) ≡ done hi
    → (bit_or (hi * 2 ^ 32) lo == k_table_magic_number) ≡ true
    → decode_handle (record { ptr = x; size = size }) ≡ done (f.metaindex_handle, s₁)
    → decode_handle s₁ ≡ done (f.index_handle, s₂)
    → drop 48 x ≡ rest
    → (size + 2 ^ 64 - 48) % 2 ^ 64 ≡ n
    → decode_footer (record { ptr = x; size = size }) ≡ done (f, record { ptr = rest; size = n })
unfolding decode_footer
decode_parts f x rest size n lo hi s₁ s₂ a b c d e g h = rw (a, b, c, d, e, g, h) refl

abbrev lo_bytes : List ℕ
lo_bytes = encode_fixed32 (k_table_magic_number % 2 ^ 32)

abbrev hi_bytes : List ℕ
hi_bytes = encode_fixed32 (k_table_magic_number / 2 ^ 32)

-- The footer and what follows it, cut at its parts.
cut :
    (cm ci p lo hi rest : List ℕ)
    → (((cm ++ ci) ++ p) ++ (lo ++ hi)) ++ rest ≡ cm ++ (ci ++ (p ++ (lo ++ (hi ++ rest))))
cut cm ci p lo hi rest =
    append_assoc ((cm ++ ci) ++ p) (lo ++ hi) rest
    ∙ append_assoc (cm ++ ci) p ((lo ++ hi) ++ rest)
    ∙ append_assoc cm ci (p ++ ((lo ++ hi) ++ rest))
    ∙ ap (λ (l : List ℕ). cm ++ (ci ++ (p ++ l))) (append_assoc lo hi rest)

decode_footer-footer_code :
    (f : Footer) (rest : List ℕ) (n : ℕ)
    → IsAssigned f.metaindex_handle
    → IsAssigned f.index_handle
    → n < 2 ^ 64 - 48
    → decode_footer (shows (footer_code f) rest n) ≡ done (f, record { ptr = rest; size = n })
decode_footer-footer_code f rest n hm hi small =
    let short = length-body f hm hi in
    let cm = handle_code f.metaindex_handle in
    let ci = handle_code f.index_handle in
    let front : footer_code f ++ rest ≡ (body f ++ pad f) ++ (lo_bytes ++ (hi_bytes ++ rest)) =
      append_assoc (body f ++ pad f) magic_bytes rest
      ∙ ap (λ (l : List ℕ). (body f ++ pad f) ++ l) (append_assoc lo_bytes hi_bytes rest) in
    let later : footer_code f ++ rest ≡ ((body f ++ pad f) ++ lo_bytes) ++ (hi_bytes ++ rest) =
      front ∙ sym (append_assoc (body f ++ pad f) lo_bytes (hi_bytes ++ rest)) in
    let behind = pad f ++ (lo_bytes ++ (hi_bytes ++ rest)) in
    let forty = length-padded f short in
    let total = length-footer_code f short in
    let four : length lo_bytes ≡ 4 = (encode_fixed32_shape (k_table_magic_number % 2 ^ 32)).0 in
    let m = 48 + n - length cm - length ci in
    let room : length cm + length ci ≤ 40 = omega (arith, length-append cm ci, short) in
    let whole : shows (footer_code f) rest n ≡ shows cm (ci ++ behind) (length ci + m) =
      ap₂ (λ (l : List ℕ) (k : ℕ). record { ptr = l; size = k })
        (cut cm ci (pad f) lo_bytes hi_bytes rest) (omega (arith, total)) in
    decode_parts f (footer_code f ++ rest) rest (length (footer_code f) + n) n
      (k_table_magic_number % 2 ^ 32) (k_table_magic_number / 2 ^ 32) (shows ci behind m)
      (record { ptr = behind; size = m })
      (rw (front, drop_front 40 (body f ++ pad f) (lo_bytes ++ (hi_bytes ++ rest)) (sym forty))
        (decode_fixed32-encode_fixed32 _ (hi_bytes ++ rest) (omega arith)))
      (rw
        (
          later,
          drop_front 44 ((body f ++ pad f) ++ lo_bytes) (hi_bytes ++ rest)
              (omega (arith, length-append (body f ++ pad f) lo_bytes, forty, four)),
        )
        (decode_fixed32-encode_fixed32 _ rest (omega arith)))
      refl
      (ap decode_handle whole
        ∙ decode_handle-handle_code f.metaindex_handle (ci ++ behind) (length ci + m) hm)
      (decode_handle-handle_code f.index_handle behind m hi)
      (drop_front 48 (footer_code f) rest (sym total)) (omega (arith, total))

-- A footer whose handles are assigned is encoded into an empty string as exactly kEncodedLength
-- bytes, and Footer::DecodeFrom reads it back from them, with anything behind them, and leaves the
-- slice at what is behind.
pub decode_footer-encode_footer :
    (f : Footer) (rest : List ℕ) (n : ℕ)
    → IsAssigned f.metaindex_handle
    → IsAssigned f.index_handle
    → n < 2 ^ 64 - 48
    → (code : List ℕ) × (encode_footer [] f ≡ done code)
      × (length code ≡ k_encoded_length)
      × (decode_footer (shows code rest n) ≡ done (f, record { ptr = rest; size = n }))
decode_footer-encode_footer f rest n hm hi small = (
  footer_code f,
  encode_footer-footer_code f hm hi,
  length-footer_code f (length-body f hm hi),
  decode_footer-footer_code f rest n hm hi small,
)
