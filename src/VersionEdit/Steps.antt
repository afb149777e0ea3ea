-- ===== src/VersionEdit/Steps.antt =====
-- A number in the bytes of an edit: what EncodeTo of main/versionedit.cpp writes, and the round of
-- DecodeFrom that reads it.
use yangkv_v.Base.{
  ◌-◌, ◌≤◌, true, ℕ, suc, ◌+◌, ◌<◌, ◌≡◌, refl, sym, ap, ◌∙◌, List, [], ◌++◌, length, length-append,
  append_assoc, append-nil, Option, none, some, arith,
}
use yangkv_v.Base.Outcome.{done}
use yangkv_v.Coding.Encode.{encode_varint32_shape}
use yangkv_v.Coding.Bounds.{get_varint32_end}
use yangkv_v.Slice.{Slice}
use yangkv_v.Coding.{
  IsU64, put_varint32, put_varint64, encode_varint32, encode_varint64, get_varint32,
}
use yangkv_v.Coding.RoundTrip.{shows, get_varint32-put_varint32, get_varint64-put_varint64}
use yangkv_v.VersionEdit.{
  VersionEdit, Decoded, put_number, decode_field, decode_loop, decode_number,
}
use mathlib.Core.Path.{ap₂}

-- The bytes of a number that may be set, and the rounds that reading them takes.
unfoldable pub number_code : ℕ → Option ℕ → List ℕ
number_code tag none = []
number_code tag (some num) = encode_varint32 tag ++ encode_varint64 num

abbrev pub after : Option ℕ → ℕ → ℕ
after none fuel = fuel
after (some num) fuel = suc fuel

abbrev pub Fits : Option ℕ → Type 0
Fits none = Unit
Fits (some num) = IsU64 num

abbrev pub updated : (ℕ → VersionEdit → VersionEdit) → Option ℕ → Decoded → Decoded
updated set_it none d = d
updated set_it (some num) d = record d { edit = set_it num d.edit }

pub put_number-number_code :
    (tag : ℕ) (o : Option ℕ) (dst : List ℕ) → put_number tag o dst ≡ dst ++ number_code tag o
unfolding number_code put_varint32 put_varint64
put_number-number_code tag none dst = sym (append-nil dst)
put_number-number_code tag (some num) dst =
    append_assoc dst (encode_varint32 tag) (encode_varint64 num)

abbrev pub Selects : ℕ → (ℕ → VersionEdit → VersionEdit) → Type 0
Selects tag set_it =
    (input : Slice) (d : Decoded) → decode_field tag input d ≡ decode_number set_it input d

pub round :
    (fuel tag : ℕ) (input input₁ input₂ : Slice) (d d' : Decoded)
    → get_varint32 input ≡ done (tag, input₁)
    → decode_field tag input₁ d ≡ done (d', input₂)
    → decode_loop (suc fuel) input d ≡ decode_loop fuel input₂ d'
unfolding decode_loop
round fuel tag input input₁ input₂ d d' a b = rw (a, b) refl

pub number_back :
    (set_it : ℕ → VersionEdit → VersionEdit) (num n : ℕ) (rest : List ℕ) (d : Decoded)
    → IsU64 num
    → decode_number set_it (shows (encode_varint64 num) rest n) d
      ≡ done (record d { edit = set_it num d.edit }, record { ptr = rest; size = n })
unfolding put_varint64
number_back set_it num n rest d h = rw (get_varint64-put_varint64 num n rest h) refl

pub tag_back :
    (tag n : ℕ) (rest : List ℕ)
    → tag < 128
    → get_varint32 (shows (encode_varint32 tag) rest n)
      ≡ done (tag, record { ptr = rest; size = n })
unfolding put_varint32
tag_back tag n rest h = get_varint32-put_varint32 tag n rest (omega arith)

pub number_step :
    (tag : ℕ) (set_it : ℕ → VersionEdit → VersionEdit) (o : Option ℕ) (fuel n : ℕ) (rest : List ℕ)
    (d : Decoded)
    → tag < 128
    → Selects tag set_it
    → Fits o
    → decode_loop (after o fuel) (shows (number_code tag o) rest n) d
      ≡ decode_loop fuel (record { ptr = rest; size = n }) (updated set_it o d)
unfolding number_code
number_step tag set_it none fuel n rest d t sel fits =
    ap (λ (k : ℕ). decode_loop fuel (record { ptr = rest; size = k }) d) (omega arith)
number_step tag set_it (some num) fuel n rest d t sel fits =
    let a = encode_varint32 tag in
    let b = encode_varint64 num in
    let input₁ = shows b rest n in
    let whole : shows (a ++ b) rest n ≡ shows a (b ++ rest) (length b + n) =
      ap₂ (λ (l : List ℕ) (k : ℕ). record { ptr = l; size = k }) (append_assoc a b rest)
        (omega (arith, length-append a b)) in
    round fuel tag (shows (a ++ b) rest n) input₁ (record { ptr = rest; size = n }) d
      (updated set_it (some num) d)
      (ap get_varint32 whole ∙ tag_back tag (length b + n) (b ++ rest) t)
      (sel input₁ d ∙ number_back set_it num n rest d fits)

pub loop_end :
    (fuel : ℕ) (rest : List ℕ) (d : Decoded)
    → decode_loop (suc fuel) (record { ptr = rest; size = 0 }) d ≡ done (true, d)
unfolding decode_loop
loop_end fuel rest d = rw (get_varint32_end rest) refl

-- A round is left for each number, and what is left behind it.
pub enough :
    (tag : ℕ) (o : Option ℕ) (fuel m : ℕ)
    → tag < 128
    → length (number_code tag o) + m ≤ fuel
    → (k : ℕ) × (fuel ≡ after o k) × (m ≤ k)
unfolding number_code
enough tag none fuel m t h = (fuel, refl, omega arith)
enough tag (some num) fuel m t h =
    let long : 1 ≤ length (encode_varint32 tag) = (encode_varint32_shape tag (omega arith)).0 in
    let total = length-append (encode_varint32 tag) (encode_varint64 num) in
    (fuel - 1, omega (arith, long, total), omega (arith, long, total))
