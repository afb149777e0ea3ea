-- ===== src/FilterBlock/Words.antt =====
-- The offsets that Finish of table/filter_block.cpp writes, as words of 32 bits.
use yangkv_v.Base.{
  ℕ, zero, suc, ◌+◌, ◌*◌, ◌^◌, ◌<◌, ◌≡◌, refl, sym, ap, ◌∙◌, List, [], ◌∷◌, ◌++◌, length,
  length-append, append_assoc, append-nil, drop, All, get_or, arith,
}
use yangkv_v.Base.Outcome.{done}
use yangkv_v.Coding.{put_fixed32, encode_fixed32, decode_fixed32}
use yangkv_v.Coding.Fixed.{decode_fixed32-encode_fixed32, encode_fixed32_shape}
use yangkv_v.FilterBlock.{put_offsets}

-- The words of an array of offsets.
abbrev pub words : List ℕ → List ℕ
words [] = []
words (o ∷ os) = encode_fixed32 o ++ words os

pub put_offsets-words : (result os : List ℕ) → put_offsets result os ≡ result ++ words os
unfolding put_offsets put_fixed32
put_offsets-words result [] = sym (append-nil result)
put_offsets-words result (o ∷ os) =
    put_offsets-words (result ++ encode_fixed32 o) os
    ∙ append_assoc result (encode_fixed32 o) (words os)

pub length-words : (os : List ℕ) → length (words os) ≡ length os * 4
length-words [] = omega arith
length-words (o ∷ os) = omega (
  arith,
  length-append (encode_fixed32 o) (words os),
  length-words os,
  (encode_fixed32_shape o).0,
)

pub words-append :
    (os : List ℕ) (o : ℕ) (rest : List ℕ)
    → words (os ++ o ∷ []) ++ rest ≡ words os ++ (encode_fixed32 o ++ rest)
words-append [] o rest = ap (λ (l : List ℕ). l ++ rest) (append-nil (encode_fixed32 o))
words-append (x ∷ os) o rest =
    append_assoc (encode_fixed32 x) (words (os ++ o ∷ [])) rest
    ∙ ap (λ (l : List ℕ). encode_fixed32 x ++ l) (words-append os o rest)
    ∙ sym (append_assoc (encode_fixed32 x) (words os) (encode_fixed32 o ++ rest))

-- What is dropped beyond the front.
pub drop_past : (m n : ℕ) (xs ys : List ℕ) → m ≡ length xs + n → drop m (xs ++ ys) ≡ drop n ys
drop_past m n [] ys h = ap (λ (k : ℕ). drop k ys) (omega arith)
drop_past zero n (x ∷ xs) ys h = absurd (omega arith)
drop_past (suc m) n (x ∷ xs) ys h = drop_past m n xs ys (omega arith)

-- The word of an index.
pub decode-words :
    (i : ℕ) (os rest : List ℕ)
    → i < length os
    → All (λ o. o < 2 ^ 32) os
    → decode_fixed32 (drop (i * 4) (words os ++ rest)) ≡ done (get_or os i 0)
decode-words i [] rest h small = absurd (omega arith)
decode-words zero (o ∷ os) rest h small =
    ap decode_fixed32 (append_assoc (encode_fixed32 o) (words os) rest)
    ∙ decode_fixed32-encode_fixed32 o (words os ++ rest) small.0
decode-words (suc i) (o ∷ os) rest h small =
    ap (λ (l : List ℕ). decode_fixed32 (drop (suc i * 4) l))
      (append_assoc (encode_fixed32 o) (words os) rest)
    ∙ ap decode_fixed32 (
        drop_past (suc i * 4) (i * 4) (encode_fixed32 o) (words os ++ rest)
          (omega (arith, (encode_fixed32_shape o).0)))
    ∙ decode-words i os rest (omega arith) small.1

pub get_or-last : (xs : List ℕ) (v d : ℕ) → get_or (xs ++ v ∷ []) (length xs) d ≡ v
get_or-last [] v d = refl
get_or-last (x ∷ xs) v d = get_or-last xs v d
