-- ===== src/BlockBuilder/Restarts.antt =====
-- Block of table/block.cpp finds the restart points where Finish of table/block_builder.cpp put them.
use yangkv_v.Base.{
  ℕ, ◌+◌, ◌-◌, ◌*◌, ◌/◌, ◌%◌, ◌^◌, ◌<◌, ltb, leb, List, [], ◌∷◌, ◌++◌, length, length-append,
  append-nil, drop, drop_front, ◌≡◌, refl, sym, ◌∙◌, ap, arith, true, false,
}
use yangkv_v.Base.Outcome.{done}
use yangkv_v.Coding.{put_fixed32, encode_fixed32, decode_fixed32}
use yangkv_v.Coding.Fixed.{decode_fixed32-encode_fixed32, encode_fixed32_shape}
use yangkv_v.BlockBuilder.{
  BlockBuilder, put_restarts, finish, current_size_estimate, open_block, num_restarts,
}

length-put_restarts :
    (buffer restarts : List ℕ)
    → length (put_restarts buffer restarts) ≡ length buffer + length restarts * 4
unfolding put_restarts put_fixed32
length-put_restarts buffer [] = omega arith
length-put_restarts buffer (r ∷ restarts) = omega (
  arith,
  length-put_restarts (buffer ++ encode_fixed32 r) restarts,
  length-append buffer (encode_fixed32 r),
  (encode_fixed32_shape r).0,
)

pub current_size_estimate-finish :
    (b : BlockBuilder) → length (finish b).buffer ≡ current_size_estimate b
unfolding finish current_size_estimate put_fixed32
current_size_estimate-finish b = omega (
  arith,
  length-append (put_restarts b.buffer b.restarts) (encode_fixed32 (length b.restarts % 2 ^ 32)),
  (encode_fixed32_shape (length b.restarts % 2 ^ 32)).0,
  length-put_restarts b.buffer b.restarts,
)

-- For a block of fewer than 2^32 bytes of entries and fewer than 2^32 - 1 restart points, Block
-- accepts what Finish made, with its whole size, and finds the restart points right behind the
-- entries.
pub open_block-finish :
    (b : BlockBuilder)
    → length b.restarts + 1 < 2 ^ 32
    → length b.buffer < 2 ^ 32
    → open_block (record { ptr = (finish b).buffer; size = length (finish b).buffer })
      ≡ done (record {
        contents = (finish b).buffer;
        size = current_size_estimate b;
        restart_offset = length b.buffer;
      })
unfolding open_block finish put_fixed32 num_restarts
open_block-finish b small short =
    let body = put_restarts b.buffer b.restarts in
    let count = encode_fixed32 (length b.restarts % 2 ^ 32) in
    let size : length (body ++ count) ≡ current_size_estimate b = current_size_estimate-finish b in
    let whole : current_size_estimate b ≡ length b.buffer + length b.restarts * 4 + 4 =
      unfold current_size_estimate in refl in
    let front : drop (current_size_estimate b - 4) (body ++ count) ≡ count =
      drop_front (current_size_estimate b - 4) body count
        (omega (arith, whole, length-put_restarts b.buffer b.restarts)) in
    let read : decode_fixed32 count ≡ done (length b.restarts % 2 ^ 32) =
      ap decode_fixed32 (sym (append-nil count))
      ∙ decode_fixed32-encode_fixed32 (length b.restarts % 2 ^ 32) [] (omega arith) in
    let big : ltb (current_size_estimate b) 4 ≡ false = ground (arith, whole) in
    let big' : leb 4 (current_size_estimate b) ≡ true = ground (arith, whole) in
    let kept : length b.restarts % 2 ^ 32 ≡ length b.restarts = omega arith in
    let fits : ltb ((current_size_estimate b - 4) / 4) (length b.restarts) ≡ false =
      ground (arith, whole) in
    let offset : (current_size_estimate b - (1 + length b.restarts) % 2 ^ 32 * 4) % 2 ^ 32
        ≡ length b.buffer =
      omega (arith, whole) in
    rw (size, big, big', front, read, kept, fits, offset) refl
