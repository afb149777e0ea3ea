-- ===== src/TableBuilder/Finished.antt =====
-- Finish of table/table_builder.cpp on a well-formed builder.
use yangkv_v.Base.{
  ℕ, ◌+◌, ◌-◌, ◌^◌, ◌<◌, ◌≡◌, inl, inr, refl, List, [], length, Bool, true, false, arith,
  Bool-cases,
}
use yangkv_v.Format.{encode_footer, BlockHandle, Footer}
use yangkv_v.Base.Outcome.{done}
use yangkv_v.BlockBuilder.{BlockBuilder, new_builder, current_size_estimate}
use yangkv_v.BlockBuilder.Restarts.{current_size_estimate-finish}
use yangkv_v.Env.{WritableFile}
use yangkv_v.Format.RoundTrip.{IsAssigned, decode_footer-encode_footer}
use yangkv_v.Status.{Status, is_ok}
use yangkv_v.TableBuilder.{
  TableBuilder, k_block_size, handle_at, write_block, flush, index_last, write_index, finish_closed,
  finish, with_footer,
}
use yangkv_v.TableBuilder.Ensures.{
  Ensures, Ensures-on_built, Ensures-when_ok, write_block-Ensures, Ensures-then_file,
}
use yangkv_v.TableBuilder.Asserts.{IsWell, Frames}
use yangkv_v.Env.Safe.{append-Safe}
use yangkv_v.TableBuilder.LastIndex.{CanIndex, flush-IsWell, index_last-CanIndex}
use yangkv_v.BlockBuilder
use yangkv_v.Env

footer_code :
    (f : Footer)
    → IsAssigned f.metaindex_handle
    → IsAssigned f.index_handle
    → (code : List ℕ) × (encode_footer [] f ≡ done code) × (length code ≡ 48)
footer_code f hm hi =
    let (code, encoded, size, _) = decode_footer-encode_footer f [] 0 hm hi (omega arith) in
    (code, encoded, size)

-- The builder behind Finish.
abbrev pub Closed : TableBuilder → Type 0
Closed r = (r.closed ≡ true) × (is_ok r.status ≡ true → 0 < r.offset)

failed-Closed : (r : TableBuilder) → r.closed ≡ true → is_ok r.status ≡ false → Closed r
failed-Closed r closed failed = (closed, λ fine. absurd (cc (fine, failed)))

with_footer-Closed :
    (code : List ℕ) (r : TableBuilder)
    → length code ≡ 48
    → r.closed ≡ true
    → r.offset < 2 ^ 64 - 48
    → Ensures (with_footer (done code) r) Closed
with_footer-Closed code r size h room =
    Ensures-then_file (Env.append code r.file) r _ _ (append-Safe code r.file)
      (λ f. (h, λ fine. omega (arith, size)))
      (λ f s failed. (h, λ fine. absurd (cc (fine, failed))))

write_index-Closed :
    (metaindex : BlockHandle) (r : TableBuilder)
    → IsAssigned metaindex
    → CanIndex r
    → Ensures (write_index metaindex r) Closed
unfolding write_index
write_index-Closed metaindex r assigned c =
    let (code, encoded, size) =
      footer_code
        (record { metaindex_handle = metaindex; index_handle = handle_at r.index_block r }) assigned
        (record {
          offset_set = omega (arith, c.room);
          size_set = omega (arith, current_size_estimate-finish r.index_block, c.index_size);
        }) in
    rw encoded (
      Ensures-when_ok _ _ (λ r₁. (r₁.closed ≡ true) × (r₁.offset < 2 ^ 64 - 48)) _
        (Ensures-on_built (write_block r.index_block r) _
          (λ r₁. (r₁.closed ≡ true) × (r₁.offset < 2 ^ 64 - 48)) _
          (write_block-Ensures r.index_block r _ c.fine (λ f s o h. (
            c.is_closed,
            omega (arith, h, c.room, c.index_size, current_size_estimate-finish r.index_block),
          )))
          (λ r₁ h. h))
        (λ r₁ (closed, room) fine. with_footer-Closed code r₁ size closed room)
        (λ r₁ (closed, room) failed. failed-Closed r₁ closed failed))

new_size : length (BlockBuilder.finish new_builder).buffer ≡ 8
unfolding current_size_estimate
new_size = current_size_estimate-finish new_builder

-- The file, the status, the offset and the mark play no part in what is well formed.
written-IsWell :
    (limit : ℕ) (r : TableBuilder) (f : WritableFile) (s : Status) (o : ℕ) (closed : Bool)
    → IsWell limit r
    → IsWell limit (record r { file = f; status = s; offset = o; closed = closed })
written-IsWell limit r f s o closed w = record {
  data_open = w.data_open;
  index_open = w.index_open;
  flushed = w.flushed;
  data_last = w.data_last;
  index_last = w.index_last;
  assigned = w.assigned;
  none_yet = w.none_yet;
  data_size = w.data_size;
  short = w.short;
}

finish_closed-Closed :
    (r : TableBuilder)
    → IsWell k_block_size r
    → r.closed ≡ true
    → r.offset < 2 ^ 62 + 2 ^ 13
    → current_size_estimate r.index_block < 2 ^ 62
    → Ensures (finish_closed r) Closed
unfolding finish_closed
finish_closed-Closed r w is_closed room size = elim (Bool-cases (is_ok r.status)) [
  | inr failed ↦ simp failed (is_closed, λ fine. absurd (cc fine))
  | inl fine ↦ simp fine (
      Ensures-when_ok (write_block new_builder r) _
        (λ r₁.
          IsWell k_block_size r₁
          × (r₁.closed ≡ true)
          × (r₁.offset < 2 ^ 63)
          × (current_size_estimate r₁.index_block < 2 ^ 62))
        _
        (write_block-Ensures new_builder r _ fine (λ f s o h. (
          written-IsWell k_block_size r f s o r.closed w,
          is_closed,
          omega (arith, new_size),
          size,
        )))
        (λ r₁ (well, closed', room', size') fine'.
          Ensures-on_built (index_last r₁) _ CanIndex _
            (index_last-CanIndex r₁ (record {
              well = well;
              fine = fine';
              is_closed = closed';
              room = room';
              index_size = size';
            }))
            (λ r₂.
              write_index-Closed (handle_at new_builder r) r₂
                (record { offset_set = omega (arith, room); size_set = omega (arith, new_size) })))
        (λ r₁ (well, closed', room', size') failed. failed-Closed r₁ closed' failed))
]

-- On an open and well-formed builder, with an offset below 2^62 and an index block below 2^62 bytes,
-- Finish fails no assertion, and where it returns the builder
-- is closed, and a status that is ok comes with an offset that is not 0.
pub finish-Closed :
    (r : TableBuilder)
    → IsWell k_block_size r
    → r.closed ≡ false
    → r.offset < 2 ^ 62
    → current_size_estimate r.index_block < 2 ^ 62
    → Ensures (finish r) Closed
unfolding finish
finish-Closed r w open' room size =
    Ensures-on_built (flush r) _ (λ r'. IsWell k_block_size r' × Frames r (k_block_size + 5) r') _
      (flush-IsWell r open' (omega (arith, room)) w)
      (λ r₁ (well, f).
        finish_closed-Closed (record r₁ { closed = true })
          (written-IsWell k_block_size r₁ r₁.file r₁.status r₁.offset true well) refl
          (omega (arith, f.offset)) (rw f.index_block size))
