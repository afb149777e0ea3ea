-- ===== src/Log/RoundTrip.antt =====
-- ReadRecord of utils/logreader.cpp reads back what AddRecord put into the file.
use yangkv_v.Base.{
  take-append, drop_front, ℕ, ◌+◌, ◌%◌, ◌^◌, ◌≤◌, ◌<◌, ◌≡◌, refl, sym, ap, ◌∙◌, List, ◌++◌, length,
  take, drop, false, some, arith, append_assoc, length-append, length-drop, le→leb,
}
use yangkv_v.Coding.Encode.{encode_varint32_shape}
use yangkv_v.MemEntry.RoundTrip.{reread, reread-shown, decode_mem_entry-code}
use yangkv_v.MemEntry.Storable.{value_code, info_of, IsStorable, code, shown}
use yangkv_v.Coding.{encode_varint32, encode_fixed64}
use yangkv_v.Base.Outcome.{done}
use yangkv_v.Coding.Fixed.{decode_fixed64-encode_fixed64, encode_fixed64_shape}
use yangkv_v.MemEntry.{MemEntry}
use yangkv_v.Log.{Reader, Pread, ReadsAll, read_at, read_record, at_end}
use yangkv_v.Log.Record.{log_record}

pub code-pos : (e : MemEntry) → IsStorable e → 1 ≤ length (code e)
code-pos e h = omega (
  arith,
  length-append (encode_varint32 (e.key.size + 9))
      (take (e.key.size + 1) e.key.ptr ++ (encode_fixed64 (info_of e) ++ value_code e)),
  encode_varint32_shape (e.key.size + 9) h.key_fits,
)

-- The scratch buffer behind the reading of a record.
unfoldable pub scratch_after : List ℕ → MemEntry → List ℕ
scratch_after buf e =
    code e ++ drop (length (code e)) (encode_fixed64 (length (code e)) ++ drop 8 buf)

-- The record fits the scratch buffer.
abbrev pub FitsScratch : List ℕ → MemEntry → Type 0
FitsScratch buf e = length (code e) + 8 ≤ length buf

length-first :
    (e : MemEntry) (buf : List ℕ)
    → FitsScratch buf e
    → length (encode_fixed64 (length (code e)) ++ drop 8 buf) ≡ length buf
length-first e buf h = omega (
  arith,
  (encode_fixed64_shape (length (code e))).0,
  length-append (encode_fixed64 (length (code e))) (drop 8 buf),
  length-drop 8 buf,
)

pub length-scratch_after :
    (buf : List ℕ) (e : MemEntry) → FitsScratch buf e → length (scratch_after buf e) ≡ length buf
unfolding scratch_after
length-scratch_after buf e h =
    let buf₁ = encode_fixed64 (length (code e)) ++ drop 8 buf in
    omega (
      arith,
      length-first e buf h,
      length-append (code e) (drop (length (code e)) buf₁),
      length-drop (length (code e)) buf₁,
    )

module _ (pread : Pread) (reads_all : ReadsAll pread) where
  -- A read of a run of bytes that the file holds at the offset.
  read_at_run :
      (r : Reader) (offset : ℕ) (before run after : List ℕ)
      → r.content ≡ before ++ (run ++ after)
      → offset ≡ length before
      → length run ≤ length r.buf
      → read_at pread r offset (length run)
        ≡ done (
          record { ptr = run ++ drop (length run) r.buf; size = length run },
          run ++ drop (length run) r.buf,
        )
  unfolding read_at
  read_at_run r offset before run after e at fits =
      let answer : pread r.content offset (length run) ≡ some run =
        reads_all r.content offset (length run)
        ∙ rw (e, drop_front offset before (run ++ after) at, take-append run after) in
      rw (answer, le→leb (length run) (length r.buf) fits)

  -- What ReadRecord makes of the record of an entry at its offset.
  pub read_record_lem :
      (r : Reader) (e : MemEntry) (before after : List ℕ)
      → IsStorable e
      → r.content ≡ before ++ (log_record e ++ after)
      → r.offset ≡ length before
      → FitsScratch r.buf e
      → length r.content < 2 ^ 64
      → (at_end r ≡ false)
        × (read_record pread r
            ≡ done (
              reread e (drop (length (code e)) (encode_fixed64 (length (code e)) ++ drop 8 r.buf)),
              record r { offset = length (before ++ log_record e); buf = scratch_after r.buf e },
            ))
  unfolding read_record at_end scratch_after
  read_record_lem r e before after h at offset fits small =
      let len = encode_fixed64 (length (code e)) in
      let eight = (encode_fixed64_shape (length (code e))).0 in
      let split : r.content ≡ before ++ (len ++ (code e ++ after)) =
        at ∙ ap (λ (l : List ℕ). before ++ l) (append_assoc len (code e) after) in
      let split' : r.content ≡ (before ++ len) ++ (code e ++ after) =
        split ∙ sym (append_assoc before len (code e ++ after)) in
      let total : length r.content ≡ length before + (8 + (length (code e) + length after)) =
        omega (
          arith,
          ap (length {A = ℕ}) split,
          length-append before (len ++ (code e ++ after)),
          length-append len (code e ++ after),
          length-append (code e) after,
        ) in
      let buf₁ = len ++ drop 8 r.buf in
      let buf₁_len = length-first e r.buf fits in
      let next : (r.offset + 8 + length (code e)) % 2 ^ 64 ≡ length (before ++ log_record e) =
        omega (arith, length-append before (log_record e), length-append len (code e)) in
      let head = read_at_run r r.offset before len (code e ++ after) split offset (omega arith) in
      let body =
        read_at_run (record r { buf = buf₁ }) ((r.offset + 8) % 2 ^ 64) (before ++ len) (code e)
          after split' (omega (arith, length-append before len)) (omega arith) in
      (
        ground (arith, code-pos e h),
        rw (
          rw eight at head,
          decode_fixed64-encode_fixed64 (length (code e)) (drop 8 r.buf) (omega arith),
          body,
          decode_mem_entry-code e (drop (length (code e)) buf₁) (length (code e)) h,
          next,
        ),
      )

  -- With a pread that reads what the file holds, a reader at the offset of a record of a storable
  -- entry, whose record fits the scratch buffer and whose file is shorter than 2^64 bytes, is not
  -- at its end; ReadRecord answers an entry that says what the written one said and stops right
  -- behind the record.
  pub read_record-log_record :
      (r : Reader) (e : MemEntry) (before after : List ℕ)
      → IsStorable e
      → r.content ≡ before ++ (log_record e ++ after)
      → r.offset ≡ length before
      → length (code e) + 8 ≤ length r.buf
      → length r.content < 2 ^ 64
      → (at_end r ≡ false)
        × (e' : MemEntry) × (r' : Reader) × (read_record pread r ≡ done (e', r'))
        × (shown e' ≡ shown e)
        × (r'.offset ≡ length before + length (log_record e))
        × (r'.content ≡ r.content)
        × (length r'.buf ≡ length r.buf)
  read_record-log_record r e before after h at offset fits small =
      let rest = drop (length (code e)) (encode_fixed64 (length (code e)) ++ drop 8 r.buf) in
      let (more, read) = read_record_lem r e before after h at offset fits small in
      (
        more,
        reread e rest,
        record r { offset = length (before ++ log_record e); buf = scratch_after r.buf e },
        read,
        reread-shown e rest h,
        length-append before (log_record e),
        refl,
        length-scratch_after r.buf e fits,
      )
