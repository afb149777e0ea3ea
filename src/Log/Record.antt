-- ===== src/Log/Record.antt =====
-- AddRecord of utils/logwriter.cpp puts a record on the disk as a whole.
use yangkv_v.Base.{
  take_all, ℕ, ◌+◌, ◌≡◌, ap, ◌∙◌, List, [], ◌++◌, length, leb, true, arith, append_assoc,
}
use yangkv_v.Coding.Fixed.{encode_fixed64_shape}
use yangkv_v.Status.{ok}
use yangkv_v.Coding.{encode_fixed64}
use yangkv_v.MemEntry.{MemEntry}
use yangkv_v.MemEntry.Storable.{IsStorable, code, encode_mem_entry-code}
use yangkv_v.Env.{WritableFile, returns, append_size, flush}
use yangkv_v.Env.Progress.{HasRoom, append_total, flush_buffer_total}
use yangkv_v.Env.Buffer.{append-contents, flush_buffer-contents}
use yangkv_v.Log.{add_record}
use native.Mathlib.Nat.{le_refl}

-- The length of the encoding in eight bytes, and the encoding.
abbrev pub log_record : MemEntry → List ℕ
log_record e = encode_fixed64 (length (code e)) ++ code e

append_size_empty :
    (v : ℕ) (f : WritableFile)
    → f.buf ≡ []
    → append_size v f ≡ returns ok (record f { buf = encode_fixed64 v })
unfolding append_size
append_size_empty v f e =
    let room : leb (length f.buf + 8) 65536 ≡ true = ground (arith, ap (length {A = ℕ}) e) in
    rw room (ap (λ (l : List ℕ). returns ok (record f { buf = l ++ encode_fixed64 v })) e)

-- On a storable entry, with an empty buffer and a system that accepts the bytes, AddRecord answers
-- OK, the record stands on the disk behind what stood there, and the buffer is empty.
pub add_record_lem :
    (e : MemEntry) (f : WritableFile) (n : ℕ)
    → IsStorable e
    → f.buf ≡ []
    → HasRoom (8 + length (code e) + n) f
    → (f' : WritableFile) × (add_record e f ≡ returns ok f')
      × (f'.disk ≡ f.disk ++ log_record e)
      × (f'.buf ≡ [])
      × HasRoom n f'
unfolding add_record flush
add_record_lem e f n h empty room =
    let f₁ : WritableFile = record f { buf = encode_fixed64 (length (code e)) } in
    let eight = (encode_fixed64_shape (length (code e))).0 in
    let (f₂, appended, room₂) =
      append_total (code e) f₁ n (omega (arith, ap (length {A = ℕ}) empty)) in
    let (kept, _) = append-contents (code e) f₁ f₂ (omega arith) appended in
    let (f₃, flushed, room₃, empty₃) = flush_buffer_total f₂ n room₂ in
    let (on_disk, _) = flush_buffer-contents f₂ f₃ flushed in
    (
      f₃,
      rw (
        encode_mem_entry-code e h,
        append_size_empty (length (code e)) f empty,
        take_all (length (code e)) (code e) (le_refl (length (code e))),
        appended,
        flushed,
      ),
      on_disk ∙ kept ∙ append_assoc f.disk (encode_fixed64 (length (code e))) (code e),
      empty₃,
      room₃,
    )
