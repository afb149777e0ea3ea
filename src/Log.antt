-- ===== src/Log.antt =====
-- utils/logwriter.cpp and utils/logreader.cpp: the log that a writer keeps of what is pushed to it.
pub mod Record
pub mod RoundTrip
use yangkv_v.Base.{
  ℕ, ◌+◌, ◌%◌, ◌^◌, ◌≡◌, List, ◌++◌, length, take, drop, leb, Bool, if◌then◌else◌, Option, none,
  some,
}
use yangkv_v.Base.Outcome.{Outcome, done, fault, ◌>>=◌}
use yangkv_v.Slice.{Slice}
use yangkv_v.Coding.{decode_fixed64}
use yangkv_v.MemEntry.{MemEntry, encode_mem_entry, decode_mem_entry}
use yangkv_v.Status.{ok}
use yangkv_v.Env.{WritableFile, Run, returns, crash, append_size, append, flush}

-- A call whose status is overwritten by the next call, and one behind which `assert(s.ok())` stands.
abbrev pub and_then : Run → (WritableFile → Run) → Run
and_then (returns s f) k = k f
and_then r k = r

abbrev and_assert : Run → (WritableFile → Run) → Run
and_assert (returns ok f) k = k f
and_assert (returns _ f) k = crash
and_assert r k = r

abbrev write_record : Outcome Slice → WritableFile → Run
write_record (done slice) f = and_then (append_size slice.size f) (λ f₁.
    and_assert (append (take slice.size slice.ptr) f₁)
      (λ f₂. and_assert (flush f₂) (λ f₃. returns ok f₃)))
write_record _ f = crash

-- log::Writer::AddRecord
unfoldable pub add_record : MemEntry → WritableFile → Run
add_record entry f = write_record (encode_mem_entry entry) f

abbrev pub k_max_record_size : ℕ
k_max_record_size = 100000

-- log::Reader over a file whose bytes are `content`; `buf` is what the scratch buffer holds.
pub record Reader : Type 0 where
  pub content : List ℕ
  pub offset : ℕ
  pub buf : List ℕ

abbrev pub new_reader : List ℕ → List ℕ → Reader
new_reader content scratch = record { content = content; offset = 0; buf = scratch }

-- Reader::end
unfoldable pub at_end : Reader → Bool
at_end r = leb (length r.content) (r.offset + 4)

-- `pread`, by the bytes of the file, the offset and the number of bytes wanted; `none` is -1.
abbrev pub Pread : Type 0
Pread = List ℕ → ℕ → ℕ → Option (List ℕ)

-- A read of a regular file: the bytes from the offset on, as many as wanted or as there are.
abbrev pub ReadsAll : Pread → Type 0
ReadsAll pread =
    (content : List ℕ) (offset n : ℕ) → pread content offset n ≡ some (take n (drop offset content))

-- What a read leaves in the scratch buffer, and how many bytes it is said to have read.
abbrev overlay : Option (List ℕ) → List ℕ → List ℕ
overlay none buf = buf
overlay (some bytes) buf = bytes ++ drop (length bytes) buf

abbrev got : Option (List ℕ) → ℕ
got none = 0
got (some bytes) = length bytes

module _ (pread : Pread) where
  -- RandomAccessFile::Read into the scratch buffer.
  read_at : Reader → ℕ → ℕ → Outcome (Slice × List ℕ)
  read_at r offset n =
      let answer = pread r.content offset n in
      let buf' = overlay answer r.buf in
      if leb (got answer) (length r.buf)
      then done (record { ptr = buf'; size = got answer }, buf')
      else fault

  -- Reader::ReadRecord: ReadSize puts eight bytes into the scratch buffer and takes a size_t from it,
  -- whatever was read; the status of Read is not looked at either.
  unfoldable pub read_record : Reader → Outcome (MemEntry × Reader)
  unfolding read_at
  read_record r = do
    (_, buf₁) ← read_at r r.offset 8
    record_size ← decode_fixed64 buf₁
    (slice, buf₂) ← read_at (record r { buf = buf₁ }) ((r.offset + 8) % 2 ^ 64) record_size
    entry ← decode_mem_entry slice
    done (entry, record r { offset = (r.offset + 8 + record_size) % 2 ^ 64; buf = buf₂ })
