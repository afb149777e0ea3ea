-- ===== src/Tests/Files.antt =====
-- Runs of the files of utils/env.cpp and of the logs of utils/logwriter.cpp and utils/logreader.cpp.
use yangkv_v.Base.{
  drop, take, some, ◌+◌, ◌≤◌, ◌≡◌, [], ◌∷◌, ◌++◌, length, replicate, refl, arith, false,
}
use yangkv_v.Base.Outcome.{done}
use yangkv_v.Coding.{encode_fixed64, encode_varint32}
use yangkv_v.MemEntry.{MemEntry, of_strings}
use yangkv_v.MemEntry.Storable.{IsStorable, shown}
use yangkv_v.Status.{ok}
use yangkv_v.Env.{
  wrote, interrupted, WritableFile, returns, append, flush_buffer, k_writable_file_buffer_size,
}
use yangkv_v.Env.Buffer.{contents, append-contents}
use yangkv_v.Env.Progress.{HasRoom, append_total}
use yangkv_v.Log.{add_record, Reader, Pread, read_record, at_end}
use yangkv_v.Log.Record.{log_record, add_record_lem}
use yangkv_v.Log.RoundTrip.{read_record-log_record}

-- One byte in the buffer; the system takes 2 bytes, is interrupted, and takes 9 more.
abbrev file : WritableFile
file = record { buf = 1 ∷ []; disk = []; answers = wrote 2 ∷ interrupted ∷ wrote 9 ∷ [] }

abbrev longer_file : WritableFile
longer_file = record { buf = 1 ∷ 7 ∷ 8 ∷ []; disk = []; answers = file.answers }

append-longer_file : append (7 ∷ 8 ∷ []) file ≡ returns ok longer_file
unfolding append
append-longer_file = refl

append-contents_example :
    (contents longer_file ≡ contents file ++ 7 ∷ 8 ∷ [])
    × (length longer_file.buf ≤ k_writable_file_buffer_size)
append-contents_example =
    append-contents (7 ∷ 8 ∷ []) file longer_file (omega arith) append-longer_file

abbrev full_file : WritableFile
full_file = record {
  buf = 1 ∷ 2 ∷ 3 ∷ [];
  disk = [];
  answers = wrote 2 ∷ interrupted ∷ wrote 9 ∷ [];
}

abbrev flushed_file : WritableFile
flushed_file = record { buf = []; disk = 1 ∷ 2 ∷ 3 ∷ []; answers = [] }

flush_full_file : flush_buffer full_file ≡ returns ok flushed_file
unfolding flush_buffer
flush_full_file = refl

-- The system takes one byte at a time.
abbrev slow_file : WritableFile
slow_file = record { buf = 1 ∷ []; disk = []; answers = replicate 9 (wrote 1) }

append_total_example :
    (f' : WritableFile) × (append (7 ∷ 8 ∷ []) slow_file ≡ returns ok f') × HasRoom 4 f'
append_total_example = append_total (7 ∷ 8 ∷ []) slow_file 4 (omega arith)

abbrev entry : MemEntry
entry = of_strings (107 ∷ []) (118 ∷ []) 5 false

entry-IsStorable : IsStorable entry
entry-IsStorable = record {
  key_room = omega arith;
  value_room = omega arith;
  key_fits = omega arith;
  value_fits = omega arith;
  seq_fits = omega arith;
}

abbrev log_file : WritableFile
log_file = record { buf = []; disk = 9 ∷ []; answers = replicate 40 (wrote 1) }

add_record_lem_example :
    (f' : WritableFile) × (add_record entry log_file ≡ returns ok f')
    × (f'.disk ≡ log_file.disk ++ log_record entry)
    × (f'.buf ≡ [])
    × HasRoom 1 f'
unfolding encode_varint32 encode_fixed64
add_record_lem_example = add_record_lem entry log_file 1 entry-IsStorable refl (omega arith)

-- `pread` as the documentation has it.
abbrev reads : Pread
reads content offset n = some (take n (drop offset content))

abbrev reader : Reader
reader = record { content = 9 ∷ [] ++ (log_record entry ++ []); offset = 1; buf = replicate 30 0 }

read_record-log_record_example :
    (at_end reader ≡ false)
    × (e' : MemEntry) × (r' : Reader) × (read_record reads reader ≡ done (e', r'))
    × (shown e' ≡ shown entry)
    × (r'.offset ≡ 1 + length (log_record entry))
    × (r'.content ≡ reader.content)
    × (length r'.buf ≡ length reader.buf)
unfolding encode_varint32 encode_fixed64
read_record-log_record_example =
    read_record-log_record reads (λ content offset n. refl) reader entry (9 ∷ []) []
      entry-IsStorable refl refl (omega arith) (omega arith)
