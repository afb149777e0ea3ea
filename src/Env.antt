-- ===== src/Env.antt =====
-- utils/env.h and utils/env.cpp: a file that is written through a buffer. The system calls are not
-- part of the program: the answers of the `write` calls to come stand in the file, in order, and what
-- the other calls answer is an argument.
pub mod Buffer
pub mod Progress
pub mod Safe
pub mod Paths
pub mod Names
use yangkv_v.Base.{
  ℕ, ◌+◌, ◌-◌, Bool, true, false, List, [], ◌∷◌, ◌++◌, length, take, drop, ltb, leb, ◌==◌,
  if◌then◌else◌, min,
}
use yangkv_v.Coding.{encode_fixed64}
use yangkv_v.Status.{Status, ok, error}

pub data Answer : Type 0 where
  -- The number of bytes that were written.
  wrote : ℕ → Answer
  -- -1 with errno EINTR, and -1 with another errno.
  interrupted failed : Answer

abbrev pub k_writable_file_buffer_size : ℕ
k_writable_file_buffer_size = 65536

-- `buf` is buf_[0 .. pos_ - 1], so its length is pos_; `disk` is what the descriptor has received.
pub record WritableFile : Type 0 where
  pub buf : List ℕ
  pub disk : List ℕ
  pub answers : List Answer

-- WritableFile(filename, fd) on the empty file that NewWritableFile opens with O_TRUNC.
abbrev pub new_file : List Answer → WritableFile
new_file answers = record { buf = []; disk = []; answers = answers }

-- What a method comes to: it returns a status, it waits for a system call that has not been answered
-- yet, or it writes outside `buf_` or fails an assertion.
pub data Run : Type 0 where
  returns : Status → WritableFile → Run
  waits : Run
  crash : Run

-- A call behind which the method goes on only with a status that is ok.
abbrev on_ok : Run → (WritableFile → Run) → Run
on_ok (returns ok f) k = k f
on_ok (returns s f) k = returns s f
on_ok r k = r

-- The loop of WriteUnbuffered over the bytes that are left.
write_loop : List Answer → List ℕ → List ℕ → List ℕ → Run
write_loop answers [] buf disk = returns ok (record { buf = buf; disk = disk; answers = answers })
write_loop [] (b ∷ bytes) buf disk = waits
write_loop (wrote n ∷ answers) (b ∷ bytes) buf disk =
    write_loop answers (drop n (b ∷ bytes)) buf (disk ++ take n (b ∷ bytes))
write_loop (interrupted ∷ answers) (b ∷ bytes) buf disk = write_loop answers (b ∷ bytes) buf disk
write_loop (failed ∷ answers) (b ∷ bytes) buf disk =
    returns error (record { buf = buf; disk = disk; answers = answers })

unfoldable pub write_unbuffered : List ℕ → WritableFile → Run
unfolding write_loop
write_unbuffered bytes f = write_loop f.answers bytes f.buf f.disk

abbrev emptied : Run → Run
emptied (returns s f) = returns s (record f { buf = [] })
emptied r = r

-- `pos_ = 0` whatever the status is.
unfoldable pub flush_buffer : WritableFile → Run
unfolding write_unbuffered
flush_buffer f = emptied (write_unbuffered f.buf f)

unfoldable pub flush : WritableFile → Run
unfolding flush_buffer
flush f = flush_buffer f

-- AppendSize writes the eight bytes with no look at the room that is left.
unfoldable pub append_size : ℕ → WritableFile → Run
append_size value f =
    if leb (length f.buf + 8) k_writable_file_buffer_size
    then returns ok (record f { buf = f.buf ++ encode_fixed64 value })
    else crash

-- The part of Append behind the first copy, on the bytes that did not fit.
append_rest : List ℕ → WritableFile → Run
append_rest bytes f =
    let flushed = on_ok (flush_buffer f) (λ f'.
      if ltb (length bytes) k_writable_file_buffer_size
      then returns ok (record f' { buf = bytes })
      else write_unbuffered bytes f') in
    if length bytes == 0 then returns ok f else flushed

unfoldable pub append : List ℕ → WritableFile → Run
unfolding append_rest
append bytes f =
    let copy_size = min (length bytes) (k_writable_file_buffer_size - length f.buf) in
    append_rest (drop copy_size bytes) (record f { buf = f.buf ++ take copy_size bytes })

abbrev status_if : Bool → Status → Status
status_if true s = s
status_if false ok = error
status_if false s = s

abbrev with_status : Bool → Run → Run
with_status answer (returns s f) = returns (status_if answer s) f
with_status answer r = r

-- Close; `closed` is whether `::close` succeeds.
unfoldable pub close : Bool → WritableFile → Run
unfolding flush_buffer
close closed f = with_status closed (flush_buffer f)

-- Sync; IsManifest answers false on every name, so SyncDirIfManifest does nothing. `synced` is
-- whether `::fdatasync` succeeds.
unfoldable pub sync : Bool → WritableFile → Run
unfolding flush_buffer
sync synced f = with_status synced (flush_buffer f)
