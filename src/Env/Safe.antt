-- ===== src/Env/Safe.antt =====
-- The methods of utils/env.cpp that cannot crash.
use yangkv_v.Base.{
  Bool, ℕ, ◌-◌, List, [], ◌∷◌, ◌++◌, length, take, drop, min, ltb, ◌==◌, Bool-cases, inl, inr,
}
use yangkv_v.Status.{ok, not_found, error, corruption}
use yangkv_v.Env.{
  Answer, wrote, interrupted, failed, WritableFile, Run, returns, waits, crash, on_ok, emptied,
  write_loop, write_unbuffered, flush_buffer, flush, append_rest, append, close, sync, with_status,
  k_writable_file_buffer_size,
}

abbrev pub Safe : Run → Type 0
Safe (returns s f) = Unit {0}
Safe waits = Unit {0}
Safe crash = ⊥

write_loop-Safe :
    (answers : List Answer) (bytes buf disk : List ℕ) → Safe (write_loop answers bytes buf disk)
unfolding write_loop
write_loop-Safe answers [] buf disk = tt
write_loop-Safe [] (b ∷ bytes) buf disk = tt
write_loop-Safe (wrote n ∷ answers) (b ∷ bytes) buf disk =
    write_loop-Safe answers (drop n (b ∷ bytes)) buf (disk ++ take n (b ∷ bytes))
write_loop-Safe (interrupted ∷ answers) (b ∷ bytes) buf disk =
    write_loop-Safe answers (b ∷ bytes) buf disk
write_loop-Safe (failed ∷ answers) (b ∷ bytes) buf disk = tt

emptied-Safe : (r : Run) → Safe r → Safe (emptied r)
emptied-Safe (returns s f) h = tt
emptied-Safe waits h = tt
emptied-Safe crash h = h

flush_buffer-Safe : (f : WritableFile) → Safe (flush_buffer f)
unfolding flush_buffer write_unbuffered
flush_buffer-Safe f =
    emptied-Safe (write_loop f.answers f.buf f.buf f.disk)
      (write_loop-Safe f.answers f.buf f.buf f.disk)

pub flush-Safe : (f : WritableFile) → Safe (flush f)
unfolding flush
flush-Safe f = flush_buffer-Safe f

with_status-Safe : (answer : Bool) (r : Run) → Safe r → Safe (with_status answer r)
with_status-Safe answer (returns s f) h = tt
with_status-Safe answer waits h = tt
with_status-Safe answer crash h = h

pub close-Safe : (answer : Bool) (f : WritableFile) → Safe (close answer f)
unfolding close
close-Safe answer f = with_status-Safe answer (flush_buffer f) (flush_buffer-Safe f)

pub sync-Safe : (answer : Bool) (f : WritableFile) → Safe (sync answer f)
unfolding sync
sync-Safe answer f = with_status-Safe answer (flush_buffer f) (flush_buffer-Safe f)

on_ok-Safe :
    (r : Run) (k : WritableFile → Run)
    → Safe r
    → ((f : WritableFile) → Safe (k f))
    → Safe (on_ok r k)
on_ok-Safe (returns ok f) k h hk = hk f
on_ok-Safe (returns not_found f) k h hk = tt
on_ok-Safe (returns error f) k h hk = tt
on_ok-Safe (returns corruption f) k h hk = tt
on_ok-Safe waits k h hk = tt
on_ok-Safe crash k h hk = h

append_rest-Safe : (bytes : List ℕ) (f : WritableFile) → Safe (append_rest bytes f)
unfolding append_rest write_unbuffered
append_rest-Safe bytes f = elim (Bool-cases (length bytes == 0)) [
  | inl empty ↦ rw empty tt
  | inr more ↦ rw more (
      on_ok-Safe (flush_buffer f) _ (flush_buffer-Safe f) (λ f'.
        elim (Bool-cases (ltb (length bytes) k_writable_file_buffer_size)) [
          | inl small ↦ rw small tt
          | inr large ↦ rw large (write_loop-Safe f'.answers bytes f'.buf f'.disk)
        ]))
]

pub append-Safe : (bytes : List ℕ) (f : WritableFile) → Safe (append bytes f)
unfolding append
append-Safe bytes f =
    let n = min (length bytes) (k_writable_file_buffer_size - length f.buf) in
    append_rest-Safe (drop n bytes) (record f { buf = f.buf ++ take n bytes })
