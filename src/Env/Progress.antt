-- ===== src/Env/Progress.antt =====
-- The write loops of utils/env.cpp end with OK when the system goes on accepting bytes.
use yangkv_v.Base.{
  ℕ, zero, suc, ◌+◌, ◌-◌, ◌≤◌, ◌≡◌, inl, inr, refl, ap, ◌∙◌, List, [], ◌∷◌, ◌++◌, length, take,
  drop, min, ltb, ◌==◌, false, arith, Bool-cases, take-append-drop, length-append, length-drop,
}
use yangkv_v.Status.{ok}
use yangkv_v.Env.{
  Answer, wrote, interrupted, failed, WritableFile, returns, write_loop, write_unbuffered,
  flush_buffer, append, append_rest, k_writable_file_buffer_size, emptied,
}

-- How many of the calls to come write a byte at least, before one of them fails.
abbrev pub gives : List Answer → ℕ
gives [] = 0
gives (wrote zero ∷ answers) = gives answers
gives (wrote (suc n) ∷ answers) = suc (gives answers)
gives (interrupted ∷ answers) = gives answers
gives (failed ∷ answers) = 0

-- The file may write what it holds and `n` bytes more.
abbrev pub HasRoom : ℕ → WritableFile → Type 0
HasRoom n f = length f.buf + n ≤ gives f.answers

write_loop_total :
    (answers : List Answer) (bytes buf disk : List ℕ) (n : ℕ)
    → length bytes + n ≤ gives answers
    → (f' : WritableFile) × (write_loop answers bytes buf disk ≡ returns ok f')
      × (n ≤ gives f'.answers)
      × (f'.buf ≡ buf)
unfolding write_loop
write_loop_total answers [] buf disk n h = (_, refl, omega arith, refl)
write_loop_total [] (b ∷ bytes) buf disk n h = absurd (omega arith)
write_loop_total (wrote zero ∷ answers) (b ∷ bytes) buf disk n h =
    write_loop_total answers (b ∷ bytes) buf (disk ++ []) n h
write_loop_total (wrote (suc k) ∷ answers) (b ∷ bytes) buf disk n h =
    write_loop_total answers (drop k bytes) buf (disk ++ (b ∷ take k bytes)) n
      (omega (arith, length-drop k bytes))
write_loop_total (interrupted ∷ answers) (b ∷ bytes) buf disk n h =
    write_loop_total answers (b ∷ bytes) buf disk n h
write_loop_total (failed ∷ answers) (b ∷ bytes) buf disk n h = absurd (omega arith)

pub flush_buffer_total :
    (f : WritableFile) (n : ℕ)
    → HasRoom n f
    → (f' : WritableFile) × (flush_buffer f ≡ returns ok f') × HasRoom n f' × (f'.buf ≡ [])
unfolding flush_buffer
flush_buffer_total f n h =
    let (g, e, more, _) = write_loop_total f.answers f.buf f.buf f.disk n h in
    (record g { buf = [] }, ap emptied e, omega arith, refl)

append_rest_total :
    (bytes : List ℕ) (f : WritableFile) (n : ℕ)
    → HasRoom (length bytes + n) f
    → (f' : WritableFile) × (append_rest bytes f ≡ returns ok f') × HasRoom n f'
unfolding append_rest write_unbuffered
append_rest_total [] f n h = (f, refl, omega arith)
append_rest_total (b ∷ bytes) f n h =
    let more : (length (b ∷ bytes) == 0) ≡ false = ground arith in
    let (g, flushed, room, empty) = flush_buffer_total f (length (b ∷ bytes) + n) h in
    elim (Bool-cases (ltb (length (b ∷ bytes)) k_writable_file_buffer_size)) [
      | inl small ↦ (
        record g { buf = b ∷ bytes },
        rw (more, flushed, small),
        omega (arith, ap (length {A = ℕ}) empty, room),
      )
      | inr large ↦
          let (g', e, left, kept) =
            write_loop_total g.answers (b ∷ bytes) g.buf g.disk n
              (omega (arith, ap (length {A = ℕ}) empty, room)) in
          (g', rw (more, flushed, large) e, omega (arith, left, ap (length {A = ℕ}) (kept ∙ empty)))
    ]

-- Append answers OK, and leaves the calls promised for later, when the calls to come write enough
-- bytes, one at a time at least, before one fails.
pub append_total :
    (bytes : List ℕ) (f : WritableFile) (n : ℕ)
    → HasRoom (length bytes + n) f
    → (f' : WritableFile) × (append bytes f ≡ returns ok f') × HasRoom n f'
unfolding append
append_total bytes f n h =
    let c = min (length bytes) (k_writable_file_buffer_size - length f.buf) in
    append_rest_total (drop c bytes) (record f { buf = f.buf ++ take c bytes }) n
      (omega (
        arith,
        length-append f.buf (take c bytes),
        length-append (take c bytes) (drop c bytes),
        ap (length {A = ℕ}) (take-append-drop c bytes),
      ))
