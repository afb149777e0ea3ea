-- ===== src/Env/Buffer.antt =====
-- What a WritableFile of utils/env.cpp has written and still holds is what was appended to it.
use yangkv_v.Base.{
  ℕ, ◌+◌, ◌-◌, ◌≤◌, ◌<◌, ◌≡◌, ◌↔◌, inl, inr, refl, sym, ap, ◌∙◌, List, [], ◌∷◌, ◌++◌, length, take,
  drop, min, ltb, leb, ◌==◌, false, arith, Bool-cases, append_assoc, append-nil, take-append-drop,
  length-take, length-append, ltb→lt,
}
use yangkv_v.Env.{
  encode_fixed64, emptied, on_ok, Answer, wrote, interrupted, failed, WritableFile, Run, returns,
  waits, crash, write_loop, write_unbuffered, flush_buffer, append, append_rest, append_size,
  k_writable_file_buffer_size,
}
use yangkv_v.Status.{Status, ok, error, not_found, corruption}
use mathlib.Core.Path.{ap₂}

-- The bytes that the file will hold once the buffer is flushed.
abbrev pub contents : WritableFile → List ℕ
contents f = f.disk ++ f.buf

write_loop_all :
    (answers : List Answer) (bytes buf disk : List ℕ) (f' : WritableFile)
    → write_loop answers bytes buf disk ≡ returns ok f'
    → (f'.disk ≡ disk ++ bytes) × (f'.buf ≡ buf)
unfolding write_loop
write_loop_all answers [] buf disk f' e = ground (arith, append-nil disk)
write_loop_all [] (b ∷ bytes) buf disk f' e = ground arith
write_loop_all (wrote n ∷ answers) (b ∷ bytes) buf disk f' e =
    let (on_disk, kept) =
      write_loop_all answers (drop n (b ∷ bytes)) buf (disk ++ take n (b ∷ bytes)) f' e in
    (
      on_disk
          ∙ append_assoc disk (take n (b ∷ bytes)) (drop n (b ∷ bytes))
          ∙ ap (λ (l : List ℕ). disk ++ l) (take-append-drop n (b ∷ bytes)),
      kept,
    )
write_loop_all (interrupted ∷ answers) (b ∷ bytes) buf disk f' e =
    write_loop_all answers (b ∷ bytes) buf disk f' e
write_loop_all (failed ∷ answers) (b ∷ bytes) buf disk f' e = ground arith

emptied-returns :
    (r : Run) (s : Status) (f' : WritableFile)
    → emptied r ≡ returns s f'
    → (g : WritableFile) × (r ≡ returns s g) × (f' ≡ record g { buf = [] })
emptied-returns (returns t g) s f' e = (g, ground arith, ground arith)
emptied-returns waits s f' e = cc
emptied-returns crash s f' e = cc

on_ok-returns :
    (r : Run) (k : WritableFile → Run) (f' : WritableFile)
    → on_ok r k ≡ returns ok f'
    → (g : WritableFile) × (r ≡ returns ok g) × (k g ≡ returns ok f')
on_ok-returns (returns ok g) k f' e = (g, refl, e)
on_ok-returns (returns not_found g) k f' e = cc
on_ok-returns (returns error g) k f' e = cc
on_ok-returns (returns corruption g) k f' e = cc
on_ok-returns waits k f' e = cc
on_ok-returns crash k f' e = cc

-- A flush that answers OK has put all that the buffer held on the disk, in order, and the buffer is
-- empty.
pub flush_buffer-contents :
    (f f' : WritableFile) → flush_buffer f ≡ returns ok f' → (f'.disk ≡ contents f) × (f'.buf ≡ [])
unfolding flush_buffer
flush_buffer-contents f f' e =
    let (g, wrote_all, left) = emptied-returns (write_loop f.answers f.buf f.buf f.disk) ok f' e in
    let (on_disk, _) = write_loop_all f.answers f.buf f.buf f.disk g wrote_all in
    (ap (λ (h : WritableFile). h.disk) left ∙ on_disk, ap (λ (h : WritableFile). h.buf) left)

returned : {s : Status} {f g : WritableFile} → returns s f ≡ returns s g → f ≡ g
returned e = cc

append_rest-contents :
    (bytes : List ℕ) (f f' : WritableFile)
    → length f.buf ≤ k_writable_file_buffer_size
    → append_rest bytes f ≡ returns ok f'
    → (contents f' ≡ contents f ++ bytes) × (length f'.buf ≤ k_writable_file_buffer_size)
unfolding append_rest write_unbuffered
append_rest-contents [] f f' h e = ground (arith, append-nil (contents f))
append_rest-contents (b ∷ bytes) f f' h e =
    let more : (length (b ∷ bytes) == 0) ≡ false = ground arith in
    let (g, flushed, written) = on_ok-returns (flush_buffer f) _ f' (rw more at e) in
    let (on_disk, empty) = flush_buffer-contents f g flushed in
    elim (Bool-cases (ltb (length (b ∷ bytes)) k_writable_file_buffer_size)) [
      | inl small ↦
          let e' : record g { buf = b ∷ bytes } ≡ f' = returned (rw small at written) in
          (
            ap contents (sym e') ∙ ap (λ (l : List ℕ). l ++ (b ∷ bytes)) on_disk,
            omega (
              arith,
              ap (λ (h : WritableFile). length h.buf) e',
              ltb→lt (length (b ∷ bytes)) k_writable_file_buffer_size small,
            ),
          )
      | inr large ↦
          let (d, k) = write_loop_all g.answers (b ∷ bytes) g.buf g.disk f' (rw large at written) in
          (
            ap₂ (λ (x y : List ℕ). x ++ y) (d ∙ ap (λ (l : List ℕ). l ++ (b ∷ bytes)) on_disk)
                  (k ∙ empty)
                ∙ append-nil (contents f ++ (b ∷ bytes)),
            omega (arith, ap (length {A = ℕ}) (k ∙ empty)),
          )
    ]

regroup :
    (disk buf front back bytes : List ℕ)
    → front ++ back ≡ bytes
    → (disk ++ (buf ++ front)) ++ back ≡ (disk ++ buf) ++ bytes
regroup disk buf front back bytes e =
    ap (λ (l : List ℕ). l ++ back) (sym (append_assoc disk buf front))
    ∙ append_assoc (disk ++ buf) front back
    ∙ ap (λ (l : List ℕ). (disk ++ buf) ++ l) e

-- An Append that answers OK on a buffer within its size has added exactly its bytes behind what
-- disk and buffer held, and the buffer stays within its size.
pub append-contents :
    (bytes : List ℕ) (f f' : WritableFile)
    → length f.buf ≤ k_writable_file_buffer_size
    → append bytes f ≡ returns ok f'
    → (contents f' ≡ contents f ++ bytes) × (length f'.buf ≤ k_writable_file_buffer_size)
unfolding append
append-contents bytes f f' h e =
    let n = min (length bytes) (k_writable_file_buffer_size - length f.buf) in
    let f₁ : WritableFile = record f { buf = f.buf ++ take n bytes } in
    let room : length f₁.buf ≤ k_writable_file_buffer_size =
      omega (arith, length-append f.buf (take n bytes), length-take n bytes) in
    let (kept, small) = append_rest-contents (drop n bytes) f₁ f' room e in
    (
      kept ∙ regroup f.disk f.buf (take n bytes) (drop n bytes) bytes (take-append-drop n bytes),
      small,
    )

absurd_crash : {A : Type 0} {s : Status} {f : WritableFile} → crash ≡ returns s f → A
absurd_crash e = absurd (cc e)

-- AppendSize adds the eight bytes of the size to what the file holds where it answers OK, and
-- writes outside the buffer exactly when fewer than eight bytes are left in it.
pub append_size_lem :
    (value : ℕ) (f : WritableFile)
    → ((f' : WritableFile)
        → append_size value f ≡ returns ok f'
        → contents f' ≡ contents f ++ encode_fixed64 value)
      × ((append_size value f ≡ crash) ↔ (k_writable_file_buffer_size < length f.buf + 8))
unfolding append_size
append_size_lem value f = (
  λ f' e. elim (Bool-cases (leb (length f.buf + 8) k_writable_file_buffer_size)) [
    | inl room ↦
        ap contents (sym (returned (rw room at e)))
        ∙ sym (append_assoc f.disk f.buf (encode_fixed64 value))
    | inr full ↦ absurd_crash (rw full at e)
  ],
  ground arith,
)
