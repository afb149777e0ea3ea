-- ===== src/TableBuilder/Counted.antt =====
-- The offset of table/table_builder.cpp and the bytes of its file.
use yangkv_v.Base.{
  ℕ, ◌+◌, ◌%◌, ◌^◌, ◌≤◌, ◌≡◌, refl, ap, ◌∙◌, List, ◌++◌, length, length-append, append-nil, arith,
}
use yangkv_v.Coding.{encode_fixed32}
use yangkv_v.Env.{WritableFile, Run, returns, waits, crash, append, k_writable_file_buffer_size}
use yangkv_v.Env.Buffer.{contents, flush_buffer-contents}
use yangkv_v.Status.{ok, not_found, error, corruption}
use yangkv_v.TableBuilder.{TableBuilder, with_file, trailer}
use yangkv_v.TableBuilder.Returned.{Fine, Returns}
use yangkv_v.Env

-- The offset is the number of the bytes that the file has been given.
pub record IsCounted (r : TableBuilder) : Type 0 where
  pub counts : r.offset ≡ length (contents r.file) % 2 ^ 64
  pub small : length r.file.buf ≤ k_writable_file_buffer_size

pub length-block :
    (c bytes : List ℕ) (type o : ℕ) (l : List ℕ)
    → l ≡ c ++ (bytes ++ trailer type)
    → o ≡ length c % 2 ^ 64
    → (o + (length bytes + 5)) % 2 ^ 64 ≡ length l % 2 ^ 64
unfolding encode_fixed32
length-block c bytes type o l e h = omega (
  arith,
  ap (length {A = ℕ}) e,
  length-append c (bytes ++ trailer type),
  length-append bytes (trailer type),
)

Returns-run :
    (run : Run) (r : TableBuilder) (P : TableBuilder → Type 0)
    → ((f : WritableFile) → run ≡ returns ok f → P (record r { file = f; status = ok }))
    → Returns (with_file run r) (Fine P)
Returns-run (returns ok f) r P h = λ fine. h f refl
Returns-run (returns not_found f) r P h = λ fine. absurd (cc fine)
Returns-run (returns error f) r P h = λ fine. absurd (cc fine)
Returns-run (returns corruption f) r P h = λ fine. absurd (cc fine)
Returns-run waits r P h = tt
Returns-run crash r P h = tt

flush-contents :
    (f g : WritableFile)
    → Env.flush f ≡ returns ok g
    → (contents g ≡ contents f) × (length g.buf ≤ k_writable_file_buffer_size)
unfolding Env.flush
flush-contents f g e =
    let (on_disk, empty) = flush_buffer-contents f g e in
    (
      ap (λ (l : List ℕ). g.disk ++ l) empty ∙ append-nil g.disk ∙ on_disk,
      omega (arith, ap (length {A = ℕ}) empty),
    )

pub Returns-flush :
    (r : TableBuilder) (P : TableBuilder → Type 0)
    → length r.file.buf ≤ k_writable_file_buffer_size
    → ((f : WritableFile)
        → contents f ≡ contents r.file
        → length f.buf ≤ k_writable_file_buffer_size
        → P (record r { file = f; status = ok }))
    → Returns (with_file (Env.flush r.file) r) (Fine P)
Returns-flush r P small h =
    Returns-run (Env.flush r.file) r P
      (λ f e. let (kept, small') = flush-contents r.file f e in h f kept small')
