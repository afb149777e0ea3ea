-- ===== src/TableBuilder/Returned.antt =====
-- What holds where a step of table/table_builder.cpp returns.
use yangkv_v.Base.{
  ℕ, ◌+◌, ◌%◌, ◌^◌, ◌≤◌, ◌≡◌, refl, ap, ◌∙◌, List, ◌++◌, length, append_assoc, true, Bool-cases,
  inl, inr,
}
use yangkv_v.BlockBuilder.{is_gt, BlockBuilder, new_builder, current_size_estimate}
use yangkv_v.Env.{WritableFile, Run, returns, waits, crash, append, k_writable_file_buffer_size}
use yangkv_v.Env.Buffer.{contents, append-contents}
use yangkv_v.Status.{ok, not_found, error, corruption, is_ok}
use yangkv_v.TableBuilder.{
  TableBuilder, Build, built, blocked, broken, with_file, on_built, when_ok, trailer,
  write_raw_block, write_block,
}
use yangkv_v.BlockBuilder

-- What holds where a method returns.
abbrev pub Returns : Build → (TableBuilder → Type 0) → Type 0
Returns (built r) P = P r
Returns blocked P = Unit {0}
Returns broken P = Unit {0}

pub Returns-on_built :
    (b : Build) (k : TableBuilder → Build) (P Q : TableBuilder → Type 0)
    → Returns b P
    → ((r : TableBuilder) → P r → Returns (k r) Q)
    → Returns (on_built b k) Q
Returns-on_built (built r) k P Q h hk = hk r h
Returns-on_built blocked k P Q h hk = tt
Returns-on_built broken k P Q h hk = tt

pub Returns_mono :
    (b : Build) (P Q : TableBuilder → Type 0)
    → ((r : TableBuilder) → P r → Q r)
    → Returns b P
    → Returns b Q
Returns_mono (built r) P Q f h = f r h
Returns_mono blocked P Q f h = tt
Returns_mono broken P Q f h = tt

-- What holds where the status is ok.
abbrev pub Fine : (TableBuilder → Type 0) → TableBuilder → Type 0
Fine P r = is_ok r.status ≡ true → P r

pub Returns-when_ok :
    (b : Build) (k : TableBuilder → Build) (P Q : TableBuilder → Type 0)
    → Returns b (Fine P)
    → ((r : TableBuilder) → is_ok r.status ≡ true → P r → Returns (k r) (Fine Q))
    → Returns (when_ok b k) (Fine Q)
Returns-when_ok (built r) k P Q h hk = elim (Bool-cases (is_ok r.status)) [
  | inl fine ↦ rw fine (hk r fine (h fine))
  | inr failed ↦ simp failed (λ fine. absurd (cc fine))
]
Returns-when_ok blocked k P Q h hk = tt
Returns-when_ok broken k P Q h hk = tt

-- A call on the file, with the step behind it that goes on only where the call answered OK.
Returns-then_run :
    (run : Run) (r : TableBuilder) (k : TableBuilder → Build) (Q : TableBuilder → Type 0)
    → ((f : WritableFile)
        → run ≡ returns ok f
        → Returns (k (record r { file = f; status = ok })) (Fine Q))
    → Returns (when_ok (with_file run r) k) (Fine Q)
Returns-then_run (returns ok f) r k Q h = h f refl
Returns-then_run (returns not_found f) r k Q h = λ fine. absurd (cc fine)
Returns-then_run (returns error f) r k Q h = λ fine. absurd (cc fine)
Returns-then_run (returns corruption f) r k Q h = λ fine. absurd (cc fine)
Returns-then_run waits r k Q h = tt
Returns-then_run crash r k Q h = tt

pub Returns-then_append :
    (bytes : List ℕ) (r : TableBuilder) (k : TableBuilder → Build) (Q : TableBuilder → Type 0)
    → length r.file.buf ≤ k_writable_file_buffer_size
    → ((f : WritableFile)
        → contents f ≡ contents r.file ++ bytes
        → length f.buf ≤ k_writable_file_buffer_size
        → Returns (k (record r { file = f; status = ok })) (Fine Q))
    → Returns (when_ok (with_file (append bytes r.file) r) k) (Fine Q)
Returns-then_append bytes r k Q small h =
    Returns-then_run (append bytes r.file) r k Q
      (λ f e. let (added, small') = append-contents bytes r.file f small e in h f added small')

-- What a block that was written has left.
pub write_raw_block-Returns :
    (bytes : List ℕ) (type : ℕ) (r : TableBuilder) (P : TableBuilder → Type 0)
    → length r.file.buf ≤ k_writable_file_buffer_size
    → ((f : WritableFile)
        → contents f ≡ contents r.file ++ (bytes ++ trailer type)
        → length f.buf ≤ k_writable_file_buffer_size
        → P (record r { file = f; status = ok; offset = (r.offset + (length bytes + 5)) % 2 ^ 64 }))
    → Returns (write_raw_block bytes type r) (Fine P)
unfolding write_raw_block
write_raw_block-Returns bytes type r P small h =
    Returns-then_append bytes r _ P small (λ f added small'.
      Returns-then_append (trailer type) (record r { file = f; status = ok }) _ P small'
        (λ f' added' small''. λ fine.
          h f'
            (added'
              ∙ ap (λ (l : List ℕ). l ++ trailer type) added
              ∙ append_assoc (contents r.file) bytes (trailer type))
            small''))

pub write_block-Returns :
    (block : BlockBuilder) (r : TableBuilder) (P : TableBuilder → Type 0)
    → length r.file.buf ≤ k_writable_file_buffer_size
    → ((f : WritableFile)
        → contents f ≡ contents r.file ++ ((BlockBuilder.finish block).buffer ++ trailer 0)
        → length f.buf ≤ k_writable_file_buffer_size
        → P (record r {
          file = f;
          status = ok;
          offset = (r.offset + (length (BlockBuilder.finish block).buffer + 5)) % 2 ^ 64;
        }))
    → Returns (write_block block r) (Fine P)
unfolding write_block
write_block-Returns block r P small h = elim (Bool-cases (is_ok r.status)) [
  | inl fine ↦ rw fine (write_raw_block-Returns (BlockBuilder.finish block).buffer 0 r P small h)
  | inr failed ↦ rw failed tt
]
