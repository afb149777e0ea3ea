-- ===== src/TableBuilder/Ensures.antt =====
-- Total statements on the methods of table/table_builder.cpp: what holds where a method returns, a
-- failed assertion counting as a failure.
use yangkv_v.Base.{inr, inl, Bool-cases, ℕ, ◌+◌, ◌≤◌, ◌≡◌, refl, List, length, true, false, arith}
use yangkv_v.BlockBuilder.{BlockBuilder}
use yangkv_v.Env.{WritableFile, Run, returns, waits, crash, append}
use yangkv_v.Env.Safe.{Safe, append-Safe}
use yangkv_v.Status.{Status, ok, not_found, error, corruption, is_ok}
use yangkv_v.TableBuilder.{
  TableBuilder, Build, built, blocked, broken, with_file, on_built, when_ok, write_raw_block,
  write_block, trailer, k_block_trailer_size,
}
use yangkv_v.BlockBuilder

abbrev pub Ensures : Build → (TableBuilder → Type 0) → Type 0
Ensures (built r) P = P r
Ensures blocked P = Unit {0}
Ensures broken P = ⊥

pub Ensures_mono :
    (b : Build) (P Q : TableBuilder → Type 0)
    → ((r : TableBuilder) → P r → Q r)
    → Ensures b P
    → Ensures b Q
Ensures_mono (built r) P Q f h = f r h
Ensures_mono blocked P Q f h = tt
Ensures_mono broken P Q f h = h

pub Ensures-on_built :
    (b : Build) (k : TableBuilder → Build) (P Q : TableBuilder → Type 0)
    → Ensures b P
    → ((r : TableBuilder) → P r → Ensures (k r) Q)
    → Ensures (on_built b k) Q
Ensures-on_built (built r) k P Q h hk = hk r h
Ensures-on_built blocked k P Q h hk = tt
Ensures-on_built broken k P Q h hk = h

pub Ensures-when_ok :
    (b : Build) (k : TableBuilder → Build) (P Q : TableBuilder → Type 0)
    → Ensures b P
    → ((r : TableBuilder) → P r → is_ok r.status ≡ true → Ensures (k r) Q)
    → ((r : TableBuilder) → P r → is_ok r.status ≡ false → Q r)
    → Ensures (when_ok b k) Q
Ensures-when_ok (built r) k P Q h hk hq = elim (Bool-cases (is_ok r.status)) [
  | inl fine ↦ rw fine (hk r h fine)
  | inr failed ↦ rw failed (hq r h failed)
]
Ensures-when_ok blocked k P Q h hk hq = tt
Ensures-when_ok broken k P Q h hk hq = h

-- A call on the file whose status becomes that of the table builder.
pub Ensures-with_file :
    (run : Run) (r : TableBuilder) (P : TableBuilder → Type 0)
    → Safe run
    → ((f : WritableFile) (s : Status) → P (record r { file = f; status = s }))
    → Ensures (with_file run r) P
Ensures-with_file (returns s f) r P safe h = h f s
Ensures-with_file waits r P safe h = tt
Ensures-with_file crash r P safe h = safe

-- The same with a step behind it that goes on only where the call answered OK.
pub Ensures-then_file :
    (run : Run) (r : TableBuilder) (k : TableBuilder → Build) (Q : TableBuilder → Type 0)
    → Safe run
    → ((f : WritableFile) → Ensures (k (record r { file = f; status = ok })) Q)
    → ((f : WritableFile) (s : Status) → is_ok s ≡ false → Q (record r { file = f; status = s }))
    → Ensures (when_ok (with_file run r) k) Q
Ensures-then_file (returns ok f) r k Q safe hk hq = hk f
Ensures-then_file (returns not_found f) r k Q safe hk hq = hq f not_found refl
Ensures-then_file (returns error f) r k Q safe hk hq = hq f error refl
Ensures-then_file (returns corruption f) r k Q safe hk hq = hq f corruption refl
Ensures-then_file waits r k Q safe hk hq = tt
Ensures-then_file crash r k Q safe hk hq = safe

-- Writing a block changes the file, the status and the offset, the offset by the block and its trailer
-- at most.
pub write_raw_block-Ensures :
    (contents : List ℕ) (type : ℕ) (r : TableBuilder) (P : TableBuilder → Type 0)
    → ((f : WritableFile) (s : Status) (o : ℕ)
        → o ≤ r.offset + (length contents + k_block_trailer_size)
        → P (record r { file = f; status = s; offset = o }))
    → Ensures (write_raw_block contents type r) P
unfolding write_raw_block
write_raw_block-Ensures contents type r P h =
    Ensures-then_file (append contents r.file) r _ P (append-Safe contents r.file)
      (λ f.
        Ensures-then_file (append (trailer type) f) (record r { file = f; status = ok }) _ P
          (append-Safe (trailer type) f) (λ f'. h f' ok _ (omega arith))
          (λ f' s bad. h f' s r.offset (omega arith)))
      (λ f s bad. h f s r.offset (omega arith))

pub write_block-Ensures :
    (block : BlockBuilder) (r : TableBuilder) (P : TableBuilder → Type 0)
    → is_ok r.status ≡ true
    → ((f : WritableFile) (s : Status) (o : ℕ)
        → o ≤ r.offset + (length (BlockBuilder.finish block).buffer + k_block_trailer_size)
        → P (record r { file = f; status = s; offset = o }))
    → Ensures (write_block block r) P
unfolding write_block
write_block-Ensures block r P fine h =
    rw fine (write_raw_block-Ensures (BlockBuilder.finish block).buffer _ r P h)
