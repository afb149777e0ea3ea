-- ===== src/TableBuilder/Asserts.antt =====
-- When a builder of table/table_builder.cpp is well formed, and what Flush makes of it.
use yangkv_v.Base.{
  ℕ, ◌+◌, ◌^◌, ◌≤◌, ◌<◌, ◌≡◌, ◌≢◌, ◌⊎◌, inl, refl, List, [], length, Bool, true, false, arith,
}
use yangkv_v.BlockBuilder.{BlockBuilder, new_builder, current_size_estimate}
use yangkv_v.BlockBuilder.Growth.{IsOpen, new_builder-IsOpen, Follows}
use yangkv_v.BlockBuilder.Restarts.{current_size_estimate-finish}
use yangkv_v.Coding.{IsU32}
use yangkv_v.Env.{WritableFile}
use yangkv_v.Env.Safe.{flush-Safe}
use yangkv_v.Format.RoundTrip.{IsAssigned}
use yangkv_v.Map.{key_compare}
use yangkv_v.Status.{Status, is_ok}
use yangkv_v.TableBuilder.{
  TableBuilder, k_block_size, handle_at, write_block, flush_block, is_empty,
}
use yangkv_v.TableBuilder.Ensures.{
  Ensures, Ensures-on_built, Ensures-when_ok, Ensures-with_file, write_block-Ensures,
}
use Prim.Native.Nat.{lt}
use yangkv_v.Env

-- A table builder between two calls; `limit` is above the size of the data block.
pub record IsWell (limit : ℕ) (r : TableBuilder) : Type 0 where
  pub data_open : IsOpen 16 r.data_block
  pub index_open : IsOpen 1 r.index_block
  pub flushed : r.pending_index_entry ≡ true → r.data_block.buffer ≡ []
  pub data_last : (r.data_block.buffer ≡ []) ⊎ (r.data_block.last_key ≡ r.last_key)
  pub index_last : Follows r.last_key r.index_block
  pub assigned : r.pending_index_entry ≡ true → IsAssigned r.pending_handle
  pub none_yet :
      r.num_entries ≡ 0
      → (r.data_block.buffer ≡ []) × (r.index_block.buffer ≡ []) × (r.pending_index_entry ≡ false)
  pub data_size : current_size_estimate r.data_block < limit
  pub short : IsU32 (length r.last_key)

-- The key is the first, or greater than the last.
abbrev pub Comes : List ℕ → TableBuilder → Type 0
Comes key r = (r.num_entries ≡ 0) ⊎ (key_compare r.last_key key ≡ lt)

-- What an Add or a Flush leaves as it was, and by how much it moves the offset.
pub record Frames (r : TableBuilder) (n : ℕ) (r' : TableBuilder) : Type 0 where
  pub closed : r'.closed ≡ r.closed
  pub last_key : r'.last_key ≡ r.last_key
  pub num_entries : r'.num_entries ≡ r.num_entries
  pub index_block : r'.index_block ≡ r.index_block
  pub offset : r'.offset ≤ r.offset + n

pub not_empty : (b : BlockBuilder) → 1 ≤ length b.buffer → is_empty b ≡ false
not_empty b h = ground arith

-- Behind the write of its block, the builder is well again.
reset-IsWell :
    (limit : ℕ) (r : TableBuilder) (f : WritableFile) (s : Status) (o : ℕ) (pending : Bool)
    → limit ≤ 2 ^ 62
    → r.offset < 2 ^ 63
    → r.num_entries ≢ 0
    → IsWell limit r
    → IsWell k_block_size (record r {
      file = f;
      status = s;
      offset = o;
      data_block = new_builder;
      pending_handle = handle_at r.data_block r;
      pending_index_entry = pending;
    })
unfolding current_size_estimate
reset-IsWell limit r f s o pending small room some_entries w = record {
  data_open = new_builder-IsOpen 16;
  index_open = w.index_open;
  flushed = λ p. refl;
  data_last = inl refl;
  index_last = w.index_last;
  assigned = λ p. record {
    offset_set = omega arith;
    size_set = omega (arith, current_size_estimate-finish r.data_block, w.data_size);
  };
  none_yet = λ z. absurd (some_entries z);
  data_size = omega arith;
  short = w.short;
}

abbrev Reset : TableBuilder → ℕ → TableBuilder → Type 0
Reset r n r₁ =
    IsWell k_block_size r₁
    × Frames r n r₁
    × ((f : WritableFile) (s : Status)
        → IsWell k_block_size (record r₁ { file = f; status = s; pending_index_entry = true }))

pub flush_block-IsWell :
    (limit : ℕ) (r : TableBuilder)
    → limit ≤ 2 ^ 62
    → r.offset < 2 ^ 63
    → r.num_entries ≢ 0
    → is_ok r.status ≡ true
    → r.pending_index_entry ≡ false
    → IsWell limit r
    → Ensures (flush_block r) (λ r'. IsWell k_block_size r' × Frames r (limit + 5) r')
unfolding flush_block
flush_block-IsWell limit r small room some_entries fine free w =
    Ensures-when_ok _ _ (Reset r (limit + 5)) _
      (Ensures-on_built (write_block r.data_block r) _
        (λ r₁.
          Reset r (limit + 5)
            (record r₁ { data_block = new_builder; pending_handle = handle_at r.data_block r }))
        _
        (write_block-Ensures r.data_block r _ fine (λ f s o h. (
          reset-IsWell limit r f s o r.pending_index_entry small room some_entries w,
          record {
            closed = refl;
            last_key = refl;
            num_entries = refl;
            index_block = refl;
            offset = omega (arith, current_size_estimate-finish r.data_block, w.data_size);
          },
          λ f' s'. reset-IsWell limit r f' s' o true small room some_entries w,
        )))
        (λ r₁ h. h))
      (λ r₂ (well, frames, reset) ok_now.
        Ensures-with_file (Env.flush r₂.file) (record r₂ { pending_index_entry = true }) _
          (flush-Safe r₂.file)
          (λ f s. (
            reset f s,
            record {
              closed = frames.closed;
              last_key = frames.last_key;
              num_entries = frames.num_entries;
              index_block = frames.index_block;
              offset = frames.offset;
            },
          )))
      (λ r₂ (well, frames, reset) failed. (well, frames))
