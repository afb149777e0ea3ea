-- ===== src/TableBuilder.antt =====
-- table/table_builder.h and table/table_builder.cpp: a table file, made of blocks. The keys and values
-- are the bytes that the slices show; the options are those that Options() of utils/option.h sets, and
-- the commented-out filter block is not there.
pub mod Ensures
pub mod Asserts
pub mod Indexed
pub mod Rising
pub mod LastIndex
pub mod Finished
pub mod Held
pub mod Blocks
pub mod Returned
pub mod Counted
pub mod Whole
pub mod Stored
pub mod Ended
pub mod Opened
use yangkv_v.Base.{
  ℕ, ◌+◌, ◌%◌, ◌^◌, ltb, leb, ◌==◌, ◌&&◌, not, Bool, true, false, List, [], ◌∷◌, length,
  if◌then◌else◌,
}
use yangkv_v.Base.Outcome.{Outcome, done, ◌>>=◌}
use yangkv_v.BlockBuilder.{BlockBuilder, new_builder, current_size_estimate, is_gt}
use yangkv_v.Coding.{encode_fixed32}
use yangkv_v.Comparator.{find_shortest_separator, find_short_successor}
use yangkv_v.Env.{WritableFile, Run, returns, waits, crash, append}
use yangkv_v.Format.{BlockHandle, new_handle, encode_handle, encode_footer}
use yangkv_v.Map.{key_compare}
use yangkv_v.Status.{Status, ok, is_ok}
use yangkv_v.BlockBuilder
use yangkv_v.Env

abbrev pub k_block_size : ℕ
k_block_size = 4096

abbrev pub k_block_restart_interval : ℕ
k_block_restart_interval = 16

abbrev pub k_no_compression : ℕ
k_no_compression = 0

abbrev pub k_block_trailer_size : ℕ
k_block_trailer_size = 5

-- struct Rep, less the options; num_entries is taken not to run over.
pub record TableBuilder : Type 0 where
  pub file : WritableFile
  pub offset : ℕ
  pub status : Status
  pub data_block : BlockBuilder
  pub index_block : BlockBuilder
  pub last_key : List ℕ
  pub num_entries : ℕ
  pub closed : Bool
  pub pending_index_entry : Bool
  pub pending_handle : BlockHandle

-- TableBuilder(options, file)
abbrev pub new_table : WritableFile → TableBuilder
new_table file = record {
  file = file;
  offset = 0;
  status = ok;
  data_block = new_builder;
  index_block = new_builder;
  last_key = [];
  num_entries = 0;
  closed = false;
  pending_index_entry = false;
  pending_handle = new_handle;
}

-- What a method comes to: it returns, it waits for a system call that has not been answered yet, or
-- it fails an assertion.
pub data Build : Type 0 where
  built : TableBuilder → Build
  blocked : Build
  broken : Build

abbrev pub with_file : Run → TableBuilder → Build
with_file (returns s f) r = built (record r { file = f; status = s })
with_file waits r = blocked
with_file crash r = broken

abbrev pub on_built : Build → (TableBuilder → Build) → Build
on_built (built r) k = k r
on_built blocked k = blocked
on_built broken k = broken

-- A step behind `if (ok())`.
abbrev pub when_ok : Build → (TableBuilder → Build) → Build
when_ok b k = on_built b (λ r. if is_ok r.status then k r else built r)

-- The type of the block and four bytes in the place of a checksum.
abbrev pub trailer : ℕ → List ℕ
trailer type = type ∷ encode_fixed32 0

-- WriteRawBlock, less the handle.
unfoldable pub write_raw_block : List ℕ → ℕ → TableBuilder → Build
write_raw_block contents type r = when_ok (with_file (append contents r.file) r) (λ r₁.
    when_ok (with_file (append (trailer type) r₁.file) r₁) (λ r₂.
      built
        (record r₂ { offset = (r₂.offset + (length contents + k_block_trailer_size)) % 2 ^ 64 })))

-- The handle that WriteRawBlock sets.
abbrev pub handle_at : BlockBuilder → TableBuilder → BlockHandle
handle_at block r = record { offset = r.offset; size = length (BlockBuilder.finish block).buffer }

-- WriteBlock; its caller resets the block.
unfoldable pub write_block : BlockBuilder → TableBuilder → Build
write_block block r =
    if is_ok r.status
    then write_raw_block (BlockBuilder.finish block).buffer k_no_compression r
    else broken

abbrev pub is_empty : BlockBuilder → Bool
is_empty b = length b.buffer == 0

-- The part of Flush behind its early returns.
unfoldable pub flush_block : TableBuilder → Build
flush_block r =
    when_ok
      (on_built (write_block r.data_block r) (λ r₁.
        built (record r₁ { data_block = new_builder; pending_handle = handle_at r.data_block r })))
      (λ r₂. with_file (Env.flush r₂.file) (record r₂ { pending_index_entry = true }))

unfoldable pub flush : TableBuilder → Build
flush r =
    if r.closed
    then broken
    else if not (is_ok r.status)
    then built r
    else if is_empty r.data_block
    then built r
    else if r.pending_index_entry
    then broken
    else flush_block r

abbrev pub with_index : Outcome BlockBuilder → TableBuilder → Build
with_index (done b) r = built (record r { index_block = b })
with_index _ r = broken

-- An entry of the index block for the pending handle.
unfoldable pub put_index : List ℕ → TableBuilder → Build
put_index short r =
    with_index
      (do code ← encode_handle [] r.pending_handle; BlockBuilder.add 1 short code r.index_block)
      (record r { last_key = short; pending_index_entry = false })

-- The part of Add that gives the last block its entry in the index.
unfoldable pub index_before : List ℕ → TableBuilder → Build
index_before key r =
    if r.pending_index_entry
    then (if is_empty r.data_block
        then put_index (find_shortest_separator r.last_key key) r
        else broken)
    else built r

abbrev pub with_data : Outcome BlockBuilder → TableBuilder → Build
with_data (done b) r = built (record r { data_block = b })
with_data _ r = broken

unfoldable pub add_entry : List ℕ → List ℕ → TableBuilder → Build
add_entry key value r =
    with_data (BlockBuilder.add k_block_restart_interval key value r.data_block)
      (record r { last_key = key; num_entries = r.num_entries + 1 })

abbrev pub flush_full : TableBuilder → Build
flush_full r = if leb k_block_size (current_size_estimate r.data_block) then flush r else built r

unfoldable pub add : List ℕ → List ℕ → TableBuilder → Build
add key value r =
    if r.closed
    then broken
    else if not (is_ok r.status)
    then built r
    else if ltb 0 r.num_entries && not (is_gt (key_compare key r.last_key))
    then broken
    else on_built (index_before key r) (λ r₁. on_built (add_entry key value r₁) flush_full)

-- The part of Finish that gives the last block its entry in the index.
unfoldable pub index_last : TableBuilder → Build
index_last r =
    if r.pending_index_entry then put_index (find_short_successor r.last_key) r else built r

-- The footer, and the size of its encoding on the offset.
abbrev pub with_footer : Outcome (List ℕ) → TableBuilder → Build
with_footer (done code) r =
    when_ok (with_file (append code r.file) r)
      (λ r'. built (record r' { offset = (r'.offset + length code) % 2 ^ 64 }))
with_footer _ r = broken

-- The part of Finish that writes the index block and the footer.
unfoldable pub write_index : BlockHandle → TableBuilder → Build
write_index metaindex r =
    when_ok
      (on_built (write_block r.index_block r)
        (λ r₁. built (record r₁ { index_block = new_builder })))
      (with_footer (
        encode_footer []
          (record { metaindex_handle = metaindex; index_handle = handle_at r.index_block r })))

-- The part of Finish behind Flush.
unfoldable pub finish_closed : TableBuilder → Build
finish_closed r =
    let rest =
      when_ok (write_block new_builder r)
        (λ r₁. on_built (index_last r₁) (write_index (handle_at new_builder r))) in
    if is_ok r.status then rest else built r

unfoldable pub finish : TableBuilder → Build
finish r = on_built (flush r) (λ r₁. finish_closed (record r₁ { closed = true }))

unfoldable pub abandon : TableBuilder → Build
abandon r = if r.closed then broken else built (record r { closed = true })

abbrev pub file_size : TableBuilder → ℕ
file_size r = r.offset
