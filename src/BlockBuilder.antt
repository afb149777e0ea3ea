-- ===== src/BlockBuilder.antt =====
-- table/block_builder.h, table/block_builder.cpp and table/block.cpp: a block of sorted entries, each
-- key without the bytes it shares with the key before it, and the restart points behind them. The
-- keys and values are the bytes that the slices show; Compare goes by the order of the shown bytes.
pub mod Entries
pub mod Growth
pub mod Restarts
use yangkv_v.Base.{
  ℕ, ◌+◌, ◌-◌, ◌*◌, ◌/◌, ◌%◌, ◌^◌, ltb, leb, ◌==◌, ◌&&◌, ◌||◌, not, Bool, true, false, List, [],
  ◌∷◌, ◌++◌, length, take, drop, if◌then◌else◌, same_bytes,
}
use yangkv_v.Base.Outcome.{Outcome, done, fault, ◌>>=◌}
use yangkv_v.Slice.{Slice}
use yangkv_v.Map.{key_compare}
use yangkv_v.Coding.{put_fixed32, put_varint32, decode_fixed32}
use yangkv_v.Comparator.{common_prefix}
use Prim.Native.Nat.{Ordering, lt, eq, gt}

pub record BlockBuilder : Type 0 where
  pub buffer : List ℕ
  pub restarts : List ℕ
  -- The entries since the last restart point.
  pub counter : ℕ
  pub finished : Bool
  pub last_key : List ℕ

-- Reset, and what the constructor makes.
abbrev pub new_builder : BlockBuilder
new_builder = record {
  buffer = [];
  restarts = 0 ∷ [];
  counter = 0;
  finished = false;
  last_key = [];
}

unfoldable pub current_size_estimate : BlockBuilder → ℕ
current_size_estimate b = length b.buffer + length b.restarts * 4 + 4

-- The loop of Finish.
unfoldable pub put_restarts : List ℕ → List ℕ → List ℕ
put_restarts buffer [] = buffer
put_restarts buffer (r ∷ restarts) = put_restarts (put_fixed32 buffer r) restarts

unfoldable pub finish : BlockBuilder → BlockBuilder
unfolding put_restarts
finish b = record b {
  buffer = put_fixed32 (put_restarts b.buffer b.restarts) (length b.restarts % 2 ^ 32);
  finished = true;
}

abbrev pub is_gt : Ordering → Bool
is_gt lt = false
is_gt eq = false
is_gt gt = true

-- The three assertions in front of Add.
unfoldable pub may_add : ℕ → List ℕ → BlockBuilder → Bool
may_add interval key b =
    not b.finished
    && leb b.counter interval
    && ((length b.buffer == 0) || is_gt (key_compare key b.last_key))

-- Add, behind the choice of how much of the last key to share.
unfoldable pub add_shared : ℕ → List ℕ → List ℕ → BlockBuilder → Outcome BlockBuilder
add_shared shared key value b =
    let non_shared = length key - shared in
    let delta = take non_shared (drop shared key) in
    let sizes =
      put_varint32 (put_varint32 (put_varint32 b.buffer (shared % 2 ^ 32)) (non_shared % 2 ^ 32))
        (length value % 2 ^ 32) in
    let last_key' = take shared b.last_key ++ delta in
    if same_bytes last_key' key
    then done (record b {
      buffer = (sizes ++ delta) ++ value;
      last_key = last_key';
      counter = b.counter + 1;
    })
    else fault

-- Add, with `interval` for block_restart_interval.
unfoldable pub add : ℕ → List ℕ → List ℕ → BlockBuilder → Outcome BlockBuilder
add interval key value b =
    if may_add interval key b
    then (if ltb b.counter interval
        then add_shared (common_prefix b.last_key key) key value b
        else add_shared 0 key value
            (record b { restarts = b.restarts ++ length b.buffer % 2 ^ 32 ∷ []; counter = 0 }))
    else fault

-- class Block; a size of 0 marks an error, and the offset is then not set.
pub record Block : Type 0 where
  pub contents : List ℕ
  pub size : ℕ
  pub restart_offset : ℕ

unfoldable pub num_restarts : List ℕ → ℕ → Outcome ℕ
num_restarts bytes size = if leb 4 size then decode_fixed32 (drop (size - 4) bytes) else fault

abbrev checked_block : List ℕ → ℕ → ℕ → Block
checked_block bytes size n =
    if ltb ((size - 4) / 4) n
    then record { contents = bytes; size = 0; restart_offset = 0 }
    else record {
      contents = bytes;
      size = size;
      restart_offset = (size - (1 + n) % 2 ^ 32 * 4) % 2 ^ 32;
    }

-- Block(contents)
unfoldable pub open_block : Slice → Outcome Block
unfolding num_restarts
open_block contents =
    let checked = (do
      n ← num_restarts contents.ptr contents.size
      done (checked_block contents.ptr contents.size n)) in
    if ltb contents.size 4
    then done (record { contents = contents.ptr; size = 0; restart_offset = 0 })
    else checked
