-- ===== src/Writer.antt =====
-- memory/writer.h and memory/writer.cpp: the thread that moves entries from its queue to its list.
pub mod Drain
pub mod Emptied
use yangkv_v.Base.{ℕ, zero, suc, List, ltb, leb, if◌then◌else◌, Option, none, some}
use yangkv_v.Base.Outcome.{Outcome, done, refused, fault, ◌>>=◌}
use yangkv_v.Slice.{Slice, to_string}
use yangkv_v.MemEntry.{MemEntry, decode_mem_entry}
use yangkv_v.Status.{Status, ok, not_found}
use yangkv_v.SkipList.{SkipList, new_list, size}
use yangkv_v.MessageQueue.{MessageQueue, is_empty, get_front, pop}
use yangkv_v.Version.{Version, Append, appended, parked, append_frozen_list}
use yangkv_v.SkipList

abbrev pub k_max_active_list_size : ℕ
k_max_active_list_size = 10

pub record Writer : Type 0 where
  pub queue : MessageQueue
  pub list : SkipList
  pub id : ℕ

-- What one round of the loop of mayInsertMessage comes to.
pub data Round : Type 0 where
  -- The queue is empty, and the loop ends.
  idle : Round
  moved : Writer → Version → Round
  -- The entry is in the list, the list is full, and AppendFrozenList waits.
  stalled : Writer → Round
  -- An assertion or a read outside an object.
  broken : Round

abbrev freeze : Writer → Append → Round
freeze w (appended v) = moved (record w { list = new_list }) v
freeze w parked = stalled w

-- The list is frozen when it has reached its size.
abbrev settle : Writer → Version → Round
settle w v =
    if leb k_max_active_list_size (size w.list)
    then freeze w (append_frozen_list w.list w.id v)
    else moved w v

abbrev with_list : Writer → Version → Outcome SkipList → Round
with_list w v (done list) = settle (record w { list = list }) v
with_list w v refused = broken
with_list w v fault = broken

abbrev move_front : Writer → Version → Option MemEntry → Option MessageQueue → Round
move_front w v (some entry) (some queue) =
    with_list (record w { queue = queue }) v (SkipList.insert entry w.list)
move_front w v _ _ = broken

-- One round of `while (queue_->isEmpty() == false)`.
unfoldable pub may_insert_message : Writer → Version → Round
may_insert_message w v =
    if is_empty w.queue then idle else move_front w v (get_front w.queue) (pop w.queue)

-- What the loop of mayInsertMessage comes to.
pub data Loop : Type 0 where
  -- The queue is empty, and the call returns.
  drained : Writer → Version → Loop
  -- A full list, and the call stays in AppendFrozenList.
  held : Writer → Version → Loop
  failed : Loop
  -- The rounds ran out.
  running : Writer → Version → Loop

-- mayInsertMessage, by the number of rounds that its loop may take.
unfoldable pub insert_messages : ℕ → Writer → Version → Loop
insert_messages zero w v = running w v
insert_messages (suc n) w v = elim (may_insert_message w v) [
  | idle ↦ drained w v
  | moved w' v' ↦ insert_messages n w' v'
  | stalled w' ↦ held w' v
  | broken ↦ failed
]

-- The answer of getEntry: `none` is false.
abbrev pub Entry : Type 0
Entry = Option (Status × Option (List ℕ))

abbrev pub judge : ℕ → MemEntry → Outcome Entry
judge seq entry =
    let value = (do v ← to_string entry.value; done (some (ok, some v))) in
    if ltb seq entry.seq_num
    then done none
    else if entry.value_type
    then done (some (not_found, none))
    else value

unfoldable pub read_entry : ℕ → Option Slice → Outcome Entry
read_entry seq none = done none
read_entry seq (some slice) = do entry ← decode_mem_entry slice; judge seq entry

-- Writer::getEntry
unfoldable pub get_entry : List ℕ → ℕ → Writer → Outcome (Option (Status × Option (List ℕ)))
get_entry key seq w = read_entry seq (SkipList.get key w.list)
