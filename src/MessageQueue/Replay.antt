-- ===== src/MessageQueue/Replay.antt =====
-- The constructor of memory/message_queue.cpp: the logs of earlier runs are read and pushed again.
-- The slices of a pushed entry point into the scratch buffer of the log's reader, which the next
-- record overwrites, so what they show changes with it. No other thread takes entries out of the
-- queue before the constructor returns.
use yangkv_v.Base.{
  ℕ, zero, suc, ◌+◌, ◌-◌, ◌%◌, max, List, [], ◌∷◌, length, drop, get_or, set, true, false,
  if◌then◌else◌,
}
use yangkv_v.Base.Outcome.{Outcome, done}
use yangkv_v.Slice.{Slice}
use yangkv_v.MemEntry.{MemEntry}
use yangkv_v.Env.{WritableFile}
use yangkv_v.Log.{Reader, Pread, new_reader, at_end, read_record}
use yangkv_v.MessageQueue.{
  MessageQueue, k_queue_size, blank, new_queue, Push, pushed, blocked, push,
}

-- A slice into a buffer, by what the buffer now holds: the place is where it was, counted from the
-- end of the buffer, whose length does not change.
abbrev pub rebind_slice : List ℕ → Slice → Slice
rebind_slice buf s = record s { ptr = drop (length buf - length s.ptr) buf }

abbrev pub rebind : List ℕ → MemEntry → MemEntry
rebind buf e = record e { key = rebind_slice buf e.key; value = rebind_slice buf e.value }

-- The same for the `n` places of the ring from the one that `i` counts on.
unfoldable pub rebind_places : List ℕ → List MemEntry → ℕ → ℕ → List MemEntry
rebind_places buf slots i zero = slots
rebind_places buf slots i (suc n) =
    let e = get_or slots (i % k_queue_size) blank in
    rebind_places buf (set slots (i % k_queue_size) (rebind buf e)) (i + 1) n

pub data Replay : Type 0 where
  -- The constructor goes on.
  replayed : MessageQueue → Replay
  -- A push waits for a place in the ring.
  stuck : MessageQueue → Replay
  -- A record has been decoded outside the scratch buffer, or does not fit it.
  broken : Replay
  -- The fuel ran out.
  endless : Replay

abbrev after_replayed : (MessageQueue → Replay) → Push → Replay
after_replayed k (pushed q) = k q
after_replayed k (blocked q) = stuck q
after_replayed k _ = broken

-- The body of `while(!reader->end())`; `first` is w_ptr as it was when the reader was made.
abbrev with_record :
    ℕ → MessageQueue → (Reader → MessageQueue → Replay) → Outcome (MemEntry × Reader) → Replay
with_record first q k (done (entry, r)) = after_replayed (k r) (
    push entry (record q {
      slots = rebind_places r.buf q.slots first (q.w_ptr - first);
      max_id = max q.max_id entry.seq_num;
    }))
with_record first q k _ = broken

module _ (pread : Pread) where
  -- `while(!reader->end())`. A record takes eight bytes of its file at least, so as many rounds as
  -- the file has bytes, and one, are enough for a file of records.
  unfoldable pub replay_log : ℕ → ℕ → Reader → MessageQueue → Replay
  replay_log zero first r q = endless
  replay_log (suc fuel) first r q =
      let round = with_record first q (replay_log fuel first) (read_record pread r) in
      if at_end r then replayed q else round

  abbrev pub and_replay : Replay → (MessageQueue → Replay) → Replay
  and_replay (replayed q) k = k q
  and_replay r k = r

  -- `for (int i = 1; i < logid_; i++)`, by the bytes of each log and of the scratch buffer that its
  -- reader allocates.
  unfoldable pub replay_logs : List (List ℕ × List ℕ) → MessageQueue → Replay
  unfolding replay_log
  replay_logs [] q = replayed q
  replay_logs ((content, scratch) ∷ logs) q =
      and_replay (replay_log (length content + 1) q.w_ptr (new_reader content scratch) q)
        (replay_logs logs)

  -- MessageQueue(writerID, logID, env), with the new log that has been opened.
  unfoldable pub open_queue : WritableFile → List (List ℕ × List ℕ) → Replay
  unfolding replay_logs
  open_queue log logs =
      and_replay (replay_logs logs (record (new_queue log) { is_ready = false }))
        λ q. replayed (record q { is_ready = true })
