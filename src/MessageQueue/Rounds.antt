-- ===== src/MessageQueue/Rounds.antt =====
-- The rounds of the loop in the constructor of memory/message_queue.cpp over a log of records.
use yangkv_v.Base.{
  ℕ, suc, ◌+◌, ◌^◌, ◌≤◌, ◌<◌, ◌≡◌, refl, sym, ◌∙◌, List, [], ◌∷◌, ◌++◌, max, length, drop, All,
  All-append, append_assoc, true, false, arith,
}
use yangkv_v.MemEntry.{MemEntry}
use yangkv_v.Base.Outcome.{done}
use yangkv_v.Coding.{encode_fixed64}
use yangkv_v.MemEntry.Storable.{IsStorable, code}
use yangkv_v.Log.{Reader, Pread, ReadsAll, at_end, read_record}
use yangkv_v.Log.Record.{log_record}
use yangkv_v.Log.RoundTrip.{scratch_after, length-scratch_after, read_record_lem}
use yangkv_v.MessageQueue.{MessageQueue, k_queue_size, is_full, push, resume, store}
use yangkv_v.MessageQueue.Fifo.{resume_lem}
use yangkv_v.MessageQueue.Rebound.{placed, reread-placed}
use yangkv_v.MessageQueue.Replay.{stuck, replay_log}
use yangkv_v.MessageQueue.Reread.{
  IsReplaying, logged_bytes, reread_queue, reread_queue-IsReplaying, store-IsReplaying,
}

-- What a log that is being read and its reader have in common.
pub record IsReading (n : ℕ) (before : List ℕ) (seen es : List MemEntry) (r : Reader) : Type 0 where
  pub scratch : length r.buf ≡ n
  pub content : r.content ≡ before ++ logged_bytes es
  pub offset : r.offset ≡ length before
  pub small : length r.content < 2 ^ 64
  pub read : All (λ e. length (code e) ≤ n) seen
  pub storable : All IsStorable es
  pub fit : All (λ e. length (code e) + 8 ≤ n) es

module _ (pread : Pread) (reads_all : ReadsAll pread) (prior : List MemEntry) (first : ℕ) where
  -- The reader behind a record.
  abbrev pub next_reader : List ℕ → MemEntry → Reader → Reader
  next_reader before e r = record r {
    offset = length (before ++ log_record e);
    buf = scratch_after r.buf e;
  }

  pub next_reader-IsReading :
      (n : ℕ) (before : List ℕ) (seen : List MemEntry) (e : MemEntry) (es : List MemEntry)
      (r : Reader)
      → IsReading n before seen (e ∷ es) r
      → IsReading n (before ++ log_record e) (seen ++ e ∷ []) es (next_reader before e r)
  unfolding logged_bytes
  next_reader-IsReading n before seen e es r h = record {
    scratch = length-scratch_after r.buf e (omega (arith, h.fit.0, h.scratch)) ∙ h.scratch;
    content = h.content ∙ sym (append_assoc before (log_record e) (logged_bytes es));
    offset = refl;
    small = h.small;
    read =
        All-append (λ e. length (code e) ≤ n) seen (e ∷ []) h.read ((omega (arith, h.fit.0), tt));
    storable = h.storable.1;
    fit = h.fit.1;
  }

  -- A round over a record pushes the entry whose slices point into the scratch buffer, when those
  -- that were pushed before show what the buffer now holds.
  module _ (n : ℕ) (before : List ℕ) (seen : List MemEntry) (e : MemEntry) (es : List MemEntry)
      (r : Reader) (q : MessageQueue) (fuel : ℕ) (h : IsReading n before seen (e ∷ es) r)
      (shut : q.is_ready ≡ false) where
    abbrev pub queue_then : MessageQueue
    queue_then = reread_queue (scratch_after r.buf e) first e.seq_num q

    read_then :
        (at_end r ≡ false)
        × (read_record pread r ≡ done (placed (scratch_after r.buf e) e, next_reader before e r))
    unfolding logged_bytes scratch_after
    read_then =
        let (more, read) =
          read_record_lem pread reads_all r e before (logged_bytes es) h.storable.0 h.content
            h.offset (omega (arith, h.fit.0, h.scratch)) h.small in
        let rest = drop (length (code e)) (encode_fixed64 (length (code e)) ++ drop 8 r.buf) in
        (more, rw (reread-placed e rest h.storable.0) at read)

    push_then :
        push (placed (scratch_after r.buf e) e) queue_then
        ≡ resume (placed (scratch_after r.buf e) e) queue_then
    unfolding push
    push_then = rw shut

    round_full :
        is_full queue_then ≡ true → replay_log pread (suc fuel) first r q ≡ stuck queue_then
    unfolding replay_log
    round_full full = rw (
      read_then.0,
      read_then.1,
      push_then,
      resume_lem (placed (scratch_after r.buf e) e) queue_then,
      full,
    )

    round_free :
        is_full queue_then ≡ false
        → replay_log pread (suc fuel) first r q
          ≡ replay_log pread fuel first
              (next_reader before e r)
              (store (placed (scratch_after r.buf e) e) queue_then)
    unfolding replay_log
    round_free free = rw (
      read_then.0,
      read_then.1,
      push_then,
      resume_lem (placed (scratch_after r.buf e) e) queue_then,
      free,
    )

    queue_then-IsReplaying :
        IsReplaying r.buf prior seen first q
        → IsReplaying (scratch_after r.buf e) prior seen first queue_then
    queue_then-IsReplaying s =
        let same = (next_reader-IsReading n before seen e es r h).scratch in
        reread_queue-IsReplaying r.buf (scratch_after r.buf e) prior seen first e.seq_num q
          (rw (← h.scratch) at h.read) (h.scratch ∙ sym same) s

    -- A round with a place left in the ring.
    pub round_pushes :
        IsReplaying r.buf prior seen first q
        → q.w_ptr < q.r_ptr + k_queue_size
        → q.w_ptr + 1 < 2 ^ 64
        → (q' : MessageQueue) × (replay_log pread (suc fuel) first r q
            ≡ replay_log pread fuel first (next_reader before e r) q')
          × IsReplaying (scratch_after r.buf e) prior (seen ++ e ∷ []) first q'
          × (q'.w_ptr ≡ q.w_ptr + 1)
          × (q'.r_ptr ≡ q.r_ptr)
          × (q'.max_id ≡ max q.max_id e.seq_num)
          × (q'.log ≡ q.log)
    unfolding is_full store
    round_pushes s room below =
        let s' = queue_then-IsReplaying s in
        let free : is_full queue_then ≡ false = ground (arith, s.valid.ordered, s.valid.counts) in
        let (kept, next) =
          store-IsReplaying (scratch_after r.buf e) prior seen first e queue_then s' free below in
        (
          store (placed (scratch_after r.buf e) e) queue_then,
          round_free free,
          kept,
          next,
          refl,
          refl,
          refl,
        )

    -- A round with no place left.
    pub round_blocked :
        IsReplaying r.buf prior seen first q
        → q.w_ptr ≡ q.r_ptr + k_queue_size
        → replay_log pread (suc fuel) first r q ≡ stuck queue_then
    unfolding is_full
    round_blocked s none_left = round_full (ground (arith, s.valid.ordered, s.valid.counts))
