-- ===== src/MessageQueue/Opened.antt =====
-- What the constructor of memory/message_queue.cpp makes of the logs of earlier runs.
use yangkv_v.Base.{
  ℕ, ◌+◌, ◌^◌, ◌≤◌, ◌<◌, ◌≡◌, refl, sym, ap, ◌∙◌, List, [], ◌∷◌, ◌++◌, map, max, length, All,
  length-append, append_assoc, append-nil, true, false, not_leb→lt, leb, leb→le, Bool-cases, inl,
  inr, arith,
}
use yangkv_v.Env.{WritableFile}
use yangkv_v.Coding.{encode_fixed64}
use yangkv_v.MemEntry.{MemEntry}
use yangkv_v.MemEntry.Storable.{IsStorable, code}
use yangkv_v.Log.{Pread, ReadsAll, new_reader}
use yangkv_v.Log.Record.{log_record}
use yangkv_v.Log.RoundTrip.{code-pos}
use yangkv_v.MessageQueue.{MessageQueue, new_queue, k_queue_size}
use yangkv_v.MessageQueue.Rebound.{placed}
use yangkv_v.MessageQueue.Recovered.{replay_log-Replays, replay_log-stuck}
use yangkv_v.MessageQueue.Replay.{replayed, stuck, replay_logs, open_queue}
use yangkv_v.MessageQueue.Rounds.{IsReading}
use yangkv_v.MessageQueue.Reread.{IsReplaying, logged_bytes, scratch_end, max_seq}
use yangkv_v.MessageQueue.Window.{entries, IsValid, length-entries}

-- The log of an earlier run: the entries that were recorded, and the scratch buffer of its reader.
abbrev pub OldLog : Type 0
OldLog = List MemEntry × List ℕ

abbrev pub IsOldLog : OldLog → Type 0
IsOldLog l =
    All IsStorable l.0
    × All (λ e. length (code e) + 8 ≤ length l.1) l.0
    × (length (logged_bytes l.0) < 2 ^ 64)

abbrev pub on_disk : OldLog → List ℕ × List ℕ
on_disk l = (logged_bytes l.0, l.1)

-- The entries of all logs, as they were recorded.
abbrev pub recorded : List OldLog → List MemEntry
recorded [] = []
recorded (l ∷ logs) = l.0 ++ recorded logs

-- The entries as the queue shows them: those of a log point into its scratch buffer, which shows
-- the last records.
abbrev pub recovered : List OldLog → List MemEntry
recovered [] = []
recovered (l ∷ logs) = map (placed (scratch_end l.1 l.0)) l.0 ++ recovered logs

length-logged_bytes :
    (es : List MemEntry) → All IsStorable es → length es ≤ length (logged_bytes es)
unfolding logged_bytes
length-logged_bytes [] h = omega arith
length-logged_bytes (e ∷ es) h = omega (
  arith,
  length-append (log_record e) (logged_bytes es),
  length-append (encode_fixed64 (length (code e))) (code e),
  code-pos e h.0,
  length-logged_bytes es h.1,
)

max_seq-append : (m : ℕ) (xs ys : List MemEntry) → max_seq m (xs ++ ys) ≡ max_seq (max_seq m xs) ys
max_seq-append m [] ys = refl
max_seq-append m (x ∷ xs) ys = max_seq-append (max m x.seq_num) xs ys

start-IsReading :
    (l : OldLog) → IsOldLog l → IsReading (length l.1) [] [] l.0 (new_reader (logged_bytes l.0) l.1)
start-IsReading l h = record {
  scratch = refl;
  content = refl;
  offset = refl;
  small = h.2;
  read = tt;
  storable = h.0;
  fit = h.1;
}

start-IsReplaying :
    (buf : List ℕ) (q : MessageQueue)
    → IsValid q
    → q.is_ready ≡ false
    → IsReplaying buf (entries q) [] q.w_ptr q
start-IsReplaying buf q v shut = record {
  valid = v;
  shut = shut;
  held = sym (append-nil (entries q));
  at_first = omega (arith, length-entries q, v.ordered);
  at_last = omega arith;
}

abbrev fresh : WritableFile → MessageQueue
fresh log = record (new_queue log) { is_ready = false }

fresh-IsValid : (log : WritableFile) → IsValid (fresh log)
fresh-IsValid log = omega arith

ready-IsValid : (q : MessageQueue) → IsValid q → IsValid (record q { is_ready = true })
ready-IsValid q v = record {
  places = v.places;
  started = v.started;
  ordered = v.ordered;
  fits = v.fits;
  counts = v.counts;
}

module _ (pread : Pread) (reads_all : ReadsAll pread) where
  replay_logs-Replays :
      (logs : List OldLog) (q : MessageQueue)
      → All IsOldLog logs
      → IsValid q
      → q.is_ready ≡ false
      → q.w_ptr + length (recorded logs) ≤ q.r_ptr + k_queue_size
      → q.w_ptr + length (recorded logs) < 2 ^ 64
      → (q' : MessageQueue) × (replay_logs pread (map on_disk logs) q ≡ replayed q')
        × IsValid q'
        × (entries q' ≡ entries q ++ recovered logs)
        × (q'.max_id ≡ max_seq q.max_id (recorded logs))
        × (q'.log ≡ q.log)
  unfolding replay_logs
  replay_logs-Replays [] q h v shut room below =
      (q, refl, v, sym (append-nil (entries q)), refl, refl)
  replay_logs-Replays (l ∷ logs) q h v shut room below =
      let total = length-append l.0 (recorded logs) in
      let (q₁, step, s₁, w₁, r₁, m₁, l₁) =
        replay_log-Replays pread reads_all (entries q) q.w_ptr (length l.1)
          (length (logged_bytes l.0) + 1) [] [] l.0 (new_reader (logged_bytes l.0) l.1) q
          (start-IsReading l h.0) (start-IsReplaying l.1 q v shut)
          (omega (arith, length-logged_bytes l.0 h.0.0)) (omega arith) (omega arith) in
      let (q₂, rest, v₂, e₂, m₂, l₂) =
        replay_logs-Replays logs q₁ h.1 s₁.valid s₁.shut (omega arith) (omega arith) in
      let now = map (placed (scratch_end l.1 l.0)) l.0 in
      (
        q₂,
        rw step rest,
        v₂,
        e₂
            ∙ ap (λ (k : List MemEntry). k ++ recovered logs) s₁.held
            ∙ append_assoc (entries q) now (recovered logs),
        m₂
            ∙ ap (λ (m : ℕ). max_seq m (recorded logs)) m₁
            ∙ sym (max_seq-append q.max_id l.0 (recorded logs)),
        l₂ ∙ l₁,
      )

  replay_logs-stuck :
      (logs : List OldLog) (q : MessageQueue)
      → All IsOldLog logs
      → IsValid q
      → q.is_ready ≡ false
      → q.r_ptr + k_queue_size < q.w_ptr + length (recorded logs)
      → q.r_ptr + k_queue_size < 2 ^ 64
      → (q' : MessageQueue) × (replay_logs pread (map on_disk logs) q ≡ stuck q')
  unfolding replay_logs
  replay_logs-stuck [] q h v shut more below = absurd (omega (arith, v.fits))
  replay_logs-stuck (l ∷ logs) q h v shut more below =
      let total = length-append l.0 (recorded logs) in
      let fuel = length (logged_bytes l.0) + 1 in
      let r = new_reader (logged_bytes l.0) l.1 in
      let reading = start-IsReading l h.0 in
      let s = start-IsReplaying l.1 q v shut in
      let enough : length l.0 < fuel = omega (arith, length-logged_bytes l.0 h.0.0) in
      elim (Bool-cases (leb (q.w_ptr + length l.0) (q.r_ptr + k_queue_size))) [
        | inl fits ↦
            let fits' = leb→le _ _ fits in
            let (q₁, step, s₁, w₁, r₁, _, _) =
              replay_log-Replays pread reads_all (entries q) q.w_ptr (length l.1) fuel [] [] l.0 r q
                reading s enough fits' (omega arith) in
            let (q₂, rest) =
              replay_logs-stuck logs q₁ h.1 s₁.valid s₁.shut (omega arith) (omega arith) in
            (q₂, rw step rest)
        | inr over ↦
            let (q₁, step) =
              replay_log-stuck pread reads_all (entries q) q.w_ptr (length l.1) fuel [] [] l.0 r q
                reading s enough (not_leb→lt _ _ over) below in
            (q₁, rw step)
      ]

  -- With a pread that reads what a file holds, on logs of earlier runs with storable entries whose
  -- records fit the scratch buffer, forty entries at most in all, each log shorter than 2^64 bytes,
  -- the constructor of MessageQueue returns; its queue is valid and ready, holds the entries of the
  -- logs in order, each with slices that point to its places in the scratch buffer of its log as
  -- the last records left it, has the greatest number as max_id_, and has the new log.
  pub open_queue-Recovers :
      (log : WritableFile) (logs : List OldLog)
      → All IsOldLog logs
      → length (recorded logs) ≤ k_queue_size
      → (q : MessageQueue) × (open_queue pread log (map on_disk logs) ≡ replayed q)
        × IsValid q
        × (q.is_ready ≡ true)
        × (entries q ≡ recovered logs)
        × (q.max_id ≡ max_seq 0 (recorded logs))
        × (q.log ≡ log)
  unfolding open_queue entries
  open_queue-Recovers log logs h few =
      let (q, done_, v, e, m, l) =
        replay_logs-Replays logs (fresh log) h (fresh-IsValid log) refl (omega arith)
          (omega arith) in
      (record q { is_ready = true }, rw done_, ready-IsValid q v, refl, e, m, l)

  -- With a pread that reads what a file holds, on logs of earlier runs with storable entries whose
  -- records fit the scratch buffer, each log shorter than 2^64 bytes, and more than forty entries
  -- in all, the constructor of MessageQueue stays in a push that waits for a place in the ring.
  pub open_queue-stuck :
      (log : WritableFile) (logs : List OldLog)
      → All IsOldLog logs
      → k_queue_size < length (recorded logs)
      → (q : MessageQueue) × (open_queue pread log (map on_disk logs) ≡ stuck q)
  unfolding open_queue
  open_queue-stuck log logs h many =
      let (q, e) =
        replay_logs-stuck logs (fresh log) h (fresh-IsValid log) refl (omega arith) (omega arith) in
      (q, rw e)
