-- ===== src/YangkvMain/Pending.antt =====
-- A set of main/yangkvMain.cpp and the answers of getValue, before and after the writer thread has
-- moved the entry out of its queue.
use yangkv_v.Base.{
  All-append, All-mono, ℕ, ◌+◌, ◌%◌, ◌^◌, ◌≤◌, ◌<◌, ◌≡◌, refl, sym, ◌∙◌, List, [], ◌∷◌, ◌++◌,
  length, set, get_or-set_ne, get_or-set_self, Bool, some, arith, All, same_bytes_refl,
}
use yangkv_v.Base.Outcome.{done}
use yangkv_v.Hash.{writer_of, writer_of-lt, k_max_writer}
use yangkv_v.MemEntry.{MemEntry, of_strings}
use yangkv_v.MemEntry.Storable.{IsStorable, view}
use yangkv_v.MessageQueue.{MessageQueue, Push, pushed, blocked, waiting, aborted, push}
use yangkv_v.MessageQueue.Window.{entries, IsValid}
use yangkv_v.MessageQueue.Fifo.{push-pushed}
use yangkv_v.Version.{Version}
use yangkv_v.Version.Frozen.{last_of_last}
use yangkv_v.Writer.{Writer, moved, may_insert_message}
use yangkv_v.Writer.Drain.{IsHolding, Moves, may_insert_message_lem}
use yangkv_v.YangkvMain.{
  YangkvMain, writer_at, set_key, set_done, after_push, with_queue, get_value,
}
use yangkv_v.YangkvMain.Latest.{IsSettled, answer_of, get_value-answer_of}
use mathlib.Core.Path.{subst}
use native.Mathlib.Decide.{ℕ_discrete}

-- What a set needs of the store: its four writers, and counters that do not run over.
pub record CanCount (db : YangkvMain) : Type 0 where
  pub writers : length db.writer ≡ k_max_writer
  pub idx_fits : db.idx + 1 < 2 ^ 64
  pub queues : (i : ℕ) → (writer_at db i).queue.w_ptr + 1 < 2 ^ 64
  pub valid : (i : ℕ) → IsValid (writer_at db i).queue

set_done_back : {db db' : YangkvMain} → set_done db ≡ set_done db' → db ≡ db'
set_done_back e = cc

after_push-done :
    (db : YangkvMain) (i : ℕ) (p : Push) (db' : YangkvMain)
    → after_push db i p ≡ set_done db'
    → (q : MessageQueue) × (p ≡ pushed q) × (with_queue db i q ≡ db')
after_push-done db i (pushed q) db' h = (q, refl, set_done_back h)
after_push-done db i (blocked q) db' h = absurd (cc h)
after_push-done db i waiting db' h = absurd (cc h)
after_push-done db i aborted db' h = absurd (cc h)

-- What is settled of a key is so by the writer of that key.
pub by_writer-IsSettled :
    (k : List ℕ) (db : YangkvMain) (es : List MemEntry) (w : Writer)
    → writer_at db (writer_of k) ≡ w
    → IsHolding w db.current es
    → w.id ≡ writer_of k
    → All IsStorable es
    → All (λ e. e.seq_num < db.idx) es
    → All (λ e. e.seq_num < db.idx) (entries w.queue)
    → IsSettled k db es
by_writer-IsSettled k db es w same holding own storable numbered queued = record {
  holding = subst (λ x. IsHolding x db.current es) (sym same) holding;
  own = subst (λ x. x.id ≡ writer_of k) (sym same) own;
  storable = storable;
  numbered = numbered;
  queued = subst (λ x. All (λ e. e.seq_num < db.idx) (entries x.queue)) (sym same) queued;
}

later :
    (n m : ℕ) (es : List MemEntry)
    → n ≤ m
    → All (λ e. e.seq_num < n) es
    → All (λ e. e.seq_num < m) es
later n m es h = All-mono (λ e. e.seq_num < n) (λ e. e.seq_num < m) es (λ e k. omega arith)

abbrev behind_queue : YangkvMain → ℕ → MessageQueue → YangkvMain
behind_queue db i q = with_queue (record db { idx = db.idx + 1 }) i q

own_queue :
    (k : List ℕ) (db : YangkvMain) (es : List MemEntry) (e : MemEntry) (q : MessageQueue)
    → writer_of k < length db.writer
    → entries q ≡ entries (writer_at db (writer_of k)).queue ++ e ∷ []
    → e.seq_num ≡ db.idx
    → IsValid q
    → IsSettled k db es
    → IsSettled k (behind_queue db (writer_of k) q) es
own_queue k db es e q h behind seq valid s =
    by_writer-IsSettled k _ es (record (writer_at db (writer_of k)) { queue = q })
      (get_or-set_self db.writer (writer_of k) _ _ h)
      (record { valid = valid; placed = s.holding.placed; holds = s.holding.holds }) s.own
      s.storable (later db.idx (db.idx + 1) es (omega arith) s.numbered)
      (subst (All (λ x. x.seq_num < db.idx + 1)) (sym behind) (
        All-append (λ x. x.seq_num < db.idx + 1) (entries (writer_at db (writer_of k)).queue)
          (e ∷ [])
          (later db.idx (db.idx + 1) (entries (writer_at db (writer_of k)).queue) (omega arith)
            s.queued)
          (omega arith, tt)))

-- The settled state of a key after an entry has been put behind the queue of writer `i`.
queue-IsSettled :
    (k : List ℕ) (db : YangkvMain) (es : List MemEntry) (i : ℕ) (e : MemEntry) (q : MessageQueue)
    → i < length db.writer
    → entries q ≡ entries (writer_at db i).queue ++ e ∷ []
    → e.seq_num ≡ db.idx
    → IsValid q
    → IsSettled k db es
    → IsSettled k (behind_queue db i q) es
queue-IsSettled k db es i e q h behind seq valid s = elim (ℕ_discrete i (writer_of k)) [
  | yes own ↦
      subst
        (λ (j : ℕ).
          j < length db.writer
          → entries q ≡ entries (writer_at db j).queue ++ e ∷ []
          → IsSettled k (behind_queue db j q) es)
        (sym own) (λ r b. own_queue k db es e q r b seq valid s) h behind
  | no other ↦
      by_writer-IsSettled k _ es (writer_at db (writer_of k))
        (get_or-set_ne db.writer i (writer_of k) _ _ other) s.holding s.own s.storable
        (later db.idx (db.idx + 1) es (omega arith) s.numbered)
        (later db.idx (db.idx + 1) (entries (writer_at db (writer_of k)).queue) (omega arith)
          s.queued)
]

-- A setKey that returns, with valid queues and counters that do not run over, preserves the settled
-- state of every key: queue valid, numbers below idx_, and the lists holding the same history.
pub set_key-IsSettled :
    (k key value : List ℕ) (del_flag : Bool) (db db' : YangkvMain) (es : List MemEntry)
    → CanCount db
    → IsSettled k db es
    → set_key key value del_flag db ≡ set_done db'
    → IsSettled k db' es
unfolding set_key
set_key-IsSettled k key value del_flag db db' es c s h =
    let i = writer_of key in
    let next : (db.idx + 1) % 2 ^ 64 ≡ db.idx + 1 = omega (arith, c.idx_fits) in
    let h' : after_push (record db { idx = db.idx + 1 }) i
          (push (of_strings key value db.idx del_flag) (writer_at db i).queue)
        ≡ set_done db' =
      rw next at h in
    let (q, returned, same) = after_push-done (record db { idx = db.idx + 1 }) i _ db' h' in
    let (behind, valid) =
      push-pushed (of_strings key value db.idx del_flag) (writer_at db i).queue q (c.valid i)
        (c.queues i) returned in
    subst (λ x. IsSettled k x es) same
      (queue-IsSettled k db es i (of_strings key value db.idx del_flag) q
        (omega (arith, c.writers, writer_of-lt key)) behind refl valid s)

-- In a settled state with valid queues and counters that do not run over, a setKey that returns
-- leaves the answer of getValue for every settled key as it was, also for the key it has set, since
-- the entry waits in the queue.
pub get_value-set_key :
    (k key value : List ℕ) (del_flag : Bool) (db db' : YangkvMain) (es : List MemEntry)
    → CanCount db
    → IsSettled k db es
    → set_key key value del_flag db ≡ set_done db'
    → get_value k db' ≡ get_value k db
get_value-set_key k key value del_flag db db' es c s h =
    get_value-answer_of k db' es (set_key-IsSettled k key value del_flag db db' es c s h)
    ∙ sym (get_value-answer_of k db es s)

-- In a store whose settled history for a key is es (IsSettled, with its four writers there), after
-- a round of the writer thread that ends and moves a storable entry with that key out of the queue,
-- getValue answers the key by that entry: its value, or NotFound for a deletion.
pub get_value_moved :
    (key : List ℕ) (db : YangkvMain) (es l : List MemEntry) (e : MemEntry) (w' : Writer)
    (v' : Version)
    → length db.writer ≡ k_max_writer
    → IsSettled key db es
    → entries (writer_at db (writer_of key)).queue ≡ e ∷ l
    → IsStorable e
    → view e.key ≡ key
    → may_insert_message (writer_at db (writer_of key)) db.current ≡ moved w' v'
    → get_value key (record db { writer = set db.writer (writer_of key) w'; current = v' })
      ≡ done (answer_of (some e))
get_value_moved key db es l e w' v' four s queued storable same h =
    let w = writer_at db (writer_of key) in
    let (left, id, holding) =
      subst (Moves e l es w db.current) h
        (may_insert_message_lem w db.current e l es s.holding queued storable) in
    let waiting = subst (All (λ x. x.seq_num < db.idx)) queued s.queued in
    let s' : IsSettled key (record db { writer = set db.writer (writer_of key) w'; current = v' })
        (es ++ e ∷ []) =
      by_writer-IsSettled key _ (es ++ e ∷ []) w'
        (get_or-set_self db.writer (writer_of key) w' _ (omega (arith, four, writer_of-lt key)))
        holding (id ∙ s.own) (All-append IsStorable es (e ∷ []) s.storable (storable, tt))
        (All-append (λ x. x.seq_num < db.idx) es (e ∷ []) s.numbered (waiting.0, tt))
        (subst (All (λ x. x.seq_num < db.idx)) (sym left) waiting.1) in
    get_value-answer_of key _ (es ++ e ∷ []) s'
    ∙ rw (last_of_last key es e, same, same_bytes_refl key) refl
