-- ===== src/YangkvMain/Served.antt =====
-- The answers of getValue of main/yangkvMain.cpp once the loop of the writer thread has returned.
use yangkv_v.Base.{
  All-append, ℕ, suc, ◌+◌, ◌≤◌, ◌<◌, ◌≡◌, refl, sym, ◌∙◌, List, [], ◌++◌, length, set,
  get_or-set_self, arith, All,
}
use yangkv_v.Base.Outcome.{done}
use yangkv_v.Hash.{writer_of, writer_of-lt, k_max_writer}
use yangkv_v.MemEntry.{MemEntry}
use yangkv_v.MemEntry.Storable.{IsStorable}
use yangkv_v.MessageQueue.Window.{entries}
use yangkv_v.Version.{Version}
use yangkv_v.Version.Frozen.{last_of}
use yangkv_v.Writer.{Writer, Loop, drained, held, failed, running, insert_messages}
use yangkv_v.Writer.Emptied.{taken, Empties, insert_messages_lem}
use yangkv_v.Writer.Drain.{IsHolding}
use yangkv_v.YangkvMain.{YangkvMain, writer_at, get_value}
use yangkv_v.YangkvMain.Latest.{IsSettled, answer_of, get_value-answer_of}
use yangkv_v.YangkvMain.Pending.{by_writer-IsSettled}
use mathlib.Core.Path.{subst}

-- A loop that empties its queue returns.
Empties-drained :
    (es : List MemEntry) (w : Writer) (r : Loop)
    → Empties es w r
    → (w' : Writer) × (v' : Version) × (r ≡ drained w' v')
      × (entries w'.queue ≡ [])
      × (w'.id ≡ w.id)
      × IsHolding w' v' es
Empties-drained es w (drained w' v') (none_left, same, holds) =
    (w', v', refl, none_left, same, holds)
Empties-drained es w (held w' v') h = absurd h
Empties-drained es w failed h = absurd h
Empties-drained es w (running w' v') h = absurd h

-- In a store with its four writers whose settled history for a key is es, where the queue of the
-- key's writer holds storable entries l, and the frozen lists (ten places each), the active list
-- and l together fill fewer than 110 places, the loop of mayInsertMessage returns within one round
-- more than l has entries, with its queue empty, and getValue then answers the key by the last
-- entry that has it among es and l.
pub get_value_drained :
    (key : List ℕ) (db : YangkvMain) (es l : List MemEntry) (n : ℕ)
    → length db.writer ≡ k_max_writer
    → IsSettled key db es
    → entries (writer_at db (writer_of key)).queue ≡ l
    → All IsStorable l
    → taken (writer_at db (writer_of key)) db.current + length l < 110
    → length l ≤ n
    → (w' : Writer) × (v' : Version) × (insert_messages
          (suc n)
          (writer_at db (writer_of key))
          db.current
        ≡ drained w' v')
      × (entries w'.queue ≡ [])
      × (get_value key (record db { writer = set db.writer (writer_of key) w'; current = v' })
          ≡ done (answer_of (last_of key (es ++ l))))
get_value_drained key db es l n four s queued storable room enough =
    let w = writer_at db (writer_of key) in
    let (w', v', ends, none_left, id, holding) =
      Empties-drained (es ++ l) w (insert_messages (suc n) w db.current)
        (insert_messages_lem l n w db.current es queued storable s.holding room enough) in
    let s' : IsSettled key (record db { writer = set db.writer (writer_of key) w'; current = v' })
        (es ++ l) =
      by_writer-IsSettled key _ (es ++ l) w'
        (get_or-set_self db.writer (writer_of key) w' _ (omega (arith, four, writer_of-lt key)))
        holding (id ∙ s.own) (All-append IsStorable es l s.storable storable)
        (All-append (λ x. x.seq_num < db.idx) es l s.numbered
          (subst (All (λ x. x.seq_num < db.idx)) queued s.queued))
        (subst (All (λ x. x.seq_num < db.idx)) (sym none_left) tt) in
    (w', v', ends, none_left, get_value-answer_of key _ (es ++ l) s')
