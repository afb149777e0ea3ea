-- ===== src/Writer/Emptied.antt =====
-- The loop of mayInsertMessage of memory/writer.cpp, round by round.
use yangkv_v.Base.{
  ℕ, zero, suc, ◌+◌, ◌*◌, ◌≤◌, ◌<◌, ◌≡◌, refl, ◌∙◌, List, [], ◌∷◌, ◌++◌, length, All, true, ◌==◌,
  Bool-cases, inl, inr, arith, leb, leb→le, if◌then◌else◌, append_assoc, append-nil, Option, some,
  none,
}
use yangkv_v.Base.Outcome.{Outcome, done, refused, fault, ◌>>=◌}
use yangkv_v.Slice.{Slice, to_string}
use yangkv_v.Map.{Map}
use yangkv_v.Map.Laws.{length-insert}
use yangkv_v.MemEntry.{MemEntry, encode_mem_entry}
use yangkv_v.MemEntry.Storable.{IsStorable}
use yangkv_v.SkipList.{SkipList, new_list, size}
use yangkv_v.MessageQueue.{MessageQueue, is_empty, get_front, pop}
use yangkv_v.MessageQueue.Window.{entries, IsValid}
use yangkv_v.MessageQueue.Fifo.{is_empty_iff}
use yangkv_v.Version.{
  Version, Append, appended, parked, append_frozen_list, append_list, k_max_frozen_list,
}
use yangkv_v.Writer.{
  Writer, Round, idle, moved, stalled, broken, may_insert_message, settle, with_list, move_front,
  k_max_active_list_size, Loop, drained, held, failed, running, insert_messages,
}
use yangkv_v.Writer.Drain.{IsHolding, Moves, may_insert_message_lem}
use mathlib.Core.Path.{subst}
use yangkv_v.Map
use yangkv_v.SkipList
use yangkv_v.Version

-- How much of the room for entries is taken: a full list frozen counts for its size.
abbrev pub taken : Writer → Version → ℕ
taken w v = v.list_count * k_max_active_list_size + size w.list

-- A round takes at most one more place.
abbrev Grows : Writer → Version → Round → Type 0
Grows w v (moved w' v') = taken w' v' ≤ taken w v + 1
Grows w v (stalled w') = size w'.list ≤ size w.list + 1
Grows w v _ = Unit {0}

settle-Grows :
    (w₀ w : Writer) (v : Version) → size w.list ≤ size w₀.list + 1 → Grows w₀ v (settle w v)
unfolding append_frozen_list append_list Version.is_full
settle-Grows w₀ w v h = elim (Bool-cases (leb k_max_active_list_size (size w.list))) [
  | inr small ↦ rw small (omega arith)
  | inl large ↦ elim (Bool-cases (leb k_max_frozen_list v.list_count)) [
    | inl full ↦ rw (large, full) h
    | inr free ↦ rw (large, free) (omega (arith, leb→le k_max_active_list_size (size w.list) large))
  ]
]

inserted-Grows :
    (w : Writer) (v : Version) (q : MessageQueue) (id : ℕ) (s : Outcome Slice)
    (key : Outcome (List ℕ))
    → Grows w v (
        with_list
          (record w { queue = q })
          v
          (do
            s' ← s
            key' ← key
            done (record w.list { id = id; list = Map.insert key' s' w.list.list })))
inserted-Grows w v q id (done s) (done key) =
    settle-Grows w
      (record w {
        queue = q;
        list = record w.list { id = id; list = Map.insert key s w.list.list };
      })
      v (length-insert key s w.list.list)
inserted-Grows w v q id (done s) refused = tt
inserted-Grows w v q id (done s) fault = tt
inserted-Grows w v q id refused key = tt
inserted-Grows w v q id fault key = tt

move_front-Grows :
    (w : Writer) (v : Version) (e : Option MemEntry) (q : Option MessageQueue)
    → Grows w v (move_front w v e q)
unfolding SkipList.insert
move_front-Grows w v none q = tt
move_front-Grows w v (some e) none = tt
move_front-Grows w v (some e) (some q) =
    inserted-Grows w v q (if size w.list == 0 then e.seq_num else w.list.id) (encode_mem_entry e)
      (to_string e.key)

may_insert_message-Grows : (w : Writer) (v : Version) → Grows w v (may_insert_message w v)
unfolding may_insert_message
may_insert_message-Grows w v = elim (Bool-cases (is_empty w.queue)) [
  | inl none_left ↦ rw none_left tt
  | inr more ↦ rw more (move_front-Grows w v (get_front w.queue) (pop w.queue))
]

may_insert_message_idle :
    (w : Writer) (v : Version)
    → IsValid w.queue
    → entries w.queue ≡ []
    → may_insert_message w v ≡ idle
unfolding may_insert_message
may_insert_message_idle w v valid none_left = rw ((is_empty_iff w.queue valid).1 none_left) refl

-- What the loop leaves when it has room for all entries of the queue.
abbrev pub Empties : List MemEntry → Writer → Loop → Type 0
Empties es w (drained w' v') = (entries w'.queue ≡ []) × (w'.id ≡ w.id) × IsHolding w' v' es
Empties es w _ = ⊥

same_writer :
    (es : List MemEntry) (w w' : Writer) (r : Loop)
    → w'.id ≡ w.id
    → Empties es w' r
    → Empties es w r
same_writer es w w' (drained w'' v'') same (left, named, holds) = (left, named ∙ same, holds)
same_writer es w w' (held w'' v'') same h = h
same_writer es w w' failed same h = h
same_writer es w w' (running w'' v'') same h = h

step_idle :
    (n : ℕ) (w : Writer) (v : Version)
    → may_insert_message w v ≡ idle
    → insert_messages (suc n) w v ≡ drained w v
unfolding insert_messages
step_idle n w v is = rw (is, insert_messages) refl

step_moved :
    (n : ℕ) (w w' : Writer) (v v' : Version)
    → may_insert_message w v ≡ moved w' v'
    → insert_messages (suc n) w v ≡ insert_messages n w' v'
unfolding insert_messages
step_moved n w w' v v' is = rw (is, insert_messages) refl

no_room :
    (w w' : Writer) (v : Version) (m : ℕ)
    → taken w v + suc m < 110
    → Version.is_full v ≡ true
    → k_max_active_list_size ≤ size w'.list
    → size w'.list ≤ size w.list + 1
    → ⊥
unfolding Version.is_full
no_room w w' v m room full large grown = omega (arith, leb→le k_max_frozen_list v.list_count full)

-- A round on a queue with an entry that has room moves it.
Moves-moved :
    (w : Writer) (v : Version) (e : MemEntry) (l es : List MemEntry) (r : Round)
    → may_insert_message w v ≡ r
    → Moves e l es w v r
    → Grows w v r
    → taken w v + suc (length l) < 110
    → (w' : Writer) × (v' : Version) × (may_insert_message w v ≡ moved w' v')
      × (entries w'.queue ≡ l)
      × (w'.id ≡ w.id)
      × IsHolding w' v' (es ++ e ∷ [])
      × (taken w' v' ≤ taken w v + 1)
Moves-moved w v e l es idle is moves grows room = absurd moves
Moves-moved w v e l es broken is moves grows room = absurd moves
Moves-moved w v e l es (stalled w') is (left, same, held_now, full, large) grows room =
    absurd (no_room w w' v (length l) room full large grows)
Moves-moved w v e l es (moved w' v') is (left, same, held_now) grows room =
    (w', v', is, left, same, held_now, grows)

-- A queue whose entries fit in the room that is left is emptied by the loop, in one round for each
-- entry and one more that ends it.
pub insert_messages_lem :
    (l : List MemEntry) (n : ℕ) (w : Writer) (v : Version) (es : List MemEntry)
    → entries w.queue ≡ l
    → All IsStorable l
    → IsHolding w v es
    → taken w v + length l < 110
    → length l ≤ n
    → Empties (es ++ l) w (insert_messages (suc n) w v)
insert_messages_lem [] n w v es waiting storable holds room enough =
    rw (step_idle n w v (may_insert_message_idle w v holds.valid waiting), append-nil es)
      (waiting, refl, holds)
insert_messages_lem (e ∷ l) zero w v es waiting storable holds room enough = absurd (omega arith)
insert_messages_lem (e ∷ l) (suc n) w v es waiting storable holds room enough =
    let (w', v', is, left, same, holds', grown) =
      Moves-moved w v e l es (may_insert_message w v) refl
        (may_insert_message_lem w v e l es holds waiting storable.0) (may_insert_message-Grows w v)
        room in
    rw (step_moved (suc n) w w' v v' is) (
      subst (λ (h : List MemEntry). Empties h w (insert_messages (suc n) w' v'))
        (append_assoc es (e ∷ []) l)
        (same_writer ((es ++ e ∷ []) ++ l) w w' (insert_messages (suc n) w' v') same (
          insert_messages_lem l n w' v' (es ++ e ∷ []) left storable.1 holds' (omega arith)
            (omega arith))))
