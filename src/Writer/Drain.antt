-- ===== src/Writer/Drain.antt =====
-- What a round of mayInsertMessage of memory/writer.cpp does to the queue and the lists.
use yangkv_v.Base.{
  ℕ, ◌≤◌, ◌<◌, ◌≡◌, inl, inr, refl, List, [], ◌∷◌, ◌++◌, length, get_or, get_or-set_self,
  length-set, leb, true, false, if◌then◌else◌, arith, Bool-cases, leb→le,
}
use yangkv_v.MemEntry.{MemEntry}
use yangkv_v.MemEntry.Storable.{IsStorable}
use yangkv_v.SkipList.{SkipList, new_list, size}
use yangkv_v.MessageQueue.{MessageQueue, is_empty}
use yangkv_v.MessageQueue.Window.{entries, IsValid}
use yangkv_v.MessageQueue.Fifo.{fifo_pop, Takes, pop-refines, is_empty_iff}
use yangkv_v.Version.{Version, Append, appended, parked, append_frozen_list, append_list}
use yangkv_v.Version.Frozen.{Holds, insert-Holds, freeze-Holds}
use yangkv_v.Writer.{
  Writer, Round, idle, moved, stalled, broken, may_insert_message, settle, k_max_active_list_size,
}
use mathlib.Core.Path.{subst}
use yangkv_v.Version

abbrev pub frozen_of : Writer → Version → List SkipList
frozen_of w v = get_or v.list w.id []

-- A writer and the current version hold a history: what is queued is still to come.
pub record IsHolding (w : Writer) (v : Version) (es : List MemEntry) : Type 0 where
  pub valid : IsValid w.queue
  pub placed : w.id < length v.list
  pub holds : Holds es (frozen_of w v) w.list

-- What a round that took `e` off a queue leaves: the rest `l` of the queue, and `e` in the history.
abbrev pub Moves : MemEntry → List MemEntry → List MemEntry → Writer → Version → Round → Type 0
Moves e l es w v idle = ⊥
Moves e l es w v (moved w' v') =
    (entries w'.queue ≡ l) × (w'.id ≡ w.id) × IsHolding w' v' (es ++ e ∷ [])
Moves e l es w v (stalled w') =
    (entries w'.queue ≡ l)
    × (w'.id ≡ w.id)
    × IsHolding w' v (es ++ e ∷ [])
    × (Version.is_full v ≡ true)
    × (k_max_active_list_size ≤ size w'.list)
Moves e l es w v broken = ⊥

appended_frozen :
    (l : SkipList) (i : ℕ) (v : Version)
    → i < length v.list
    → get_or (append_list l i v).list i [] ≡ get_or v.list i [] ++ l ∷ []
unfolding append_list
appended_frozen l i v h = get_or-set_self v.list i (get_or v.list i [] ++ l ∷ []) [] h

placed_after :
    (l : SkipList) (i : ℕ) (v : Version) → i < length v.list → i < length (append_list l i v).list
unfolding append_list
placed_after l i v h = omega (arith, length-set v.list i (get_or v.list i [] ++ l ∷ []))

busy :
    (q : MessageQueue) (e : MemEntry) (l : List MemEntry)
    → IsValid q
    → entries q ≡ e ∷ l
    → is_empty q ≡ false
busy q e l v queued = elim (Bool-cases (is_empty q)) [
  | inl none_left ↦ absurd (cc (queued, (is_empty_iff q v).0 none_left))
  | inr more ↦ more
]

append_lem :
    (l : SkipList) (i : ℕ) (v : Version)
    → append_frozen_list l i v
      ≡ (if Version.is_full v then parked else appended (append_list l i v))
unfolding append_frozen_list
append_lem l i v = refl

settle_lem :
    (e : MemEntry) (l es : List MemEntry) (w₀ w : Writer) (v : Version)
    → entries w.queue ≡ l
    → w.id ≡ w₀.id
    → IsHolding w v (es ++ e ∷ [])
    → Moves e l es w₀ v (settle w v)
settle_lem e l es w₀ w v left same h =
    elim (Bool-cases (leb k_max_active_list_size (size w.list))) [
      | inr small ↦ rw small (left, same, h)
      | inl large ↦ elim (Bool-cases (Version.is_full v)) [
        | inl full ↦
            rw (large, append_lem w.list w.id v, full)
              (left, same, h, full, leb→le k_max_active_list_size (size w.list) large)
        | inr free ↦
            let v' = append_list w.list w.id v in
            let kept : Holds (es ++ e ∷ []) (get_or v'.list w.id []) new_list =
              rw (appended_frozen w.list w.id v h.placed)
                (freeze-Holds (es ++ e ∷ []) (frozen_of w v) w.list h.holds) in
            rw (large, append_lem w.list w.id v, free)
              (
                left,
                same,
                record {
                  valid = h.valid;
                  placed = placed_after w.list w.id v h.placed;
                  holds = kept;
                },
              )
      ]
    ]

-- For a writer and a version that hold a history, and a queue whose oldest entry is storable, a
-- round of mayInsertMessage takes that entry off the queue, which keeps the rest, and the writer
-- and the version then hold the history extended by it, whether the list is frozen or not; the
-- round stays in AppendFrozenList only with a full version and a list that has reached its size,
-- and it neither finds the queue empty nor breaks an assertion.
pub may_insert_message_lem :
    (w : Writer) (v : Version) (e : MemEntry) (l es : List MemEntry)
    → IsHolding w v es
    → entries w.queue ≡ e ∷ l
    → IsStorable e
    → Moves e l es w v (may_insert_message w v)
unfolding may_insert_message fifo_pop
may_insert_message_lem w v e l es h queued s =
    let (front, q', popped, left, valid) =
      subst (λ (t : List MemEntry). Takes (fifo_pop t) w.queue) queued
        (pop-refines w.queue h.valid) in
    let (list', inserted, kept) = insert-Holds e es (frozen_of w v) w.list s h.holds in
    let w' : Writer = record w { queue = q'; list = list' } in
    rw (busy w.queue e l h.valid queued, front, popped, inserted)
      (settle_lem e l es w w' v left refl
        (record { valid = valid; placed = h.placed; holds = kept }))
