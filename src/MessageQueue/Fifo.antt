-- ===== src/MessageQueue/Fifo.antt =====
-- The ring of memory/message_queue.cpp is a queue of at most k_queue_size entries.
use yangkv_v.Base.{
  ◌↔◌, ℕ, zero, suc, ◌+◌, ◌-◌, ◌%◌, ◌^◌, ◌<◌, ◌≡◌, inl, inr, refl, sym, ap, ◌∙◌, List, [], ◌∷◌,
  ◌++◌, length, get_or, set, get_or-set_self, length-set, ltb, ◌==◌, Bool, true, false,
  if◌then◌else◌, Option, none, some, arith, Bool-cases, lt→ltb, ==_iff,
}
use yangkv_v.MessageQueue.{
  logged, MessageQueue, k_queue_size, blank, is_full, is_empty, store, resume, push, pop, get_front,
  Push, pushed, blocked,
}
use yangkv_v.MemEntry.{MemEntry}
use yangkv_v.Env.{Run, returns, waits, crash}
use yangkv_v.Log.{add_record}
use yangkv_v.MessageQueue.Window.{window, entries, IsValid, window-set, window_last, length-entries}
use mathlib.Core.Path.{ap₂, subst}

-- What a bounded queue promises: a push is refused exactly when the bound is reached.
abbrev pub Fifo : Type 0
Fifo = List MemEntry

unfoldable pub fifo_push : MemEntry → Fifo → Option Fifo
fifo_push e l = if length l == k_queue_size then none else some (l ++ e ∷ [])

unfoldable pub fifo_pop : Fifo → Option (MemEntry × Fifo)
fifo_pop [] = none
fifo_pop (e ∷ l) = some (e, l)

pub is_full_iff : (q : MessageQueue) → IsValid q → is_full q ≡ (length (entries q) == k_queue_size)
unfolding is_full
is_full_iff q v = rw (length-entries q) (ground arith)

-- A ring with nothing in it.
pub is_empty_iff : (q : MessageQueue) → IsValid q → (is_empty q ≡ true) ↔ (entries q ≡ [])
unfolding is_empty entries
is_empty_iff q v = (
  λ h.
      let none_left : q.w_ptr - q.r_ptr ≡ 0 = omega (arith, (==_iff q.w_ptr q.r_ptr).0 h) in
      ap (window q.slots q.r_ptr) none_left,
  λ h.
      (==_iff q.w_ptr q.r_ptr).1
        (omega (arith, length-entries q, ap (length {A = MemEntry}) h, v.ordered)),
)

pub store_lem :
    (e : MemEntry) (q : MessageQueue)
    → IsValid q
    → is_full q ≡ false
    → q.w_ptr + 1 < 2 ^ 64
    → (entries (store e q) ≡ entries q ++ e ∷ []) × IsValid (store e q)
unfolding store is_full entries
store_lem e q v free room =
    let n = q.w_ptr - q.r_ptr in
    let slots' = set q.slots (q.w_ptr % k_queue_size) e in
    let next : (q.w_ptr + 1) % 2 ^ 64 ≡ q.w_ptr + 1 = omega arith in
    let one_more : (q.w_ptr + 1) % 2 ^ 64 - q.r_ptr ≡ suc n = omega (arith, v.ordered) in
    let below : q.w_ptr < q.r_ptr + k_queue_size = ground (arith, v.fits, v.ordered) in
    (
      ap (window slots' q.r_ptr) one_more
          ∙ window_last slots' q.r_ptr n
          ∙ ap₂ (λ (l : List MemEntry) (x : MemEntry). l ++ x ∷ [])
              (window-set q.slots q.r_ptr n q.w_ptr e (omega (arith, v.ordered)) below)
              (ap (λ (t : ℕ). get_or slots' (t % k_queue_size) blank) (omega (arith, v.ordered))
                ∙ get_or-set_self q.slots (q.w_ptr % k_queue_size) e blank
                    (omega (arith, v.places))),
      record {
        places = length-set q.slots (q.w_ptr % k_queue_size) e ∙ v.places;
        started = v.started;
        ordered = omega (arith, v.ordered);
        fits = omega arith;
        counts = omega arith;
      },
    )

pub resume_lem :
    (e : MemEntry) (q : MessageQueue)
    → resume e q ≡ (if is_full q then blocked q else pushed (store e q))
unfolding resume
resume_lem e q = refl

abbrev pub Stores : Option Fifo → Push → MessageQueue → Type 0
Stores none p q = p ≡ blocked q
Stores (some l) p q = (q' : MessageQueue) × (p ≡ pushed q') × (entries q' ≡ l) × IsValid q'

-- On a valid ring whose write counter does not run over, the part of push that looks at the ring
-- does what a queue bounded by kQueueSize does: it stays blocked exactly when the queue refuses,
-- and otherwise the entry is last and the ring is valid.
pub resume-refines :
    (e : MemEntry) (q : MessageQueue)
    → IsValid q
    → q.w_ptr + 1 < 2 ^ 64
    → Stores (fifo_push e (entries q)) (resume e q) q
unfolding fifo_push
resume-refines e q v room = elim (Bool-cases (is_full q)) [
  | inl full ↦
      let full' : (length (entries q) == k_queue_size) ≡ true = sym (is_full_iff q v) ∙ full in
      rw (full', resume_lem e q, full) refl
  | inr free ↦
      let free' : (length (entries q) == k_queue_size) ≡ false = sym (is_full_iff q v) ∙ free in
      let (stored, valid) = store_lem e q v free room in
      rw free' (store e q, rw (resume_lem e q, free), stored, valid)
]

abbrev pub Takes : Option (MemEntry × Fifo) → MessageQueue → Type 0
Takes none q = (pop q ≡ none) × (get_front q ≡ none)
Takes (some (e, l)) q =
    (get_front q ≡ some e) × (q' : MessageQueue) × (pop q ≡ some q') × (entries q' ≡ l) × IsValid q'

pop_at :
    (q : MessageQueue) (n : ℕ)
    → IsValid q
    → q.w_ptr - q.r_ptr ≡ n
    → Takes (fifo_pop (window q.slots q.r_ptr n)) q
unfolding pop get_front fifo_pop window entries
pop_at q zero v h =
    let still : ltb q.r_ptr q.w_ptr ≡ false = ground (arith, v.ordered) in (rw still, rw still)
pop_at q (suc n) v h =
    let more : ltb q.r_ptr q.w_ptr ≡ true = lt→ltb q.r_ptr q.w_ptr (omega arith) in
    let next : (q.r_ptr + 1) % 2 ^ 64 ≡ q.r_ptr + 1 = omega (arith, v.counts) in
    let left : q.w_ptr - (q.r_ptr + 1) ≡ n = omega arith in
    (
      rw more,
      record q { r_ptr = q.r_ptr + 1 },
      rw (more, next),
      ap (window q.slots (q.r_ptr + 1)) left,
      record {
        places = v.places;
        started = omega arith;
        ordered = omega arith;
        fits = omega (arith, v.fits);
        counts = v.counts;
      },
    )

-- On a valid ring getFront and pop take the oldest entry and leave the rest in a valid ring, and
-- both fail their assertion on the empty ring.
pub pop-refines : (q : MessageQueue) → IsValid q → Takes (fifo_pop (entries q)) q
pop-refines q v = unfold entries in pop_at q (q.w_ptr - q.r_ptr) v refl

pushed_back : {q q' : MessageQueue} → pushed q ≡ pushed q' → q ≡ q'
pushed_back e = cc

resume-pushed :
    (e : MemEntry) (q q' : MessageQueue)
    → IsValid q
    → q.w_ptr + 1 < 2 ^ 64
    → resume e q ≡ pushed q'
    → (entries q' ≡ entries q ++ e ∷ []) × IsValid q'
resume-pushed e q q' v room h = elim (Bool-cases (is_full q)) [
  | inl full ↦ let held : blocked q ≡ pushed q' = rw (resume_lem e q, full) at h in absurd (cc held)
  | inr free ↦
      let stored : store e q ≡ q' = pushed_back (rw (resume_lem e q, free) at h) in
      subst (λ (p : MessageQueue). (entries p ≡ entries q ++ e ∷ []) × IsValid p) stored
        (store_lem e q v free room)
]

-- A push that returns, on a valid ring whose write counter does not run over, has put its entry
-- behind those that were queued and left the ring valid, whether it wrote to the log or not.
pub push-pushed :
    (e : MemEntry) (q q' : MessageQueue)
    → IsValid q
    → q.w_ptr + 1 < 2 ^ 64
    → push e q ≡ pushed q'
    → (entries q' ≡ entries q ++ e ∷ []) × IsValid q'
unfolding push entries
push-pushed e q q' v room h = either q.is_ready h
  where
    after_log :
        (r : Run) → logged r e q ≡ pushed q' → (entries q' ≡ entries q ++ e ∷ []) × IsValid q'
    after_log (returns s f) k =
        resume-pushed e (record q { log = f }) q'
          (record {
            places = v.places;
            started = v.started;
            ordered = v.ordered;
            fits = v.fits;
            counts = v.counts;
          })
          room k
    after_log waits k = cc
    after_log crash k = cc

    either :
        (b : Bool)
        → (if b then logged (add_record e q.log) e q else resume e q) ≡ pushed q'
        → (entries q' ≡ entries q ++ e ∷ []) × IsValid q'
    either true k = after_log (add_record e q.log) k
    either false k = resume-pushed e q q' v room k
