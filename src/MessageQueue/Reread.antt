-- ===== src/MessageQueue/Reread.antt =====
-- The queue while the constructor of memory/message_queue.cpp replays a log.
use yangkv_v.Base.{
  ℕ, ◌+◌, ◌-◌, ◌%◌, ◌^◌, ◌≤◌, ◌<◌, ◌≡◌, refl, sym, ap, ◌∙◌, List, [], ◌∷◌, ◌++◌, map, max, length,
  take, drop, All, length-append, drop_front, take_front, append_assoc, false, arith,
}
use yangkv_v.MemEntry.{MemEntry}
use yangkv_v.MemEntry.Storable.{code}
use yangkv_v.Log.Record.{log_record}
use yangkv_v.Log.RoundTrip.{scratch_after}
use yangkv_v.MessageQueue.{MessageQueue, k_queue_size, is_full, store}
use yangkv_v.MessageQueue.Fifo.{store_lem}
use yangkv_v.MessageQueue.Rebound.{
  placed, rebind-placed, length-rebind_places, window-rebind_places, window-rebound, window-add,
}
use yangkv_v.MessageQueue.Replay.{rebind, rebind_places}
use yangkv_v.MessageQueue.Window.{window, entries, IsValid, length-window}
use mathlib.Core.Path.{ap₂}
use mathlib.Core.List.{map-append}

-- The records of entries, one behind the other.
unfoldable pub logged_bytes : List MemEntry → List ℕ
logged_bytes [] = []
logged_bytes (e ∷ es) = log_record e ++ logged_bytes es

-- The scratch buffer behind the last record.
unfoldable pub scratch_end : List ℕ → List MemEntry → List ℕ
unfolding scratch_after
scratch_end buf [] = buf
scratch_end buf (e ∷ es) = scratch_end (scratch_after buf e) es

-- The greatest sequence number.
abbrev pub max_seq : ℕ → List MemEntry → ℕ
max_seq m [] = m
max_seq m (e ∷ es) = max_seq (max m e.seq_num) es

-- A queue behind which the constructor is at work: it holds what it held before the log that is
-- being read, and the entries of the log that have been read, as the scratch buffer now shows them.
pub record IsReplaying (buf : List ℕ) (prior seen : List MemEntry) (first : ℕ) (q : MessageQueue)
    : Type 0 where
  pub valid : IsValid q
  pub shut : q.is_ready ≡ false
  pub held : entries q ≡ prior ++ map (placed buf) seen
  pub at_first : first ≡ q.r_ptr + length prior
  pub at_last : q.w_ptr ≡ first + length seen

append_parts {ℓ} :
    {A : Type ℓ} (xs ys xs' ys' : List A)
    → length xs ≡ length xs'
    → xs ++ ys ≡ xs' ++ ys'
    → (xs ≡ xs') × (ys ≡ ys')
append_parts xs ys xs' ys' same e = (
  sym (take_front (length xs) xs ys refl)
      ∙ ap (take (length xs)) e
      ∙ take_front (length xs) xs' ys' same,
  sym (drop_front (length xs) xs ys refl)
      ∙ ap (drop (length xs)) e
      ∙ drop_front (length xs) xs' ys' same,
)

map-rebind :
    (buf buf' : List ℕ) (seen : List MemEntry)
    → All (λ e. length (code e) ≤ length buf) seen
    → length buf ≡ length buf'
    → map (rebind buf') (map (placed buf) seen) ≡ map (placed buf') seen
map-rebind buf buf' [] fit same = refl
map-rebind buf buf' (e ∷ seen) fit same =
    ap₂ (λ (x : MemEntry) (l : List MemEntry). x ∷ l) (rebind-placed buf buf' e fit.0 same)
      (map-rebind buf buf' seen fit.1 same)

-- The queue when a record has been read into the scratch buffer.
abbrev pub reread_queue : List ℕ → ℕ → ℕ → MessageQueue → MessageQueue
reread_queue buf first seq q = record q {
  slots = rebind_places buf q.slots first (q.w_ptr - first);
  max_id = max q.max_id seq;
}

pub reread_queue-IsReplaying :
    (buf buf' : List ℕ) (prior seen : List MemEntry) (first seq : ℕ) (q : MessageQueue)
    → All (λ e. length (code e) ≤ length buf) seen
    → length buf ≡ length buf'
    → IsReplaying buf prior seen first q
    → IsReplaying buf' prior seen first (reread_queue buf' first seq q)
unfolding entries
reread_queue-IsReplaying buf buf' prior seen first seq q fit same s =
    let a = length prior in
    let n = length seen in
    let count : q.w_ptr - q.r_ptr ≡ a + n = omega (arith, s.at_first, s.at_last) in
    let new : q.w_ptr - first ≡ n = omega (arith, s.at_first, s.at_last) in
    let old_slots = q.slots in
    let few : a + n ≤ k_queue_size = omega (arith, s.at_first, s.at_last, s.valid.fits) in
    let (old, own) =
      append_parts (window q.slots q.r_ptr a) (window q.slots (q.r_ptr + a) n) prior
        (map (placed buf) seen) (length-window q.slots q.r_ptr a)
        (sym (window-add q.slots q.r_ptr a n) ∙ ap (window q.slots q.r_ptr) (sym count) ∙ s.held) in
    let slots' = rebind_places buf' q.slots first (q.w_ptr - first) in
    let slots₁ : slots' ≡ rebind_places buf' q.slots (q.r_ptr + a) n =
      ap₂ (rebind_places buf' q.slots) s.at_first new in
    let held : window slots' q.r_ptr (q.w_ptr - q.r_ptr) ≡ prior ++ map (placed buf') seen =
      ap₂ (λ (l : List MemEntry) (t : ℕ). window l q.r_ptr t) slots₁ count
      ∙ window-add (rebind_places buf' q.slots (q.r_ptr + a) n) q.r_ptr a n
      ∙ ap₂ (λ (k l : List MemEntry). k ++ l)
          (window-rebind_places buf' q.slots q.r_ptr a (q.r_ptr + a) n (omega arith) (omega arith)
            ∙ old)
          (window-rebound buf' q.slots (q.r_ptr + a) n s.valid.places (omega arith)
            ∙ ap (map (rebind buf')) own
            ∙ map-rebind buf buf' seen fit same) in
    record {
      valid = record {
        places = length-rebind_places buf' q.slots first (q.w_ptr - first) ∙ s.valid.places;
        started = s.valid.started;
        ordered = s.valid.ordered;
        fits = s.valid.fits;
        counts = s.valid.counts;
      };
      shut = s.shut;
      held = held;
      at_first = s.at_first;
      at_last = s.at_last;
    }

pub store-IsReplaying :
    (buf : List ℕ) (prior seen : List MemEntry) (first : ℕ) (e : MemEntry) (q : MessageQueue)
    → IsReplaying buf prior seen first q
    → is_full q ≡ false
    → q.w_ptr + 1 < 2 ^ 64
    → IsReplaying buf prior (seen ++ e ∷ []) first (store (placed buf e) q)
      × ((store (placed buf e) q).w_ptr ≡ q.w_ptr + 1)
unfolding store
store-IsReplaying buf prior seen first e q s free room =
    let (held, valid) = store_lem (placed buf e) q s.valid free room in
    let next : (q.w_ptr + 1) % 2 ^ 64 ≡ q.w_ptr + 1 = omega arith in
    (
      record {
        valid = valid;
        shut = s.shut;
        held =
            held
            ∙ ap (λ (l : List MemEntry). l ++ placed buf e ∷ []) s.held
            ∙ append_assoc prior (map (placed buf) seen) (placed buf e ∷ [])
            ∙ ap (λ (l : List MemEntry). prior ++ l) (sym (map-append (placed buf) seen (e ∷ [])));
        at_first = s.at_first;
        at_last = omega (arith, s.at_last, length-append seen (e ∷ []));
      },
      next,
    )
