-- ===== src/MessageQueue/Search.antt =====
-- MessageQueue::search of memory/message_queue.cpp against a reading of the queue as a list.
use yangkv_v.Base.{
  ℕ, zero, suc, ◌+◌, ◌-◌, ◌%◌, ◌^◌, ◌≤◌, ◌<◌, ◌≡◌, inl, inr, refl, ◌∙◌, List, [], ◌∷◌, ◌++◌, get_or,
  leb, Bool, true, false, ◌&&◌, if◌then◌else◌, arith, Bool-cases, All, same_bytes, le→leb,
}
use yangkv_v.MemEntry.{MemEntry}
use yangkv_v.MessageQueue.{
  MessageQueue, k_queue_size, blank, Lookup, missed, report, matches, search_loop, search, text,
}
use yangkv_v.MessageQueue.Window.{window, entries, IsValid, window_last}

-- The last entry of a list that matches.
abbrev or_else : Lookup → Lookup → Lookup
or_else missed d = d
or_else r d = r

unfoldable pub latest : List ℕ → ℕ → List MemEntry → Lookup
latest key seq [] = missed
latest key seq (e ∷ l) = or_else (latest key seq l) (if matches key seq e then report e else missed)

report-or_else : (e : MemEntry) (d : Lookup) → or_else (report e) d ≡ report e
report-or_else e d = elim (Bool-cases e.value_type) [ inl b ↦ rw b | inr b ↦ rw b ]

and_false : (b : Bool) → (b && false) ≡ false
and_false true = refl
and_false false = refl

latest_last :
    (key : List ℕ) (seq : ℕ) (l : List MemEntry) (e : MemEntry)
    → latest key seq (l ++ e ∷ []) ≡ (if matches key seq e then report e else latest key seq l)
unfolding latest
latest_last key seq [] e = refl
latest_last key seq (x ∷ l) e =
    rw (latest_last key seq l e) (elim (Bool-cases (matches key seq e)) [
      | inl hit ↦ rw hit (report-or_else e (if matches key seq x then report x else missed))
      | inr miss ↦ rw miss
    ])

-- One round of the loop at a place of the window.
round :
    (fuel i end : ℕ) (slots : List MemEntry) (key : List ℕ) (seq : ℕ)
    → leb end i ≡ true
    → search_loop (suc fuel) i end slots key seq ≡ (
        if matches key seq (get_or slots (i % k_queue_size) blank)
        then report (get_or slots (i % k_queue_size) blank)
        else search_loop fuel ((i + 2 ^ 64 - 1) % 2 ^ 64) end slots key seq)
unfolding search_loop
round fuel i end slots key seq h = rw h

past :
    (fuel i end : ℕ) (slots : List MemEntry) (key : List ℕ) (seq : ℕ)
    → leb end i ≡ false
    → search_loop (suc fuel) i end slots key seq ≡ missed
unfolding search_loop
past fuel i end slots key seq h = rw h

search_loop-latest :
    (n fuel r : ℕ) (slots : List MemEntry) (key : List ℕ) (seq : ℕ)
    → n < fuel
    → 1 ≤ r
    → r + n < 2 ^ 64
    → search_loop fuel (r + n - 1) r slots key seq ≡ latest key seq (window slots r n)
search_loop-latest n zero r slots key seq h s k = absurd (omega arith)
search_loop-latest zero (suc fuel) r slots key seq h s k =
    let ended : leb r (r + 0 - 1) ≡ false = ground arith in
    past fuel (r + 0 - 1) r slots key seq ended ∙ unfold window latest in refl
search_loop-latest (suc n) (suc fuel) r slots key seq h s k =
    let going : leb r (r + suc n - 1) ≡ true = le→leb r (r + suc n - 1) (omega arith) in
    let next : (r + suc n - 1 + 2 ^ 64 - 1) % 2 ^ 64 ≡ r + n - 1 = omega arith in
    let here : r + suc n - 1 ≡ r + n = omega arith in
    let entry = get_or slots ((r + n) % k_queue_size) blank in
    rw (
      round fuel (r + suc n - 1) r slots key seq going,
      next,
      here,
      search_loop-latest n fuel r slots key seq (omega arith) s (omega arith),
      window_last slots r n,
      latest_last key seq (window slots r n) entry,
    )

-- On a valid ring the backward loop of search ends within its fuel and reports the last queued
-- entry that matches the key and the number, a deletion as NotFound.
pub search-latest :
    (key : List ℕ) (seq : ℕ) (q : MessageQueue)
    → IsValid q
    → search key seq q ≡ latest key seq (entries q)
unfolding search entries
search-latest key seq q v =
    let start : (q.w_ptr + 2 ^ 64 - 1) % 2 ^ 64 ≡ q.r_ptr + (q.w_ptr - q.r_ptr) - 1 =
      omega (arith, v.counts, v.ordered, v.started) in
    rw start (
      search_loop-latest (q.w_ptr - q.r_ptr) (k_queue_size + 1) q.r_ptr q.slots key seq
        (omega (arith, v.fits)) v.started (omega (arith, v.counts, v.ordered)))

-- A sequence number above those of the entries that are queued finds none of them.
latest-missed :
    (key : List ℕ) (seq : ℕ) (l : List MemEntry)
    → All (λ e. e.seq_num < seq) l
    → latest key seq l ≡ missed
unfolding latest
latest-missed key seq [] h = refl
latest-missed key seq (e ∷ l) h =
    let young : leb seq e.seq_num ≡ false = ground (arith, h.0) in
    rw (latest-missed key seq l h.1, young, and_false (same_bytes key (text e.key)))

-- On a valid ring, a search with a number above those of all queued entries misses, whatever the
-- key.
pub search_above :
    (key : List ℕ) (seq : ℕ) (q : MessageQueue)
    → IsValid q
    → All (λ e. e.seq_num < seq) (entries q)
    → search key seq q ≡ missed
search_above key seq q v h = search-latest key seq q v ∙ latest-missed key seq (entries q) h
