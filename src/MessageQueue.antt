-- ===== src/MessageQueue.antt =====
-- memory/message_queue.h and memory/message_queue.cpp: the ring of forty places through which a
-- client hands entries to a writer thread. The mutex makes a push one step of its own; a push that
-- finds the ring full waits inside it, so it comes back as `blocked`.
pub mod Window
pub mod Fifo
pub mod Search
pub mod Replay
pub mod Rebound
pub mod Reread
pub mod Rounds
pub mod Opened
pub mod Shown
pub mod Recovered
use yangkv_v.Base.{
  ℕ, zero, suc, ◌+◌, ◌-◌, ◌%◌, ◌^◌, List, take, replicate, get_or, set, ltb, leb, ◌==◌, Bool, true,
  false, ◌&&◌, if◌then◌else◌, Option, none, some, same_bytes,
}
use yangkv_v.Slice.{Slice, empty_slice}
use yangkv_v.MemEntry.{MemEntry}
use yangkv_v.Status.{Status, ok, not_found}
use yangkv_v.Env.{WritableFile, Run, returns, waits, crash}
use yangkv_v.Log.{add_record}

abbrev pub k_queue_size : ℕ
k_queue_size = 40

-- A place that nothing has been put into.
abbrev pub blank : MemEntry
blank = record { key = empty_slice; value = empty_slice; seq_num = 0; value_type = false }

pub record MessageQueue : Type 0 where
  -- queue_, k_queue_size + 5 places
  pub slots : List MemEntry
  pub w_ptr : ℕ
  pub r_ptr : ℕ
  pub log : WritableFile
  pub max_id : ℕ
  pub is_ready : Bool

-- MessageQueue(writerID, logID, env) where no older log is there to be read (logID is 1).
abbrev pub new_queue : WritableFile → MessageQueue
new_queue log = record {
  slots = replicate 45 blank;
  w_ptr = 1;
  r_ptr = 1;
  log = log;
  max_id = 0;
  is_ready = true;
}

-- `w_ptr - r_ptr == k_queue_size`, in uint64_t
unfoldable pub is_full : MessageQueue → Bool
is_full q = (q.w_ptr + 2 ^ 64 - q.r_ptr) % 2 ^ 64 == k_queue_size

unfoldable pub is_empty : MessageQueue → Bool
is_empty q = q.w_ptr == q.r_ptr

pub data Push : Type 0 where
  -- The entry is in the ring.
  pushed : MessageQueue → Push
  -- The entry is in the log, and the push waits for a place in the ring.
  blocked : MessageQueue → Push
  -- The push waits for a system call.
  waiting : Push
  -- AddRecord has failed an assertion.
  aborted : Push

-- queue_[w_ptr % k_queue_size] = entry; w_ptr++;
unfoldable pub store : MemEntry → MessageQueue → MessageQueue
store entry q = record q {
  slots = set q.slots (q.w_ptr % k_queue_size) entry;
  w_ptr = (q.w_ptr + 1) % 2 ^ 64;
}

-- The rounds of `while(isFull()) usleep(5)`: what the push comes to when it looks at the ring.
unfoldable pub resume : MemEntry → MessageQueue → Push
unfolding store is_full
resume entry q = if is_full q then blocked q else pushed (store entry q)

abbrev logged : Run → MemEntry → MessageQueue → Push
logged (returns s f) entry q = resume entry (record q { log = f })
logged waits entry q = waiting
logged crash entry q = aborted

unfoldable pub push : MemEntry → MessageQueue → Push
unfolding resume
push entry q = if q.is_ready then logged (add_record entry q.log) entry q else resume entry q

-- The reads that the assertion `w_ptr > r_ptr` guards; `none` is its failure.
unfoldable pub pop : MessageQueue → Option MessageQueue
pop q = if ltb q.r_ptr q.w_ptr then some (record q { r_ptr = (q.r_ptr + 1) % 2 ^ 64 }) else none

unfoldable pub get_front : MessageQueue → Option MemEntry
get_front q =
    if ltb q.r_ptr q.w_ptr then some (get_or q.slots (q.r_ptr % k_queue_size) blank) else none

-- The bytes of a readable slice, as ToString copies them.
abbrev pub text : Slice → List ℕ
text s = take s.size s.ptr

pub data Lookup : Type 0 where
  -- Found, with the status that is reported and the value, which a deletion leaves alone.
  found : Status → Option (List ℕ) → Lookup
  missed : Lookup
  -- The fuel of the loop ran out.
  looping : Lookup

-- What an entry that matches reports.
abbrev pub report : MemEntry → Lookup
report e = if e.value_type then found not_found none else found ok (some (text e.value))

-- `key == entry.key.ToString() && seq <= entry.seq_num`
abbrev pub matches : List ℕ → ℕ → MemEntry → Bool
matches key seq e = same_bytes key (text e.key) && leb seq e.seq_num

-- `for (uint64_t i = begin; i >= end; i--)`: below 0 the counter wraps around.
unfoldable pub search_loop : ℕ → ℕ → ℕ → List MemEntry → List ℕ → ℕ → Lookup
search_loop zero i end slots key seq = looping
search_loop (suc fuel) i end slots key seq =
    let entry = get_or slots (i % k_queue_size) blank in
    let rest = search_loop fuel ((i + 2 ^ 64 - 1) % 2 ^ 64) end slots key seq in
    if leb end i then (if matches key seq entry then report entry else rest) else missed

-- Each round but the last looks at one place between r_ptr and w_ptr, so the fuel is enough when the
-- two are at most k_queue_size apart.
unfoldable pub search : List ℕ → ℕ → MessageQueue → Lookup
search key seq q =
    search_loop (k_queue_size + 1) ((q.w_ptr + 2 ^ 64 - 1) % 2 ^ 64) q.r_ptr q.slots key seq
