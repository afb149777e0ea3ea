-- ===== src/YangkvMain/Restart.antt =====
-- init of main/yangkvMain.cpp in a directory that may hold the logs of earlier runs.
use yangkv_v.Base.{
  ℕ, zero, suc, ◌+◌, ◌-◌, ◌%◌, ◌^◌, max, Bool, true, false, List, [], ◌∷◌, same_bytes, Option, none,
  some, if◌then◌else◌,
}
use yangkv_v.Env.{WritableFile}
use yangkv_v.Env.Names.{log_file_name}
use yangkv_v.Hash.{k_max_writer}
use yangkv_v.Log.{Pread}
use yangkv_v.MessageQueue.{MessageQueue}
use yangkv_v.MessageQueue.Replay.{Replay, replayed, stuck, broken, endless, open_queue}
use yangkv_v.SkipList.{new_list}
use yangkv_v.Version.{new_version}
use yangkv_v.Writer.{Writer}
use yangkv_v.YangkvMain.{YangkvMain}

-- The files by their names, with their bytes.
abbrev pub Directory : Type 0
Directory = List ℕ → Option (List ℕ)

-- What `::open` with O_CREAT and O_TRUNC does to the directory.
unfoldable pub create : List ℕ → Directory → Directory
create name dir n = if same_bytes n name then some [] else dir n

pub data Start (A : Type 0) : Type 0 where
  started : A → Start A
  -- A push of a constructor waits for a place in its queue.
  waiting : Start A
  -- An assertion fails, or memory is read where there is none.
  crashed : Start A
  -- The fuel ran out.
  unfinished : Start A

infixl 5 ◌>>=◌
abbrev pub ◌>>=◌ : {A B : Type 0} → Start A → (A → Start B) → Start B
started a >>= f = f a
waiting >>= f = waiting
crashed >>= f = crashed
unfinished >>= f = unfinished

-- getLogID: the first number, from `file_id` on, under which the writer has no log. As many rounds
-- as the writer has logs, and one, are enough.
unfoldable pub get_log_id : ℕ → ℕ → ℕ → Directory → Start ℕ
get_log_id zero file_id writer_id dir = unfinished
get_log_id (suc fuel) file_id writer_id dir =
    let rest = get_log_id fuel (file_id + 1) writer_id dir in
    elim (dir (log_file_name file_id writer_id)) [ none ↦ started file_id | some _ ↦ rest ]

abbrev pub bytes_of : Option (List ℕ) → List ℕ
bytes_of none = []
bytes_of (some bytes) = bytes

abbrev pub of_replay : Replay → Start MessageQueue
of_replay (replayed q) = started q
of_replay (stuck q) = waiting
of_replay broken = crashed
of_replay endless = unfinished

-- `assert(logfile_ != nullptr)`
abbrev pub assert_opened : Bool → Start Directory → Start Directory
assert_opened true r = r
assert_opened false r = crashed

-- The system and the memory: what pread does, whether a file of a name can be created, what the
-- new log of a writer answers to the calls to come, and what stands in the scratch buffer that the
-- reader of a log allocates, by the writer and the number of the log.
module _ (pread : Pread) (creates : List ℕ → Bool) (log : ℕ → WritableFile)
    (scratch : ℕ → ℕ → List ℕ) where
  -- The logs that the constructor of a queue reads, from the number `i` on; getLogID has found each
  -- of them, and a file that is there can be opened.
  unfoldable pub old_logs : ℕ → ℕ → ℕ → Directory → List (List ℕ × List ℕ)
  old_logs zero i writer_id dir = []
  old_logs (suc n) i writer_id dir =
      (bytes_of (dir (log_file_name i writer_id)), scratch writer_id i)
      ∷ old_logs n (i + 1) writer_id dir

  -- A round of the first loop of init, with the constructors of Writer and MessageQueue.
  unfoldable pub start_writer : ℕ → ℕ → Directory → Start (Directory × Writer)
  unfolding get_log_id old_logs
  start_writer fuel id dir = do
    log_id ← get_log_id fuel 1 id dir
    let name = log_file_name log_id id
    dir' ← assert_opened (creates name) (started (create name dir))
    queue ← of_replay (open_queue pread (log id) (old_logs (log_id - 1) 1 id dir'))
    started (dir', record { queue = queue; list = new_list; id = id })

  -- The first loop of init, by the number of writers that are left.
  unfoldable pub start_writers : ℕ → ℕ → Directory → ℕ → Start (Directory × List Writer)
  start_writers fuel id dir zero = started (dir, [])
  start_writers fuel id dir (suc n) = do
    (dir₁, w) ← start_writer fuel id dir
    (dir₂, ws) ← start_writers fuel (id + 1) dir₁ n
    started (dir₂, w ∷ ws)

  -- `idx_ = std::max((uint64_t)idx_, queue->maxid() + 1)` over the writers.
  unfoldable pub next_idx : ℕ → List Writer → ℕ
  next_idx idx [] = idx
  next_idx idx (w ∷ ws) = next_idx (max idx ((w.queue.max_id + 1) % 2 ^ 64)) ws

  -- init
  unfoldable pub restart : ℕ → Directory → Start (Directory × YangkvMain)
  unfolding start_writers next_idx start_writer
  restart fuel dir = do
    (dir', writers) ← start_writers fuel 0 dir k_max_writer
    started (dir', record { idx = next_idx 1 writers; writer = writers; current = new_version })
