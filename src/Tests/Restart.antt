-- ===== src/Tests/Restart.antt =====
-- Runs of init of main/yangkvMain.cpp and of the constructor of memory/message_queue.cpp over the
-- logs of earlier runs, and of the names and paths of files.
use yangkv_v.Base.{
  ℕ, zero, suc, ◌+◌, ◌<◌, ◌≤◌, ◌≡◌, ◌^◌, refl, List, [], ◌∷◌, map, length, drop, take, replicate,
  set, All, none, some, Bool, true, false, same_bytes, if◌then◌else◌, arith,
}
use yangkv_v.Base.Outcome.{done}
use yangkv_v.Coding.{encode_varint32, encode_fixed64}
use yangkv_v.Env.{WritableFile}
use yangkv_v.Env.Names.{decimal, log_file_name, table_file_name}
use yangkv_v.Env.Paths.{dirname}
use yangkv_v.Hash.{writer_of, k_max_writer}
use yangkv_v.Log.{Pread}
use yangkv_v.MemEntry.{MemEntry, of_strings}
use yangkv_v.MemEntry.Storable.{IsStorable, code}
use yangkv_v.MessageQueue.{MessageQueue, k_queue_size}
use yangkv_v.MessageQueue.Opened.{OldLog, IsOldLog, on_disk, recorded, recovered, open_queue-stuck}
use yangkv_v.MessageQueue.Replay.{replayed, stuck, open_queue}
use yangkv_v.MessageQueue.Reread.{logged_bytes}
use yangkv_v.MessageQueue.Shown.{key_value, number, open_queue-shows_last}
use yangkv_v.MessageQueue.Window.{entries}
use yangkv_v.Version.{Version, new_version}
use yangkv_v.Version.Frozen.{last_of}
use yangkv_v.Writer.{Writer, drained, insert_messages}
use yangkv_v.YangkvMain.{YangkvMain, writer_at, init, get_value}
use yangkv_v.YangkvMain.Durable.{restart-drained}
use yangkv_v.YangkvMain.Latest.{answer_of}
use yangkv_v.YangkvMain.Reloaded.{restart-Reloads}
use yangkv_v.YangkvMain.Stocked.{IsStocked, IsReloaded}
use yangkv_v.YangkvMain.Restart.{Directory, started, create, restart}
use yangkv_v.YangkvMain.Restarted.{restart-keeps}

abbrev first : MemEntry
first = of_strings (b'k' ∷ []) (b'v' ∷ []) 5 false

abbrev second : MemEntry
second = of_strings (b'o' ∷ []) (b'w' ∷ []) 6 false

abbrev two : List MemEntry
two = first ∷ second ∷ []

abbrev scratch : List ℕ
scratch = replicate 64 0

storable : All IsStorable two
storable = omega arith

fits : All (λ e. length (code e) + 8 ≤ length scratch) two
unfolding encode_varint32 encode_fixed64
fits = omega arith

short : length (logged_bytes two) < 2 ^ 64
unfolding logged_bytes encode_varint32 encode_fixed64
short = omega arith

abbrev pread : Pread
pread content offset n = some (take n (drop offset content))

abbrev new_log : WritableFile
new_log = record { buf = []; disk = []; answers = [] }

two-IsOldLog : IsOldLog (two, scratch)
two-IsOldLog = (storable, fits, short)

open_queue-shows_last_example :
    (q : MessageQueue) × (open_queue pread new_log (on_disk (two, scratch) ∷ []) ≡ replayed q)
    × (map number (entries q) ≡ 5 ∷ 6 ∷ [])
    × (map key_value (entries q) ≡ (b'o' ∷ [], b'w' ∷ []) ∷ (b'o' ∷ [], b'w' ∷ []) ∷ [])
open_queue-shows_last_example =
    open_queue-shows_last pread new_log scratch (first ∷ []) second (λ content offset n. refl)
      two-IsOldLog (omega arith) (omega arith)

abbrev many : List MemEntry
many = replicate 41 first

many-IsStorable : All IsStorable many
many-IsStorable = omega arith

many_fit : All (λ e. length (code e) + 8 ≤ length scratch) many
unfolding encode_varint32 encode_fixed64
many_fit = omega arith

many_short : length (logged_bytes many) < 2 ^ 64
unfolding logged_bytes encode_varint32 encode_fixed64
many_short = omega arith

open_queue-stuck_example :
    (q : MessageQueue) × (open_queue pread new_log (map on_disk ((many, scratch) ∷ [])) ≡ stuck q)
open_queue-stuck_example =
    open_queue-stuck pread (λ content offset n. refl) new_log ((many, scratch) ∷ [])
      ((many-IsStorable, many_fit, many_short), tt) (omega arith)

-- A directory with one log of the first writer.
abbrev directory : Directory
directory n = if same_bytes n (log_file_name 1 0) then some (logged_bytes two) else none

abbrev logs_of : ℕ → List OldLog
logs_of zero = (two, scratch) ∷ []
logs_of (suc w) = []

abbrev scratch_of : ℕ → ℕ → List ℕ
scratch_of w i = scratch

abbrev no_logs :
    (w : ℕ) → directory (log_file_name 1 w) ≡ none → IsStocked scratch_of directory w []
no_logs w absent = record { held = tt; ends = absent; logs = tt; few = omega arith }

stocked : (w : ℕ) → w < k_max_writer → IsStocked scratch_of directory w (logs_of w)
unfolding log_file_name same_bytes
stocked zero h = record {
  held = (refl, refl, tt);
  ends = refl;
  logs = (two-IsOldLog, tt);
  few = omega arith;
}
stocked (suc zero) h = no_logs 1 refl
stocked (suc (suc zero)) h = no_logs 2 refl
stocked (suc (suc (suc zero))) h = no_logs 3 refl
stocked (suc (suc (suc (suc w)))) h = absurd (omega arith)

few_logs : (w : ℕ) → length (logs_of w) < 3
few_logs zero = omega arith
few_logs (suc w) = omega arith

abbrev creates : List ℕ → Bool
creates name = true

restart-Reloads_example :
    (dir' : Directory) × (db : YangkvMain) × (restart pread creates
        (λ w. new_log)
        scratch_of
        3
        directory
      ≡ started (dir', db))
    × IsReloaded (logs_of 0) 0 (writer_at db 0)
    × All (λ e. e.seq_num < db.idx) (recorded (logs_of 0))
    × (length db.writer ≡ k_max_writer)
    × (db.current ≡ new_version)
restart-Reloads_example =
    restart-Reloads pread (λ content offset n. refl) creates (λ w. new_log) scratch_of
      (λ name. refl) logs_of 3 directory 0 stocked few_logs (omega arith)

abbrev key : List ℕ
key = b'o' ∷ []

restart-drained_example :
    (dir' : Directory) × (db : YangkvMain) × (w : Writer) × (v : Version) × (restart pread creates
        (λ w. new_log)
        scratch_of
        3
        directory
      ≡ started (dir', db))
    × (insert_messages (k_queue_size + 1) (writer_at db (writer_of key)) db.current ≡ drained w v)
    × (get_value key (record db { writer = set db.writer (writer_of key) w; current = v })
        ≡ done (answer_of (last_of key (recovered (logs_of (writer_of key))))))
restart-drained_example =
    restart-drained pread (λ content offset n. refl) creates (λ w. new_log) scratch_of
      (λ name. refl) logs_of 3 directory key stocked few_logs

-- A directory with a table and no log.
abbrev with_table : Directory
with_table n = if same_bytes n (table_file_name 1) then some (7 ∷ []) else none

abbrev four_logs : Directory
four_logs = create (log_file_name 1 3) (
    create (log_file_name 1 2) (create (log_file_name 1 1) (create (log_file_name 1 0) with_table)))

restart-with_table :
    restart pread creates (λ w. new_log) scratch_of 1 with_table
    ≡ started (four_logs, init (λ w. new_log))
unfolding restart init create open_queue same_bytes log_file_name table_file_name
restart-with_table = refl

restart-keeps_example : four_logs (table_file_name 1) ≡ some (7 ∷ [])
unfolding table_file_name same_bytes
restart-keeps_example =
    restart-keeps pread creates (λ w. new_log) scratch_of 1 with_table four_logs
      (init (λ w. new_log)) restart-with_table (table_file_name 1) (7 ∷ []) refl

decimal-120 : decimal 120 ≡ b'1' ∷ b'2' ∷ b'0' ∷ []
unfolding decimal
decimal-120 = refl

dirname_root : dirname (b'a' ∷ b'/' ∷ b'b' ∷ []) ≡ done (b'a' ∷ [])
unfolding dirname
dirname_root = refl
