-- ===== src/YangkvMain/Reloaded.antt =====
-- init of main/yangkvMain.cpp in a directory that holds the logs of earlier runs.
use yangkv_v.Base.{
  ℕ, zero, suc, ◌+◌, ◌-◌, ◌%◌, ◌^◌, ◌≤◌, ◌<◌, ◌≡◌, refl, ap, max, Bool, true, List, [], ◌∷◌, length,
  get_or, All, All-mono, arith,
}
use yangkv_v.Env.{WritableFile}
use yangkv_v.Env.Names.{log_file_name, log_file_name_inj}
use yangkv_v.Hash.{k_max_writer}
use yangkv_v.Log.{Pread, ReadsAll}
use yangkv_v.MemEntry.Storable.{IsStorable}
use yangkv_v.MessageQueue.Opened.{OldLog, recorded, open_queue-Recovers}
use yangkv_v.MessageQueue.Reread.{max_seq}
use yangkv_v.SkipList.{new_list}
use yangkv_v.Version.{new_version}
use yangkv_v.Writer.{Writer}
use yangkv_v.YangkvMain.{YangkvMain, writer_at, no_writer}
use yangkv_v.YangkvMain.Restart.{
  Directory, started, create, start_writer, start_writers, next_idx, restart,
}
use yangkv_v.YangkvMain.Stocked.{
  All-le_max_seq, Holds-create, IsReloaded, IsStocked, IsStocked-create, get_log_id_lem, max_seq-lt,
  old_logs_lem, recorded-IsStorable,
}
use mathlib.Core.Path.{subst}

module _ (pread : Pread) (reads_all : ReadsAll pread) (creates : List ℕ → Bool)
    (log : ℕ → WritableFile) (scratch : ℕ → ℕ → List ℕ)
    (can_create : (name : List ℕ) → creates name ≡ true) (logs : ℕ → List OldLog) where
  start_writer_lem :
      (fuel id : ℕ) (dir : Directory)
      → IsStocked scratch dir id (logs id)
      → length (logs id) < fuel
      → (w : Writer) × (start_writer pread creates log scratch fuel id dir
          ≡ started (create (log_file_name (1 + length (logs id)) id) dir, w))
        × IsReloaded (logs id) id w
  unfolding start_writer
  start_writer_lem fuel id dir s enough =
      let ls = logs id in
      let name = log_file_name (1 + length ls) id in
      let held =
        Holds-create pread creates log scratch 1 id dir ls name
          (λ k below e. omega (arith, (log_file_name_inj k id (1 + length ls) id e).0)) s.held in
      let (q, opened, valid, ready, shows, top, _) =
        open_queue-Recovers pread reads_all (log id) ls s.logs s.few in
      let count : 1 + length ls - 1 ≡ length ls = omega arith in
      (
        record { queue = q; list = new_list; id = id },
        rw (
          get_log_id_lem pread creates log scratch fuel 1 id dir ls s.held s.ends enough,
          can_create name,
          count,
          old_logs_lem pread creates log scratch 1 id (create name dir) ls held,
          opened,
        ),
        record {
          same_id = refl;
          no_entry = refl;
          valid = valid;
          ready = ready;
          held = shows;
          top = top;
        },
      )

  abbrev AreReloaded : ℕ → List Writer → Type 0
  AreReloaded id [] = Unit
  AreReloaded id (w ∷ ws) = IsReloaded (logs id) id w × AreReloaded (id + 1) ws

  start_writers_lem :
      (fuel id : ℕ) (dir : Directory) (n : ℕ)
      → ((w : ℕ) → id ≤ w → w < id + n → IsStocked scratch dir w (logs w))
      → ((w : ℕ) → length (logs w) < fuel)
      → (dir' : Directory) × (ws : List Writer) × (start_writers pread creates log scratch fuel id
            dir n
          ≡ started (dir', ws))
        × (length ws ≡ n)
        × AreReloaded id ws
  unfolding start_writers
  start_writers_lem fuel id dir zero s enough = (dir, [], refl, refl, tt)
  start_writers_lem fuel id dir (suc n) s enough =
      let (w, step, reloaded) =
        start_writer_lem fuel id dir (s id (omega arith) (omega arith)) (enough id) in
      let name = log_file_name (1 + length (logs id)) id in
      let (dir', ws, rest, count, all) =
        start_writers_lem fuel (id + 1) (create name dir) n
          (λ v above below.
            IsStocked-create pread creates log scratch v id (1 + length (logs id)) dir (logs v)
              (λ e. omega arith) (s v (omega arith) (omega arith)))
          enough in
      (dir', w ∷ ws, rw (step, rest), ap suc count, (reloaded, all))

  next_idx-le : (idx : ℕ) (ws : List Writer) → idx ≤ next_idx pread creates log scratch idx ws
  unfolding next_idx
  next_idx-le idx [] = omega arith
  next_idx-le idx (w ∷ ws) = omega (arith, next_idx-le (max idx ((w.queue.max_id + 1) % 2 ^ 64)) ws)

  -- The writer at a place of the array, and the bound that idx is.
  IsReloaded-at :
      (ws : List Writer) (id k v idx : ℕ) (other : Writer)
      → v ≡ id + k
      → AreReloaded id ws
      → k < length ws
      → All IsStorable (recorded (logs v))
      → IsReloaded (logs v) v (get_or ws k other)
        × (max_seq 0 (recorded (logs v)) < next_idx pread creates log scratch idx ws)
  unfolding next_idx
  IsReloaded-at [] id k v idx other e h below storable = absurd (omega arith)
  IsReloaded-at (w ∷ ws) id zero v idx other e h below storable =
      let fits = max_seq-lt 0 (recorded (logs v)) (omega arith) storable in
      let here : id ≡ v = omega arith in
      let first : IsReloaded (logs v) v w = subst (λ (t : ℕ). IsReloaded (logs t) t w) here h.0 in
      let top = first.top in
      let up = next_idx-le (max idx ((w.queue.max_id + 1) % 2 ^ 64)) ws in (first, omega arith)
  IsReloaded-at (w ∷ ws) id (suc k) v idx other e h below storable =
      IsReloaded-at ws (id + 1) k v (max idx ((w.queue.max_id + 1) % 2 ^ 64)) other (omega arith)
        h.1 (omega arith) storable

  -- In a directory in which each of the four writers has the given logs of earlier runs, numbered
  -- from 1 on, and none behind them, where the entries are storable, each record fits the scratch
  -- buffer, each log is shorter than 2^64 bytes and the logs of a writer hold forty entries at
  -- most, with a pread that reads what a file holds and a system that creates every file, init
  -- returns once the fuel is greater than the number of logs of each writer. Of each writer the
  -- queue is then valid and ready, holds the entries of its logs in order, each with slices that
  -- point to its places in the scratch buffer of its log as the last records left it, and has their
  -- greatest number as max_id_; the list is empty; idx_ is greater than the number of every entry
  -- in its logs; there are four writers; and the current version is new.
  pub restart-Reloads :
      (fuel : ℕ) (dir : Directory) (w : ℕ)
      → ((v : ℕ) → v < k_max_writer → IsStocked scratch dir v (logs v))
      → ((v : ℕ) → length (logs v) < fuel)
      → w < k_max_writer
      → (dir' : Directory) × (db : YangkvMain) × (restart pread creates log scratch fuel dir
          ≡ started (dir', db))
        × IsReloaded (logs w) w (writer_at db w)
        × All (λ e. e.seq_num < db.idx) (recorded (logs w))
        × (length db.writer ≡ k_max_writer)
        × (db.current ≡ new_version)
  unfolding restart
  restart-Reloads fuel dir w stocked enough below =
      let (dir', ws, all, count, reloaded) =
        start_writers_lem fuel 0 dir k_max_writer (λ v _ h. stocked v h) enough in
      let idx = next_idx pread creates log scratch 1 ws in
      let db : YangkvMain = record { idx = idx; writer = ws; current = new_version } in
      let storable = recorded-IsStorable (logs w) (stocked w below).logs in
      let (at, top) =
        IsReloaded-at ws 0 w w 1 no_writer (omega arith) reloaded (omega arith) storable in
      (
        dir',
        db,
        rw all,
        at,
        All-mono (λ e. e.seq_num ≤ max_seq 0 (recorded (logs w))) (λ e. e.seq_num < idx)
            (recorded (logs w)) (λ e h. omega arith) (All-le_max_seq 0 (recorded (logs w))),
        count,
        refl,
      )
