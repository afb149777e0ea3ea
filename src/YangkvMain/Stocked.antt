-- ===== src/YangkvMain/Stocked.antt =====
-- Directories with logs of earlier runs, as init of main/yangkvMain.cpp reads them.
use yangkv_v.Base.{
  ℕ, zero, suc, ◌+◌, ◌^◌, ◌≤◌, ◌<◌, ◌≡◌, ◌≢◌, refl, ◌∙◌, max, Bool, true, List, [], ◌∷◌, map,
  length, All, All-append, none, some, arith,
}
use yangkv_v.Env.{WritableFile}
use yangkv_v.Env.Names.{log_file_name, log_file_name_inj}
use yangkv_v.Log.{Pread}
use yangkv_v.MemEntry.{MemEntry}
use yangkv_v.MemEntry.Storable.{IsStorable}
use yangkv_v.MessageQueue.{k_queue_size}
use yangkv_v.MessageQueue.Opened.{OldLog, IsOldLog, on_disk, recorded, recovered}
use yangkv_v.MessageQueue.Reread.{logged_bytes, max_seq}
use yangkv_v.MessageQueue.Window.{entries, IsValid}
use yangkv_v.SkipList.{new_list}
use yangkv_v.Writer.{Writer}
use yangkv_v.YangkvMain.Restart.{Directory, started, create, get_log_id, old_logs, bytes_of}
use yangkv_v.YangkvMain.Restarted.{create_other}
use mathlib.Core.Path.{ap₂}

-- The directory holds the logs of a writer under the numbers from `i` on.
abbrev pub Holds : (ℕ → ℕ → List ℕ) → Directory → ℕ → ℕ → List OldLog → Type 0
Holds scratch dir w i [] = Unit
Holds scratch dir w i (l ∷ ls) =
    (dir (log_file_name i w) ≡ some (logged_bytes l.0))
    × (scratch w i ≡ l.1)
    × Holds scratch dir w (i + 1) ls

-- The logs of a writer are those that are given, and can be replayed.
pub record IsStocked (scratch : ℕ → ℕ → List ℕ) (dir : Directory) (w : ℕ) (ls : List OldLog)
    : Type 0 where
  pub held : Holds scratch dir w 1 ls
  pub ends : dir (log_file_name (1 + length ls) w) ≡ none
  pub logs : All IsOldLog ls
  pub few : length (recorded ls) ≤ k_queue_size

-- The writer that init makes of its logs.
pub record IsReloaded (ls : List OldLog) (id : ℕ) (w : Writer) : Type 0 where
  pub same_id : w.id ≡ id
  pub no_entry : w.list ≡ new_list
  pub valid : IsValid w.queue
  pub ready : w.queue.is_ready ≡ true
  pub held : entries w.queue ≡ recovered ls
  pub top : w.queue.max_id ≡ max_seq 0 (recorded ls)

max_seq-le : (m : ℕ) (es : List MemEntry) → m ≤ max_seq m es
max_seq-le m [] = omega arith
max_seq-le m (e ∷ es) = omega (arith, max_seq-le (max m e.seq_num) es)

pub All-le_max_seq : (m : ℕ) (es : List MemEntry) → All (λ e. e.seq_num ≤ max_seq m es) es
All-le_max_seq m [] = tt
All-le_max_seq m (e ∷ es) =
    (omega (arith, max_seq-le (max m e.seq_num) es), All-le_max_seq (max m e.seq_num) es)

pub max_seq-lt :
    (m : ℕ) (es : List MemEntry) → m < 2 ^ 56 → All IsStorable es → max_seq m es < 2 ^ 56
max_seq-lt m [] h hs = h
max_seq-lt m (e ∷ es) h hs =
    let fits = hs.0.seq_fits in max_seq-lt (max m e.seq_num) es (omega arith) hs.1

pub recorded-IsStorable : (ls : List OldLog) → All IsOldLog ls → All IsStorable (recorded ls)
recorded-IsStorable [] h = tt
recorded-IsStorable (l ∷ ls) h =
    All-append IsStorable l.0 (recorded ls) h.0.0 (recorded-IsStorable ls h.1)

module _ (pread : Pread) (creates : List ℕ → Bool) (log : ℕ → WritableFile)
    (scratch : ℕ → ℕ → List ℕ) where
  pub get_log_id_lem :
      (fuel i w : ℕ) (dir : Directory) (ls : List OldLog)
      → Holds scratch dir w i ls
      → dir (log_file_name (i + length ls) w) ≡ none
      → length ls < fuel
      → get_log_id fuel i w dir ≡ started (i + length ls)
  unfolding get_log_id
  get_log_id_lem zero i w dir ls h ends enough = absurd (omega arith)
  get_log_id_lem (suc fuel) i w dir [] h ends enough =
      let here : i + 0 ≡ i = omega arith in rw (rw here at ends, get_log_id, here)
  get_log_id_lem (suc fuel) i w dir (l ∷ ls) h ends enough =
      let next : i + suc (length ls) ≡ i + 1 + length ls = omega arith in
      rw (h.0, get_log_id, next)
        (get_log_id_lem fuel (i + 1) w dir ls h.2 (rw next at ends) (omega arith))

  pub old_logs_lem :
      (i w : ℕ) (dir : Directory) (ls : List OldLog)
      → Holds scratch dir w i ls
      → old_logs pread creates log scratch (length ls) i w dir ≡ map on_disk ls
  unfolding old_logs
  old_logs_lem i w dir [] h = refl
  old_logs_lem i w dir (l ∷ ls) h =
      ap₂ (λ (x : List ℕ × List ℕ) (k : List (List ℕ × List ℕ)). x ∷ k)
        (λ j. (bytes_of (h.0 j), h.1 j)) (old_logs_lem (i + 1) w dir ls h.2)

  pub Holds-create :
      (i w : ℕ) (dir : Directory) (ls : List OldLog) (name : List ℕ)
      → ((k : ℕ) → k < i + length ls → log_file_name k w ≢ name)
      → Holds scratch dir w i ls
      → Holds scratch (create name dir) w i ls
  Holds-create i w dir [] name other h = tt
  Holds-create i w dir (l ∷ ls) name other h = (
    create_other name (log_file_name i w) dir (other i (omega arith)) ∙ h.0,
    h.1,
    Holds-create (i + 1) w dir ls name (λ k below. other k (omega arith)) h.2,
  )

  -- The log that is made for a writer changes nothing for another.
  pub IsStocked-create :
      (w v n : ℕ) (dir : Directory) (ls : List OldLog)
      → w ≢ v
      → IsStocked scratch dir w ls
      → IsStocked scratch (create (log_file_name n v) dir) w ls
  IsStocked-create w v n dir ls apart s = record {
    held =
        Holds-create 1 w dir ls (log_file_name n v)
          (λ k below e. apart (log_file_name_inj k w n v e).1) s.held;
    ends =
        create_other (log_file_name n v) (log_file_name (1 + length ls) w) dir
          (λ e. apart (log_file_name_inj (1 + length ls) w n v e).1)
        ∙ s.ends;
    logs = s.logs;
    few = s.few;
  }
