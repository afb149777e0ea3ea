-- ===== src/YangkvMain/Restarted.antt =====
-- What init of main/yangkvMain.cpp makes of the logs of earlier runs.
use yangkv_v.Base.{
  ℕ, zero, suc, ◌+◌, ◌≡◌, ◌≢◌, refl, sym, ap, ◌∙◌, Bool, true, false, List, same_bytes,
  same_bytes→eq, none, some, Bool-cases, Option-cases, inl, inr,
}
use yangkv_v.Env.{WritableFile}
use yangkv_v.Env.Names.{log_file_name}
use yangkv_v.Hash.{k_max_writer}
use yangkv_v.Log.{Pread}
use yangkv_v.MessageQueue.{MessageQueue}
use yangkv_v.SkipList.{new_list}
use yangkv_v.Writer.{Writer}
use yangkv_v.YangkvMain.{YangkvMain}
use yangkv_v.YangkvMain.Restart.{
  Directory, Start, started, create, get_log_id, start_writer, start_writers, restart, ◌>>=◌,
  assert_opened,
}

>>=-started :
    {A B : Type 0} (m : Start A) (f : A → Start B) {b : B}
    → (m >>= f) ≡ started b
    → (a : A) × (m ≡ started a) × (f a ≡ started b)
>>=-started (started a) f h = (a, refl, h)
>>=-started Start.waiting f h = cc
>>=-started Start.crashed f h = cc
>>=-started Start.unfinished f h = cc

assert_opened-started :
    {dir : Directory} (b : Bool) (r : Directory)
    → assert_opened b (started r) ≡ started dir
    → r ≡ dir
assert_opened-started true r h = cc
assert_opened-started false r h = cc

started_inj : {A : Type 0} {a b : A} → started a ≡ started b → a ≡ b
started_inj h = cc

-- The directory is not touched behind the creation of the log.
queue-started :
    (m : Start MessageQueue) (f : MessageQueue → Writer) {dir dir' : Directory} {w : Writer}
    → ◌>>=◌ {B = Directory × Writer} m (λ q. started (dir, f q)) ≡ started (dir', w)
    → dir ≡ dir'
queue-started (started q) f h = ap (λ (p : Directory × Writer). p.0) (started_inj h)
queue-started Start.waiting f h = cc
queue-started Start.crashed f h = cc
queue-started Start.unfinished f h = cc

-- The number that getLogID answers has no log.
get_log_id-absent :
    (fuel i w k : ℕ) (dir : Directory)
    → get_log_id fuel i w dir ≡ started k
    → dir (log_file_name k w) ≡ none
unfolding get_log_id
get_log_id-absent zero i w k dir h = cc
get_log_id-absent (suc fuel) i w k dir h = elim (Option-cases (dir (log_file_name i w))) [
  | inl absent ↦
      let same : i ≡ k = started_inj (rw (absent, get_log_id) at h) in
      ap (λ (t : ℕ). dir (log_file_name t w)) (sym same) ∙ absent
  | inr (c, there) ↦ get_log_id-absent fuel (i + 1) w k dir (rw (there, get_log_id) at h)
]

pub create_other : (name n : List ℕ) (dir : Directory) → n ≢ name → create name dir n ≡ dir n
unfolding create
create_other name n dir h = elim (Bool-cases (same_bytes n name)) [
  | inl same ↦ absurd (h (same_bytes→eq n name same))
  | inr other ↦ rw other
]

some_ne_none : {c : List ℕ} → some c ≢ none
some_ne_none h = cc

-- Creating a file that is not there leaves the others.
create_keeps :
    (name n c : List ℕ) (dir : Directory)
    → dir name ≡ none
    → dir n ≡ some c
    → create name dir n ≡ some c
create_keeps name n c dir absent there =
    create_other name n dir (λ e. some_ne_none (sym there ∙ ap dir e ∙ absent)) ∙ there

module _ (pread : Pread) (creates : List ℕ → Bool) (log : ℕ → WritableFile)
    (scratch : ℕ → ℕ → List ℕ) where
  start_writer-keeps :
      (fuel id : ℕ) (dir dir' : Directory) (w : Writer)
      → start_writer pread creates log scratch fuel id dir ≡ started (dir', w)
      → (n c : List ℕ) → dir n ≡ some c
      → dir' n ≡ some c
  unfolding start_writer
  start_writer-keeps fuel id dir dir' w h n c there =
      let (k, got, h₁) = >>=-started (get_log_id fuel 1 id dir) _ h in
      let name = log_file_name k id in
      let (dir₁, opened, h₂) =
        >>=-started (assert_opened (creates name) (started (create name dir))) _ h₁ in
      let same : create name dir ≡ dir' =
        assert_opened-started (creates name) (create name dir) opened
        ∙ queue-started _ (λ q. record { queue = q; list = new_list; id = id }) h₂ in
      ap (λ (d : Directory). d n) (sym same)
      ∙ create_keeps name n c dir (get_log_id-absent fuel 1 id k dir got) there

  start_writers-keeps :
      (fuel id : ℕ) (dir : Directory) (k : ℕ) (dir' : Directory) (ws : List Writer)
      → start_writers pread creates log scratch fuel id dir k ≡ started (dir', ws)
      → (n c : List ℕ) → dir n ≡ some c
      → dir' n ≡ some c
  unfolding start_writers
  start_writers-keeps fuel id dir zero dir' ws h n c there =
      ap (λ (p : Directory × List Writer). p.0 n) (sym (started_inj h)) ∙ there
  start_writers-keeps fuel id dir (suc k) dir' ws' h n c there =
      let ((dir₁, w), first, h₁) =
        >>=-started (start_writer pread creates log scratch fuel id dir) _ h in
      let ((dir₂, ws₂), rest, h₂) =
        >>=-started (start_writers pread creates log scratch fuel (id + 1) dir₁ k) _ h₁ in
      ap (λ (p : Directory × List Writer). p.0 n) (sym (started_inj h₂))
      ∙ start_writers-keeps fuel (id + 1) dir₁ k dir₂ ws₂ rest n c
          (start_writer-keeps fuel id dir dir₁ w first n c there)

  -- When init returns, every file that was in the directory is there with the bytes it had: no log
  -- and no table is truncated.
  pub restart-keeps :
      (fuel : ℕ) (dir dir' : Directory) (db : YangkvMain)
      → restart pread creates log scratch fuel dir ≡ started (dir', db)
      → (n c : List ℕ) → dir n ≡ some c
      → dir' n ≡ some c
  unfolding restart
  restart-keeps fuel dir dir' db h n c there =
      let ((dir₁, ws), all, h₁) =
        >>=-started (start_writers pread creates log scratch fuel 0 dir k_max_writer) _ h in
      ap (λ (p : Directory × YangkvMain). p.0 n) (sym (started_inj h₁))
      ∙ start_writers-keeps fuel 0 dir k_max_writer dir₁ ws all n c there
