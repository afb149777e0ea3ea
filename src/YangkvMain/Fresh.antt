-- ===== src/YangkvMain/Fresh.antt =====
-- init of main/yangkvMain.cpp in a directory with no log.
use yangkv_v.Base.{ℕ, suc, ◌<◌, ◌≡◌, ◌≢◌, ◌∙◌, Bool, true, List, none, arith}
use yangkv_v.Env.{WritableFile}
use yangkv_v.Env.Names.{log_file_name, log_file_name_inj}
use yangkv_v.Log.{Pread}
use yangkv_v.MessageQueue.Replay.{open_queue, replay_logs}
use yangkv_v.YangkvMain.{init, new_writer}
use yangkv_v.YangkvMain.Restart.{
  Directory, started, create, get_log_id, old_logs, start_writer, start_writers, next_idx, restart,
}
use yangkv_v.YangkvMain.Restarted.{create_other}

module _ (pread : Pread) (creates : List ℕ → Bool) (log : ℕ → WritableFile)
    (scratch : ℕ → ℕ → List ℕ) (can_create : (name : List ℕ) → creates name ≡ true) where
  start_fresh :
      (fuel id : ℕ) (dir : Directory)
      → dir (log_file_name 1 id) ≡ none
      → start_writer pread creates log scratch (suc fuel) id dir
        ≡ started (create (log_file_name 1 id) dir, new_writer (log id) id)
  unfolding start_writer get_log_id old_logs open_queue replay_logs
  start_fresh fuel id dir absent = rw (absent, get_log_id, can_create (log_file_name 1 id))

  apart :
      (w v : ℕ) (dir : Directory)
      → w ≢ v
      → create (log_file_name 1 v) dir (log_file_name 1 w) ≡ dir (log_file_name 1 w)
  apart w v dir h =
      create_other (log_file_name 1 v) (log_file_name 1 w) dir
        (λ e. h (log_file_name_inj 1 w 1 v e).1)

  pub restart-init :
      (fuel : ℕ) (dir : Directory)
      → ((w : ℕ) → w < 4 → dir (log_file_name 1 w) ≡ none)
      → (dir' : Directory) × (restart pread creates log scratch (suc fuel) dir
          ≡ started (dir', init log))
  unfolding restart start_writers next_idx init
  restart-init fuel dir absent =
      let d₁ = create (log_file_name 1 0) dir in
      let d₂ = create (log_file_name 1 1) d₁ in
      let d₃ = create (log_file_name 1 2) d₂ in
      let a₁ = apart 1 0 dir (λ e. omega arith) ∙ absent 1 (omega arith) in
      let a₂ =
        apart 2 1 d₁ (λ e. omega arith)
        ∙ apart 2 0 dir (λ e. omega arith)
        ∙ absent 2 (omega arith) in
      let a₃ =
        apart 3 2 d₂ (λ e. omega arith)
        ∙ apart 3 1 d₁ (λ e. omega arith)
        ∙ apart 3 0 dir (λ e. omega arith)
        ∙ absent 3 (omega arith) in
      (
        create (log_file_name 1 3) d₃,
        rw (
          start_fresh fuel 0 dir (absent 0 (omega arith)),
          start_fresh fuel 1 d₁ a₁,
          start_fresh fuel 2 d₂ a₂,
          start_fresh fuel 3 d₃ a₃,
        ),
      )
