-- ===== src/YangkvMain/Initial.antt =====
-- The store that init of main/yangkvMain.cpp makes, with no older log to replay.
use yangkv_v.Base.{ℕ, zero, suc, ◌<◌, ◌≡◌, refl, sym, List, [], length, get_or, arith}
use yangkv_v.Env.{WritableFile}
use yangkv_v.Hash.{writer_of, writer_of-lt, k_max_writer}
use yangkv_v.MessageQueue.Window.{entries, new_queue-IsValid}
use yangkv_v.SkipList.{SkipList, new_list}
use yangkv_v.Version.Frozen.{Holds, new_list-Holds}
use yangkv_v.YangkvMain.{init, writer_at, new_writer}
use yangkv_v.YangkvMain.Latest.{IsSettled}
use yangkv_v.YangkvMain.Pending.{by_writer-IsSettled}
use mathlib.Core.Path.{subst}

initial_writer :
    (log : ℕ → WritableFile) (i : ℕ)
    → i < k_max_writer
    → writer_at (init log) i ≡ new_writer (log i) i
unfolding init
initial_writer log zero h = refl
initial_writer log (suc zero) h = refl
initial_writer log (suc (suc zero)) h = refl
initial_writer log (suc (suc (suc zero))) h = refl
initial_writer log (suc (suc (suc (suc i)))) h = absurd (omega arith)

initial_lists :
    (log : ℕ → WritableFile) (i : ℕ) → i < k_max_writer → get_or (init log).current.list i [] ≡ []
unfolding init
initial_lists log zero h = refl
initial_lists log (suc zero) h = refl
initial_lists log (suc (suc zero)) h = refl
initial_lists log (suc (suc (suc zero))) h = refl
initial_lists log (suc (suc (suc (suc i)))) h = absurd (omega arith)

placed : (log : ℕ → WritableFile) (i : ℕ) → i < k_max_writer → i < length (init log).current.list
unfolding init
placed log i h = h

-- The store that init makes with no older log is settled for every key, with no entry in its
-- history.
pub init-IsSettled : (log : ℕ → WritableFile) (key : List ℕ) → IsSettled key (init log) []
unfolding entries
init-IsSettled log key =
    let i = writer_of key in
    let h = writer_of-lt key in
    by_writer-IsSettled key (init log) [] (new_writer (log i) i) (initial_writer log i h)
      (record {
        valid = new_queue-IsValid (log i);
        placed = placed log i h;
        holds =
            subst (λ (l : List SkipList). Holds [] l new_list) (sym (initial_lists log i h))
              new_list-Holds;
      })
      refl tt tt tt
