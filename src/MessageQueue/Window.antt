-- ===== src/MessageQueue/Window.antt =====
-- The entries that a MessageQueue holds, oldest first, and its invariant.
use yangkv_v.Base.{
  ℕ, zero, suc, ◌+◌, ◌-◌, ◌%◌, ◌^◌, ◌≤◌, ◌<◌, ◌≡◌, refl, ap, ◌∙◌, List, [], ◌∷◌, ◌++◌, length,
  get_or, set, get_or-set_ne, arith,
}
use yangkv_v.MemEntry.{MemEntry}
use yangkv_v.Env.{WritableFile}
use yangkv_v.MessageQueue.{MessageQueue, k_queue_size, blank, new_queue}
use mathlib.Core.Path.{ap₂}

-- `n` places of the ring, from the one that `i` counts on.
unfoldable pub window : List MemEntry → ℕ → ℕ → List MemEntry
window slots i zero = []
window slots i (suc n) = get_or slots (i % k_queue_size) blank ∷ window slots (i + 1) n

unfoldable pub entries : MessageQueue → List MemEntry
unfolding window
entries q = window q.slots q.r_ptr (q.w_ptr - q.r_ptr)

-- The counters start at 1, never pass 2 ^ 64 - 1, and are at most the ring's size apart.
pub record IsValid (q : MessageQueue) : Type 0 where
  pub places : length q.slots ≡ 45
  pub started : 1 ≤ q.r_ptr
  pub ordered : q.r_ptr ≤ q.w_ptr
  pub fits : q.w_ptr ≤ q.r_ptr + k_queue_size
  pub counts : q.w_ptr < 2 ^ 64

pub new_queue-IsValid : (log : WritableFile) → IsValid (new_queue log)
new_queue-IsValid log = omega arith

-- A place outside the window does not show in it.
pub window-set :
    (slots : List MemEntry) (i n w : ℕ) (e : MemEntry)
    → i + n ≤ w
    → w < i + k_queue_size
    → window (set slots (w % k_queue_size) e) i n ≡ window slots i n
unfolding window
window-set slots i zero w e h k = refl
window-set slots i (suc n) w e h k =
    ap₂ (λ (x : MemEntry) (l : List MemEntry). x ∷ l)
      (get_or-set_ne slots (w % k_queue_size) (i % k_queue_size) e blank (λ q. omega arith))
      (window-set slots (i + 1) n w e (omega arith) (omega arith))

-- The last place of a window.
pub window_last :
    (slots : List MemEntry) (i n : ℕ)
    → window slots i (suc n) ≡ window slots i n ++ get_or slots ((i + n) % k_queue_size) blank ∷ []
unfolding window
window_last slots i zero = ap (λ (t : ℕ). get_or slots (t % k_queue_size) blank ∷ []) (omega arith)
window_last slots i (suc n) =
    ap (λ (l : List MemEntry). get_or slots (i % k_queue_size) blank ∷ l)
      (window_last slots (i + 1) n
        ∙ ap (λ (t : ℕ). window slots (i + 1) n ++ get_or slots (t % k_queue_size) blank ∷ [])
            (omega arith))

pub length-window : (slots : List MemEntry) (i n : ℕ) → length (window slots i n) ≡ n
unfolding window
length-window slots i zero = refl
length-window slots i (suc n) = ap suc (length-window slots (i + 1) n)

pub length-entries : (q : MessageQueue) → length (entries q) ≡ q.w_ptr - q.r_ptr
unfolding entries
length-entries q = length-window q.slots q.r_ptr (q.w_ptr - q.r_ptr)
