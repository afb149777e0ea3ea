-- ===== src/YangkvMain/Durable.antt =====
-- What getValue of main/yangkvMain.cpp answers after a restart.
use yangkv_v.Base.{
  ℕ, zero, suc, ◌+◌, ◌-◌, ◌≤◌, ◌<◌, ◌≡◌, refl, sym, ap, ◌∙◌, Bool, true, List, [], ◌∷◌, ◌++◌, map,
  length, set, get_or, All, All-append, length-append, length-drop, arith,
}
use yangkv_v.Base.Outcome.{done}
use yangkv_v.Coding.{encode_varint32}
use yangkv_v.Env.{WritableFile}
use yangkv_v.Hash.{writer_of, writer_of-lt, k_max_writer}
use yangkv_v.Log.{Pread, ReadsAll}
use yangkv_v.MemEntry.{MemEntry}
use yangkv_v.MemEntry.Storable.{IsStorable, code}
use yangkv_v.MessageQueue.{k_queue_size}
use yangkv_v.MessageQueue.Opened.{OldLog, IsOldLog, recorded, recovered}
use yangkv_v.MessageQueue.Rebound.{placed}
use yangkv_v.MessageQueue.Reread.{scratch_end}
use yangkv_v.MessageQueue.Shown.{length-code}
use yangkv_v.Log.RoundTrip.{scratch_after, length-scratch_after}
use yangkv_v.SkipList.{new_list}
use yangkv_v.Version.{Version, new_version}
use yangkv_v.Version.Frozen.{new_list-Holds, last_of}
use yangkv_v.Writer.Drain.{IsHolding}
use yangkv_v.Writer.Emptied.{taken}
use yangkv_v.Writer.{Writer, drained, insert_messages}
use yangkv_v.YangkvMain.{YangkvMain, writer_at, get_value}
use yangkv_v.YangkvMain.Latest.{IsSettled, answer_of}
use yangkv_v.YangkvMain.Pending.{by_writer-IsSettled}
use yangkv_v.YangkvMain.Reloaded.{restart-Reloads}
use yangkv_v.YangkvMain.Stocked.{IsStocked, IsReloaded}
use yangkv_v.YangkvMain.Restart.{Directory, started, restart}
use yangkv_v.YangkvMain.Served.{get_value_drained}
use mathlib.Core.Path.{subst}

length-scratch_end :
    (buf : List ℕ) (es : List MemEntry)
    → All (λ e. length (code e) + 8 ≤ length buf) es
    → length (scratch_end buf es) ≡ length buf
unfolding scratch_end
length-scratch_end buf [] h = refl
length-scratch_end buf (e ∷ es) h =
    let one = length-scratch_after buf e h.0 in
    length-scratch_end (scratch_after buf e) es
      (subst (λ (n : ℕ). All (λ x. length (code x) + 8 ≤ n) es) (sym one) h.1)
    ∙ one

-- An entry that points into a buffer in which an encoding has its place.
placed-IsStorable :
    (buf : List ℕ) (e : MemEntry)
    → IsStorable e
    → length (code e) ≤ length buf
    → IsStorable (placed buf e)
placed-IsStorable buf e h fits =
    let total = length-code e h in
    record {
      key_room = omega (arith, length-drop (length (encode_varint32 (e.key.size + 9))) buf);
      value_room = omega (arith, length-drop (length (code e) - (e.value.size + 1)) buf);
      key_fits = h.key_fits;
      value_fits = h.value_fits;
      seq_fits = h.seq_fits;
    }

All-placed :
    (n : ℕ) (buf : List ℕ) (es : List MemEntry)
    → All IsStorable es
    → All (λ e. length (code e) + 8 ≤ length buf) es
    → All (λ e. e.seq_num < n) es
    → All IsStorable (map (placed buf) es) × All (λ e. e.seq_num < n) (map (placed buf) es)
All-placed n buf [] h fit below = (tt, tt)
All-placed n buf (e ∷ es) h fit below =
    let (storable, numbered) = All-placed n buf es h.1 fit.1 below.1 in
    ((placed-IsStorable buf e h.0 (omega (arith, fit.0)), storable), (below.0, numbered))

length-map : {A B : Type 0} (f : A → B) (l : List A) → length (map f l) ≡ length l
length-map f [] = refl
length-map f (x ∷ l) = ap suc (length-map f l)

-- All of a list behind another.
All-parts : (P : MemEntry → Type 0) (k l : List MemEntry) → All P (k ++ l) → All P k × All P l
All-parts P [] l h = (tt, h)
All-parts P (e ∷ k) l h = let (front, back) = All-parts P k l h.1 in ((h.0, front), back)

All-recovered :
    (n : ℕ) (ls : List OldLog)
    → All IsOldLog ls
    → All (λ e. e.seq_num < n) (recorded ls)
    → All IsStorable (recovered ls)
      × All (λ e. e.seq_num < n) (recovered ls)
      × (length (recovered ls) ≡ length (recorded ls))
All-recovered n [] h below = (tt, tt, refl)
All-recovered n (l ∷ ls) h below =
    let (here, there) = All-parts (λ e. e.seq_num < n) l.0 (recorded ls) below in
    let buf = scratch_end l.1 l.0 in
    let same = length-scratch_end l.1 l.0 h.0.1 in
    let fit = subst (λ (m : ℕ). All (λ e. length (code e) + 8 ≤ m) l.0) (sym same) h.0.1 in
    let (s₁, n₁) = All-placed n buf l.0 h.0.0 fit here in
    let (s₂, n₂, c₂) = All-recovered n ls h.1 there in
    (
      All-append IsStorable (map (placed buf) l.0) (recovered ls) s₁ s₂,
      All-append (λ e. e.seq_num < n) (map (placed buf) l.0) (recovered ls) n₁ n₂,
      omega (
        arith,
        length-append (map (placed buf) l.0) (recovered ls),
        length-append l.0 (recorded ls),
        length-map (placed buf) l.0,
      ),
    )

no_lists : (i : ℕ) → i < k_max_writer → get_or new_version.list i [] ≡ []
no_lists zero h = refl
no_lists (suc zero) h = refl
no_lists (suc (suc zero)) h = refl
no_lists (suc (suc (suc zero))) h = refl
no_lists (suc (suc (suc (suc i)))) h = absurd (omega arith)

-- A writer whose list is empty, at a version without lists.
fresh-IsHolding :
    (ls : List OldLog) (i : ℕ) (w : Writer) (v : Version)
    → i < k_max_writer
    → v ≡ new_version
    → IsReloaded ls i w
    → IsHolding w v []
fresh-IsHolding ls i w v below fresh at = record {
  valid = at.valid;
  placed = subst (λ (u : Version). w.id < length u.list) (sym fresh) (omega (arith, at.same_id));
  holds = rw (fresh, at.same_id, no_lists i below, at.no_entry) new_list-Holds;
}

fresh-taken : (w : Writer) (v : Version) → v ≡ new_version → w.list ≡ new_list → taken w v ≡ 0
fresh-taken w v fresh empty = rw (fresh, empty) refl

module _ (pread : Pread) (reads_all : ReadsAll pread) (creates : List ℕ → Bool)
    (log : ℕ → WritableFile) (scratch : ℕ → ℕ → List ℕ)
    (can_create : (name : List ℕ) → creates name ≡ true) (logs : ℕ → List OldLog) where
  -- In a directory in which each of the four writers has the given logs of earlier runs, numbered
  -- from 1 on, and none behind them, where the entries are storable, each record fits the scratch
  -- buffer, each log is shorter than 2^64 bytes and the logs of a writer hold forty entries at
  -- most, with a pread that reads what a file holds, a system that creates every file, and fuel
  -- greater than the number of logs of each writer, init returns; the loop of the thread of a key's
  -- writer, given one round more than the queue has places, then ends, and after it getValue
  -- answers the key by the last entry with that key among the replayed ones of the key's writer, as
  -- the last records left the scratch buffers: by its value, or NotFound for a deletion or where
  -- there is none.
  pub restart-drained :
      (fuel : ℕ) (dir : Directory) (key : List ℕ)
      → ((v : ℕ) → v < k_max_writer → IsStocked scratch dir v (logs v))
      → ((v : ℕ) → length (logs v) < fuel)
      → (dir' : Directory) × (db : YangkvMain) × (w : Writer) × (v : Version) × (restart pread
            creates log scratch fuel dir
          ≡ started (dir', db))
        × (insert_messages (k_queue_size + 1) (writer_at db (writer_of key)) db.current
            ≡ drained w v)
        × (get_value key (record db { writer = set db.writer (writer_of key) w; current = v })
            ≡ done (answer_of (last_of key (recovered (logs (writer_of key))))))
  restart-drained fuel dir key stocked enough =
      let i = writer_of key in
      let below = writer_of-lt key in
      let stock = stocked i below in
      let (dir', db, begins, at, numbered, four, fresh) =
        restart-Reloads pread reads_all creates log scratch can_create logs fuel dir i stocked
          enough below in
      let (storable, less, count) = All-recovered db.idx (logs i) stock.logs numbered in
      let w₀ = writer_at db i in
      let holding : IsHolding w₀ db.current [] =
        fresh-IsHolding (logs i) i w₀ db.current below fresh at in
      let settled : IsSettled key db [] =
        by_writer-IsSettled key db [] w₀ refl holding at.same_id tt tt
          (subst (All (λ e. e.seq_num < db.idx)) (sym at.held) less) in
      let room : taken w₀ db.current + length (recovered (logs i)) < 110 =
        omega (arith, fresh-taken w₀ db.current fresh at.no_entry, count, stock.few) in
      let (w, v, ends, _, answer) =
        get_value_drained key db [] (recovered (logs i)) k_queue_size four settled at.held storable
          room (omega (arith, stock.few)) in
      (dir', db, w, v, begins, ends, answer)
