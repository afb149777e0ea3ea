-- ===== src/VersionSet/Threads.antt =====
-- The threads of memory/writer.cpp and memory/compacter.cpp where they meet: AppendFrozenList of
-- main/versionset.cpp under the lock of utils/condlock.h, and the rounds of workRound, which does not
-- take that lock. A step is a call on the lock, a test or a change of the current version by one
-- thread. Any order of steps is a run.
use yangkv_v.Base.{
  ℕ, ◌+◌, ◌<◌, ◌≡◌, ◌==◌, Bool, true, false, ◌||◌, List, [], ◌∷◌, ◌++◌, get_or, set, Option, none,
  some, if◌then◌else◌,
}
use yangkv_v.Hash.{k_max_writer}
use yangkv_v.SkipList.{SkipList}
use yangkv_v.Version.{Version, FileMetaData, new_version, is_full, append_list}

-- Where a writer stands, with the list that it gives to AppendFrozenList.
pub data Place : Type 0 where
  away : Place
  -- In front of Lock.
  calling : SkipList → Place
  -- In front of the test of isFull.
  testing : SkipList → Place
  -- In front of Wait, the version having been full.
  waiting : SkipList → Place
  asleep : SkipList → Place
  -- Out of its sleep, without the lock yet.
  woken : SkipList → Place
  -- In front of AppendList, having found room.
  entering : SkipList → Place
  -- In front of AppendList, out of Wait.
  returning : SkipList → Place
  -- In front of Unlock.
  leaving : Place

-- Where the compacter stands in a round of workRound.
pub data Stage : Type 0 where
  watching : Stage
  -- isFull has answered true.
  compacting : Stage
  -- BuildTable has read the lists.
  built : List (List SkipList) → Stage
  -- AppendVersion has been called, Boardcast has not.
  installed : Stage

pub record Threads : Type 0 where
  -- The writer that has the lock.
  pub lock : Option ℕ
  pub writer : ℕ → Place
  pub compacter : Stage
  pub current : Version
  -- Of each writer, the lists that it has appended, and those that the compacter had read, to hand
  -- them to BuildTable, from versions that have been replaced since; how many have been appended; and
  -- whether one was appended to a full version. The program does not keep these, and what BuildTable
  -- makes of the lists is no part of them.
  pub frozen : ℕ → List SkipList
  pub handed : ℕ → List SkipList
  pub appends : ℕ
  pub overfull : Bool

abbrev pub update {ℓ} : {A : Type ℓ} → (ℕ → A) → ℕ → A → ℕ → A
update f i v j = if i == j then v else f j

abbrev pub move : ℕ → Place → Threads → Threads
move i p s = record s { writer = update s.writer i p }

abbrev pub enter : ℕ → Place → Threads → Threads
enter i p s = record s { writer = update s.writer i p; lock = some i }

abbrev pub leave : ℕ → Place → Threads → Threads
leave i p s = record s { writer = update s.writer i p; lock = none }

-- AppendList by a writer.
abbrev pub append_by : ℕ → SkipList → Threads → Threads
append_by i l s = record s {
  writer = update s.writer i leaving;
  current = append_list l i s.current;
  frozen = update s.frozen i (s.frozen i ++ l ∷ []);
  appends = s.appends + 1;
  overfull = s.overfull || is_full s.current;
}

-- A new version with the files of the current one and that of the table, and AppendVersion.
abbrev pub with_new_file : FileMetaData → Version → Version
with_new_file meta v = record new_version {
  refs = 1;
  files = set v.files 0 (get_or v.files 0 [] ++ meta ∷ []);
}

abbrev pub swap : FileMetaData → List (List SkipList) → Threads → Threads
swap meta ls s = record s {
  compacter = installed;
  current = with_new_file meta s.current;
  handed = λ i. s.handed i ++ get_or ls i [];
}

abbrev pub rouse : Place → Place
rouse (asleep l) = woken l
rouse p = p

-- A step. `stirs` says whether the system may end a wait without a signal, as pthread_cond_wait
-- may do.
pub data Step (stirs : Bool) : Threads → Threads → Type 0 where
  call :
      (s : Threads) (i : ℕ) (l : SkipList)
      → i < k_max_writer
      → s.writer i ≡ away
      → Step stirs s (move i (calling l) s)
  take_lock :
      (s : Threads) (i : ℕ) (l : SkipList)
      → s.writer i ≡ calling l
      → s.lock ≡ none
      → Step stirs s (enter i (testing l) s)
  find_full :
      (s : Threads) (i : ℕ) (l : SkipList)
      → s.writer i ≡ testing l
      → is_full s.current ≡ true
      → Step stirs s (move i (waiting l) s)
  find_room :
      (s : Threads) (i : ℕ) (l : SkipList)
      → s.writer i ≡ testing l
      → is_full s.current ≡ false
      → Step stirs s (move i (entering l) s)
  wait :
      (s : Threads) (i : ℕ) (l : SkipList)
      → s.writer i ≡ waiting l
      → Step stirs s (leave i (asleep l) s)
  stir :
      (s : Threads) (i : ℕ) (l : SkipList)
      → stirs ≡ true
      → s.writer i ≡ asleep l
      → Step stirs s (move i (woken l) s)
  retake_lock :
      (s : Threads) (i : ℕ) (l : SkipList)
      → s.writer i ≡ woken l
      → s.lock ≡ none
      → Step stirs s (enter i (returning l) s)
  append_list_to :
      (s : Threads) (i : ℕ) (l : SkipList)
      → s.writer i ≡ entering l
      → Step stirs s (append_by i l s)
  append_late :
      (s : Threads) (i : ℕ) (l : SkipList)
      → s.writer i ≡ returning l
      → Step stirs s (append_by i l s)
  release_lock : (s : Threads) (i : ℕ) → s.writer i ≡ leaving → Step stirs s (leave i away s)
  notice :
      (s : Threads)
      → s.compacter ≡ watching
      → is_full s.current ≡ true
      → Step stirs s (record s { compacter = compacting })
  build :
      (s : Threads)
      → s.compacter ≡ compacting
      → Step stirs s (record s { compacter = built s.current.list })
  put_version :
      (s : Threads) (meta : FileMetaData) (ls : List (List SkipList))
      → s.compacter ≡ built ls
      → Step stirs s (swap meta ls s)
  broadcast :
      (s : Threads)
      → s.compacter ≡ installed
      → Step stirs s (record s { compacter = watching; writer = λ i. rouse (s.writer i) })

-- The runs from a state.
pub data Reach (stirs : Bool) (s : Threads) : Threads → Type 0 where
  here : Reach stirs s s
  next : {t u : Threads} → Reach stirs s t → Step stirs t u → Reach stirs s u

-- Threads that have done nothing yet.
abbrev pub begun : Threads
begun = record {
  lock = none;
  writer = λ i. away;
  compacter = watching;
  current = new_version;
  frozen = λ i. [];
  handed = λ i. [];
  appends = 0;
  overfull = false;
}
