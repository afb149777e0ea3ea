-- ===== src/YangkvMain.antt =====
-- main/yangkvMain.h and main/yangkvMain.cpp: the store that a client sees.
pub mod Latest
pub mod Pending
pub mod Served
pub mod Lost
pub mod Initial
pub mod Restart
pub mod Restarted
pub mod Fresh
pub mod Stocked
pub mod Reloaded
pub mod Durable
use yangkv_v.Base.{ℕ, ◌+◌, ◌%◌, ◌^◌, List, [], ◌∷◌, get_or, set, Bool, true, Option, none, some}
use yangkv_v.Base.Outcome.{Outcome, done, fault, ◌>>=◌}
use yangkv_v.MemEntry.{of_strings}
use yangkv_v.Status.{Status, ok, not_found}
use yangkv_v.Hash.{writer_of}
use yangkv_v.MessageQueue.{
  MessageQueue, new_queue, Push, pushed, blocked, waiting, aborted, push, Lookup, found, missed,
  looping, search,
}
use yangkv_v.Env.{WritableFile}
use yangkv_v.SkipList.{new_list}
use yangkv_v.Writer.{Writer, get_entry}
use yangkv_v.Version.{Version, new_version}
use yangkv_v.Version

pub record YangkvMain : Type 0 where
  -- idx_, the next sequence number
  pub idx : ℕ
  pub writer : List Writer
  pub current : Version

abbrev pub new_writer : WritableFile → ℕ → Writer
new_writer log id = record { queue = new_queue log; list = new_list; id = id }

-- What stands for a writer at an index outside of the array, which is never used.
abbrev pub no_writer : Writer
no_writer = record {
  queue = new_queue (record { buf = []; disk = []; answers = [] });
  list = new_list;
  id = 0;
}

-- A place of the array of writers.
abbrev pub writer_at : YangkvMain → ℕ → Writer
writer_at db i = get_or db.writer i no_writer

-- init where no log of an earlier run is there; `log i` is the log file of writer `i`.
unfoldable pub init : (ℕ → WritableFile) → YangkvMain
init log = record {
  idx = 1;
  writer =
      new_writer (log 0) 0
      ∷ new_writer (log 1) 1
      ∷ new_writer (log 2) 2
      ∷ new_writer (log 3) 3
      ∷ [];
  current = new_version;
}

-- What setKey comes to: it returns OK, or stays in the push of its writer's queue.
pub data SetKey : Type 0 where
  set_done : YangkvMain → SetKey
  set_blocked : YangkvMain → SetKey
  set_waiting : SetKey
  set_aborted : SetKey

abbrev with_queue : YangkvMain → ℕ → MessageQueue → YangkvMain
with_queue db i q = record db { writer = set db.writer i (record (writer_at db i) { queue = q }) }

abbrev after_push : YangkvMain → ℕ → Push → SetKey
after_push db i (pushed q) = set_done (with_queue db i q)
after_push db i (blocked q) = set_blocked (with_queue db i q)
after_push db i waiting = set_waiting
after_push db i aborted = set_aborted

-- setKey(key, value, del_flag)
unfoldable pub set_key : List ℕ → List ℕ → Bool → YangkvMain → SetKey
set_key key value del_flag db =
    let i = writer_of key in
    after_push (record db { idx = (db.idx + 1) % 2 ^ 64 }) i
      (push (of_strings key value db.idx del_flag) (writer_at db i).queue)

-- delKey(key)
unfoldable pub del_key : List ℕ → YangkvMain → SetKey
unfolding set_key
del_key key db = set_key key [] true db

-- The status, and the value that is assigned, if one is.
abbrev pub Answer : Type 0
Answer = Status × Option (List ℕ)

abbrev pub from_version : Option (List ℕ) → Answer
from_version none = (not_found, none)
from_version (some value) = (ok, some value)

abbrev from_entry : Outcome (Option (List ℕ)) → Option Answer → Outcome Answer
from_entry below (some answer) = done answer
from_entry below none = do r ← below; done (from_version r)

abbrev from_queue : Outcome Answer → Lookup → Outcome Answer
from_queue below (found status value) = done (status, value)
from_queue below missed = below
from_queue below looping = fault

-- getValue, with no other thread at work between its three readings: the queue, the list, and the
-- current version.
unfoldable pub get_value : List ℕ → YangkvMain → Outcome Answer
get_value key db =
    let w = writer_at db (writer_of key) in
    let below = (do r ← get_entry key db.idx w; from_entry (Version.get key db.current) r) in
    from_queue below (search key db.idx w.queue)
