-- ===== src/SkipList.antt =====
-- memory/skiplist.h: the ordered list of encoded entries, under its keys.
use yangkv_v.Base.{
  ℕ, ◌+◌, ◌-◌, List, [], length, leb, ◌==◌, Bool, if◌then◌else◌, Option, none, some,
}
use yangkv_v.Base.Outcome.{Outcome, done, ◌>>=◌}
use yangkv_v.Slice.{Slice, to_string}
use yangkv_v.Map.{Map, find}
use yangkv_v.MemEntry.{MemEntry, encode_mem_entry}
use yangkv_v.Map

pub record SkipList : Type 0 where
  pub id : ℕ
  pub list : Map Slice
  pub refs : ℕ

abbrev pub new_list : SkipList
new_list = record { id = 0; list = []; refs = 1 }

abbrev pub size : SkipList → ℕ
size l = length l.list

-- insert: the id is the sequence number of the first entry.
unfoldable pub insert : MemEntry → SkipList → Outcome SkipList
insert entry l = do
  s ← encode_mem_entry entry
  key ← to_string entry.key
  done (record l {
    id = if size l == 0 then entry.seq_num else l.id;
    list = Map.insert key s l.list;
  })

-- get; `none` is NotFound.
unfoldable pub get : List ℕ → SkipList → Option Slice
get key l = find key l.list

-- unref; `none` is the failed assertion, and the flag says that the list is deleted.
unfoldable pub unref : SkipList → Option (SkipList × Bool)
unref l = if leb 1 l.refs then some (record l { refs = l.refs - 1 }, l.refs - 1 == 0) else none

unfoldable pub ref : SkipList → SkipList
ref l = record l { refs = l.refs + 1 }
