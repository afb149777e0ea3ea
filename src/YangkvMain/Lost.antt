-- ===== src/YangkvMain/Lost.antt =====
-- getValue of main/yangkvMain.cpp behind a round of the compacter of memory/compacter.cpp.
use yangkv_v.Base.{ℕ, ◌^◌, ◌<◌, ◌≡◌, ◌≢◌, refl, List, [], length, All, Bool, true, none}
use yangkv_v.Base.Outcome.{done}
use yangkv_v.Builder.{merge_writers}
use yangkv_v.Builder.Tables.{IsBinding}
use yangkv_v.Env.{WritableFile}
use yangkv_v.Hash.{writer_of}
use yangkv_v.MemEntry.{MemEntry}
use yangkv_v.MessageQueue.Search.{search_above}
use yangkv_v.Status.{not_found}
use yangkv_v.Version.Frozen.{last_of}
use yangkv_v.VersionSet.{VersionSet, compacted, seen, work_round}
use yangkv_v.VersionSet.Compacted.{Compacts, work_round-Compacts}
use yangkv_v.VersionSet.Counts.{IsShared}
use yangkv_v.Writer.{get_entry, read_entry}
use yangkv_v.YangkvMain.{YangkvMain, writer_at, get_value}
use yangkv_v.YangkvMain.Latest.{IsSettled, answer_of, get_value-answer_of}
use mathlib.Core.Path.{subst}
use yangkv_v.SkipList
use yangkv_v.Version

-- Where neither the active list nor the version has the key.
get_value-none :
    (key : List ℕ) (db : YangkvMain) (es : List MemEntry) (v : Version.Version)
    → IsSettled key db es
    → SkipList.get key (writer_at db (writer_of key)).list ≡ none
    → Version.get key v ≡ done none
    → get_value key (record db { current = v }) ≡ done (not_found, none)
unfolding get_value get_entry read_entry
get_value-none key db es v s active gone =
    rw
      (
        search_above key db.idx (writer_at db (writer_of key)).queue s.holding.valid s.queued,
        active,
        gone,
      )
      refl

-- In a settled store whose current version is that of a version set with its references in order
-- (IsShared), is full, and has lists of storable entries that hold one key at least and fewer than
-- 2^24, when the active list of the key's writer does not have the key and a round of workRound
-- returns, getValue answers the key before it by the last entry of its history, and with the new
-- version NotFound.
pub get_value_compacted :
    (synced closed : Bool) (key : List ℕ) (db : YangkvMain) (es : List MemEntry) (s s' : VersionSet)
    (file file' : WritableFile) (last number : ℕ)
    → IsSettled key db es
    → SkipList.get key (writer_at db (writer_of key)).list ≡ none
    → db.current ≡ seen s.heap s.current
    → IsShared s
    → Version.is_full (seen s.heap s.current) ≡ true
    → merge_writers s.current.list [] ≢ []
    → All (λ lists. All (λ l. All IsBinding l.list) lists) s.current.list
    → length (merge_writers s.current.list []) < 2 ^ 24
    → work_round synced closed file last s ≡ compacted number s' file'
    → (get_value key db ≡ done (answer_of (last_of key es)))
      × (get_value key (record db { current = seen s'.heap s'.current }) ≡ done (not_found, none))
get_value_compacted synced closed key db es s s' file file' last number settled active here shared
      full some_keys bindings small ends =
    let (_, _, _, _, _, _, gone) =
      subst (Compacts last s) ends
        (work_round-Compacts synced closed file last s shared full some_keys bindings small) in
    (
      get_value-answer_of key db es settled,
      get_value-none key db es (seen s'.heap s'.current) settled active (gone key),
    )
