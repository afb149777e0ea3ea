-- ===== src/Tests/Meetings.antt =====
-- Runs of the writers of memory/writer.cpp and the compacter of memory/compacter.cpp.
use yangkv_v.Base.{
  Bool, ◌+◌, ◌≡◌, refl, true, false, some, List, [], ◌∷◌, ◌++◌, replicate, get_or, arith,
}
use yangkv_v.SkipList.{SkipList, new_list}
use yangkv_v.Version.{new_version, is_full}
use yangkv_v.VersionEdit.{new_meta}
use yangkv_v.VersionSet.Exclusive.{IsExclusive, IsRoomy, entering_has_room}
use yangkv_v.VersionSet.Kept.{IsTraced, Reach-IsTraced, append_late_lost}
use yangkv_v.VersionSet.Sleeping.{asleep_until_full}
use yangkv_v.VersionSet.Threads.{
  calling, testing, waiting, asleep, woken, entering, returning, watching, compacting, built,
  Threads, move, enter, leave, append_by, swap, rouse, call, take_lock, find_full, find_room, wait,
  stir, retake_lock, append_list_to, notice, build, put_version, broadcast, Reach, here, next,
  begun,
}

abbrev ten : List (List SkipList)
ten = replicate 10 new_list ∷ [] ∷ [] ∷ [] ∷ []

-- The first writer has filled the version.
abbrev filled : Threads
filled = record begun {
  current = record new_version { list = ten; list_count = 10 };
  frozen = λ i. get_or ten i [];
  appends = 10;
}

filled-IsExclusive : IsExclusive filled
filled-IsExclusive = λ i e. absurd (cc e)

filled-IsRoomy : IsRoomy filled
filled-IsRoomy = λ i l e. absurd (cc e)

filled-IsTraced : IsTraced filled
filled-IsTraced = (refl, tt, λ i below. refl)

-- The second writer finds it full.
abbrev found_full : Threads
found_full =
    move 1 (waiting new_list) (enter 1 (testing new_list) (move 1 (calling new_list) filled))

to_full : (stirs : Bool) → Reach stirs filled found_full
unfolding is_full
to_full stirs =
    next
      (next (next here (call filled 1 new_list (omega arith) refl))
        (take_lock (move 1 (calling new_list) filled) 1 new_list refl refl))
      (find_full (enter 1 (testing new_list) (move 1 (calling new_list) filled)) 1 new_list refl
        refl)

-- It sleeps, the compacter reads the lists, and the system ends the wait.
abbrev sleeping : Threads
sleeping = leave 1 (asleep new_list) found_full

abbrev reading : Threads
reading = record sleeping { compacter = built ten }

abbrev late : Threads
late = enter 1 (returning new_list) (move 1 (woken new_list) reading)

to_late : Reach true filled late
unfolding is_full
to_late =
    let slept = next (to_full true) (wait found_full 1 new_list refl) in
    let noticed = next slept (notice sleeping refl refl) in
    let read = next noticed (build (record sleeping { compacter = compacting }) refl) in
    next (next read (stir reading 1 new_list refl refl))
      (retake_lock (move 1 (woken new_list) reading) 1 new_list refl refl)

Reach-IsTraced_example : IsTraced late
Reach-IsTraced_example = Reach-IsTraced true filled late filled-IsTraced to_late refl

append_late_lost_example :
    (t : Threads) × Reach true late t
    × (t.frozen 1 ≡ new_list ∷ [])
    × (t.handed 1 ++ get_or t.current.list 1 [] ≡ [])
append_late_lost_example =
    append_late_lost true late 1 new_list ten new_meta (omega arith)
      (Reach-IsTraced true filled late filled-IsTraced to_late refl) refl refl

-- The second writer finds the version full, and sleeps only when the compacter has put a new version
-- in its place and has signalled.
abbrev replaced : Threads
replaced = record (swap new_meta ten found_full) {
  compacter = watching;
  writer = λ i. rouse (found_full.writer i);
}

abbrev missed : Threads
missed = leave 1 (asleep new_list) replaced

to_missed : Reach false filled missed
unfolding is_full
to_missed =
    let noticed = next (to_full false) (notice found_full refl refl) in
    let read = next noticed (build (record found_full { compacter = compacting }) refl) in
    let put =
      next read (put_version (record found_full { compacter = built ten }) new_meta ten refl) in
    let woke = next put (broadcast (swap new_meta ten found_full) refl) in
    next woke (wait replaced 1 new_list refl)

-- The first writer comes with another list, which it finds room for.
abbrev called : Threads
called = enter 0 (testing new_list) (move 0 (calling new_list) missed)

abbrev admitted : Threads
admitted = move 0 (entering new_list) called

to_admitted : (s : Threads) → Reach false s missed → Reach false s admitted
unfolding is_full
to_admitted s r =
    let calls = next r (call missed 0 new_list (omega arith) refl) in
    let tests = next calls (take_lock (move 0 (calling new_list) missed) 0 new_list refl refl) in
    next tests (find_room called 0 new_list refl refl)

entering_has_room_example : (is_full admitted.current ≡ false) × (admitted.lock ≡ some 0)
entering_has_room_example =
    entering_has_room false filled admitted 0 new_list filled-IsExclusive filled-IsRoomy
      (to_admitted filled to_missed) refl

abbrev added : Threads
added = append_by 0 new_list admitted

to_added : Reach false missed added
to_added = next (to_admitted missed here) (append_list_to admitted 0 new_list refl)

asleep_until_full_example :
    (added.writer 1 ≡ asleep new_list)
    × (added.compacter ≡ watching)
    × (added.current.list_count + missed.appends ≡ missed.current.list_count + added.appends)
asleep_until_full_example =
    asleep_until_full missed added 1 new_list refl refl to_added (omega arith)
