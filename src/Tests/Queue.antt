-- ===== src/Tests/Queue.antt =====
-- Runs of the queue of memory/message_queue.cpp, the lists and the versions.
use yangkv_v.Base.{◌≡◌, [], ◌∷◌, replicate, refl, arith, true, false}
use yangkv_v.MessageQueue.{blank, MessageQueue, pushed, push, resume, new_queue, search}
use yangkv_v.MemEntry.{MemEntry, of_strings}
use yangkv_v.Env.{WritableFile}
use yangkv_v.MessageQueue.Window.{IsValid, entries}
use yangkv_v.MessageQueue.Fifo.{Stores, Takes, fifo_push, fifo_pop, resume-refines, pop-refines}
use yangkv_v.MessageQueue.Search.{latest, search-latest}

abbrev put_k : MemEntry
put_k = of_strings (107 ∷ []) (118 ∷ []) 1 false

abbrev del_k : MemEntry
del_k = of_strings (107 ∷ []) [] 2 true

abbrev quiet_log : WritableFile
quiet_log = record { buf = []; disk = []; answers = [] }

-- A queue that keeps no log, as while a log is replayed, with two entries.
abbrev two_entries : MessageQueue
two_entries = record (new_queue quiet_log) {
  slots = blank ∷ put_k ∷ del_k ∷ replicate 42 blank;
  w_ptr = 3;
  is_ready = false;
}

abbrev two_entries_more : MessageQueue
two_entries_more = record two_entries {
  slots = blank ∷ put_k ∷ del_k ∷ put_k ∷ replicate 41 blank;
  w_ptr = 4;
}

two_entries-IsValid : IsValid two_entries
two_entries-IsValid = record {
  places = refl;
  started = omega arith;
  ordered = omega arith;
  fits = omega arith;
  counts = omega arith;
}

resume-refines_example :
    Stores (fifo_push put_k (entries two_entries)) (resume put_k two_entries) two_entries
resume-refines_example = resume-refines put_k two_entries two_entries-IsValid (omega arith)

pop-refines_example : Takes (fifo_pop (entries two_entries)) two_entries
pop-refines_example = pop-refines two_entries two_entries-IsValid

push-two_entries : push put_k two_entries ≡ pushed two_entries_more
unfolding push
push-two_entries = refl

search-latest_example : search (107 ∷ []) 1 two_entries ≡ latest (107 ∷ []) 1 (entries two_entries)
search-latest_example = search-latest (107 ∷ []) 1 two_entries two_entries-IsValid
