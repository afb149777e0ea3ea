-- ===== src/Tests/Store.antt =====
-- Runs of the store of main/yangkvMain.cpp: a set, the round of the writer thread behind it, and the
-- reads of the key.
use yangkv_v.Base.{set, suc, zero, ℕ, ◌+◌, ◌^◌, ◌<◌, ◌≡◌, List, [], ◌∷◌, refl, arith, false}
use yangkv_v.MessageQueue.{push}
use yangkv_v.Base.Outcome.{done}
use yangkv_v.MemEntry.{MemEntry, of_strings, encode_mem_entry}
use yangkv_v.MemEntry.Storable.{IsStorable}
use yangkv_v.Env.{WritableFile, wrote, append_size, append, flush}
use yangkv_v.Log.{add_record}
use yangkv_v.Coding.{encode_varint32, encode_fixed64, varint_length}
use yangkv_v.Hash.{writer_of}
use yangkv_v.MessageQueue.Window.{IsValid, entries, new_queue-IsValid}
use yangkv_v.Version.{Version}
use yangkv_v.Version.Frozen.{last_of}
use yangkv_v.Writer.{Writer, may_insert_message, insert_messages, drained}
use yangkv_v.YangkvMain.Served.{get_value_drained}
use yangkv_v.Writer.Drain.{Moves, may_insert_message_lem}
use yangkv_v.YangkvMain.{
  YangkvMain, SetKey, set_done, set_key, get_value, init, writer_at, new_writer,
}
use yangkv_v.YangkvMain.Initial.{init-IsSettled}
use yangkv_v.YangkvMain.Latest.{IsSettled, answer_of, get_value-answer_of}
use yangkv_v.YangkvMain.Pending.{CanCount, set_key-IsSettled, get_value-set_key}

abbrev pub key : List ℕ
key = 107 ∷ []

abbrev pub value : List ℕ
value = 118 ∷ []

abbrev pub put_key : MemEntry
put_key = of_strings key value 1 false

abbrev pub log_of : ℕ → WritableFile
log_of i = record { buf = []; disk = []; answers = wrote 100 ∷ [] }

abbrev pub fresh : YangkvMain
fresh = init log_of

pub writer_of_key : writer_of key ≡ 0
unfolding writer_of
writer_of_key = refl

-- The store behind the set.
abbrev reached : SetKey → YangkvMain
reached (set_done db) = db
reached _ = fresh

abbrev one_set : YangkvMain
one_set = reached (set_key key value false fresh)

set_fresh : set_key key value false fresh ≡ set_done one_set
unfolding set_key push init writer_of add_record encode_mem_entry encode_varint32 encode_fixed64
    varint_length append_size append flush
set_fresh = refl

fresh_writer :
    (P : Writer → Type 0) (i : ℕ)
    → ((log : WritableFile) (id : ℕ) → P (new_writer log id))
    → P (writer_at fresh i)
unfolding init
fresh_writer P zero h = h (log_of 0) 0
fresh_writer P (suc zero) h = h (log_of 1) 1
fresh_writer P (suc (suc zero)) h = h (log_of 2) 2
fresh_writer P (suc (suc (suc zero))) h = h (log_of 3) 3
fresh_writer P (suc (suc (suc (suc i)))) h = h _ 0

fresh-CanCount : CanCount fresh
unfolding init
fresh-CanCount = record {
  writers = refl;
  idx_fits = omega arith;
  queues = λ i. fresh_writer (λ w. w.queue.w_ptr + 1 < 2 ^ 64) i (λ log id. omega arith);
  valid = λ i. fresh_writer (λ w. IsValid w.queue) i (λ log id. new_queue-IsValid log);
}

fresh-IsSettled : IsSettled key fresh []
fresh-IsSettled = init-IsSettled log_of key

get_value-set_key_example : get_value key one_set ≡ get_value key fresh
get_value-set_key_example =
    get_value-set_key key key value false fresh one_set [] fresh-CanCount fresh-IsSettled set_fresh

get_value-answer_of_example : get_value key fresh ≡ done (answer_of (last_of key []))
get_value-answer_of_example = get_value-answer_of key fresh [] fresh-IsSettled

-- The queue of the key's writer after the set.
set_key-IsSettled_example : IsSettled key one_set []
set_key-IsSettled_example =
    set_key-IsSettled key key value false fresh one_set [] fresh-CanCount fresh-IsSettled set_fresh

one_set-IsSettled : IsSettled key one_set []
one_set-IsSettled =
    set_key-IsSettled key key value false fresh one_set [] fresh-CanCount fresh-IsSettled set_fresh

one_set_queue : entries (writer_at one_set (writer_of key)).queue ≡ put_key ∷ []
unfolding set_key entries push init writer_of add_record encode_mem_entry encode_varint32
    encode_fixed64 varint_length append_size append flush
one_set_queue = refl

pub put_key-IsStorable : IsStorable put_key
put_key-IsStorable = record {
  key_room = omega arith;
  value_room = omega arith;
  key_fits = omega arith;
  value_fits = omega arith;
  seq_fits = omega arith;
}

may_insert_message_lem_example :
    Moves put_key [] []
      (writer_at one_set (writer_of key))
      one_set.current
      (may_insert_message (writer_at one_set (writer_of key)) one_set.current)
may_insert_message_lem_example =
    may_insert_message_lem (writer_at one_set (writer_of key)) one_set.current put_key [] []
      one_set-IsSettled.holding one_set_queue put_key-IsStorable

get_value_drained_example :
    (w' : Writer) × (v' : Version) × (insert_messages 2
        (writer_at one_set (writer_of key))
        one_set.current
      ≡ drained w' v')
    × (entries w'.queue ≡ [])
    × (get_value key
          (record one_set { writer = set one_set.writer (writer_of key) w'; current = v' })
        ≡ done (answer_of (last_of key (put_key ∷ []))))
unfolding set_key entries push init writer_of add_record encode_mem_entry encode_varint32
    encode_fixed64 varint_length append_size append flush
get_value_drained_example =
    get_value_drained key one_set [] (put_key ∷ []) 1 refl one_set-IsSettled one_set_queue
      (put_key-IsStorable, tt) (omega arith) (omega arith)
