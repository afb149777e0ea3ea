-- ===== src/Lib.antt =====
-- yangkv: a key-value store in memory, with logs and tables.
--
-- A client calls main/yangkvMain.cpp. setKey numbers the entry, chooses one of four writers by the
-- hash of the key, and pushes the entry to the queue of that writer (memory/message_queue.cpp), which
-- logs it (utils/logwriter.cpp over utils/env.cpp). The thread of the writer (memory/writer.cpp) takes
-- entries from the queue into its active list (memory/skiplist.h), and gives a full list to the
-- current version (main/versionset.cpp). getValue looks at the queue, the active list and the current
-- version in turn. The compacter (memory/compacter.cpp) merges the lists of a full version, writes them
-- as a table (main/builder.cpp over table/table_builder.cpp), and puts a version with that file in its
-- place.
--
-- Files, and what they model:
--   Slice         utils/slice.h. A Slice is the bytes of its object from the pointer on, with the size.
--   Coding        the codecs of utils/dbformat.h and utils/dbformat.cpp: EncodeFixed32 is
--                 encode_fixed32, PutVarint32 is put_varint32, and so on.
--   MemEntry      MemEntry, EncodeMemEntry and DecodeMemEntry of utils/dbformat.cpp.
--   Status        utils/status.h, with a constructor for each message.
--   Env           the buffered file of utils/env.cpp. The answers of the write calls are a list in the
--                 state, so a run is a function of what the system does. Env/Paths has Dirname and
--                 Basename, Env/Names the names of logs and tables (LogFileName, TableFileName).
--   Log           utils/logwriter.cpp and utils/logreader.cpp; pread is a parameter.
--   Hash          utils/hash_helper.cpp and the choice of a writer.
--   Map           the std::map from strings that the lists use, an ordered association list.
--   MessageQueue  memory/message_queue.cpp: the ring, its counters in uint64_t, its search loop, and the
--                 replay of older logs (in MessageQueue/Replay), with a round for each byte of a log and
--                 one more: a record has eight bytes at least.
--   SkipList      memory/skiplist.h.
--   Version       Version and AppendFrozenList of main/versionset.cpp, FileMetaData of
--                 main/versionedit.h.
--   Writer        memory/writer.cpp: one round of the loop of mayInsertMessage, and the loop by the number of
--                 its rounds; one round more than there are entries is enough.
--   YangkvMain    main/yangkvMain.cpp. init is YangkvMain.init where no log is there, and in a directory
--                 with logs it is restart (in YangkvMain/Restart), whose fuel bounds the rounds of
--                 getLogID.
--   Comparator    utils/comparator.h.
--   Format        table/format.cpp: the handles, the footer, and ReadBlock (in Format/Read).
--   BlockBuilder  table/block_builder.cpp, and the constructor of table/block.cpp.
--   FilterBlock   table/filter_block.cpp, over the interface FilterPolicy.
--   BloomFilter   utils/bloomfilter.cpp.
--   VersionEdit   main/versionedit.cpp; files are places in a heap. The loop of DecodeFrom has one round
--                 more than the input has bytes, and each round but the last takes a byte.
--   TableBuilder  table/table_builder.cpp over the buffered file, with the defaults of utils/option.h.
--   Builder       main/builder.cpp: MergeIterator as a function of the lists, and BuildTable.
--   VersionSet    Unref, apply and AppendVersion of main/versionset.cpp over a heap of files, and the
--                 rounds of memory/compacter.cpp; VersionSet::Builder stands in VersionSet/Builder,
--                 with std::upper_bound as a parameter that has the law IsUpperBound. The threads
--                 where they meet, AppendFrozenList under utils/condlock.h and workRound, are a step
--                 relation in VersionSet/Threads.
--   Base          notation, tests and lists; the result type Outcome (done, refused, fault).
--   Tests         runs on small inputs.
--
-- Bytes are numbers below 256. A machine word keeps its wrap-around, written % 2 ^ w. A read or write
-- outside an object, and a failed assertion, is `fault`, `crash`, `broken` or `none`, as each file
-- says; `refused` is the false or null answer of a decoder.
-- Loops are structural recursion, recursion on Acc (EncodeVarint64, VarintLength) or on fuel (the
-- search of the queue, with kQueueSize + 1 rounds: a valid ring has at most kQueueSize entries).
-- Threads are orders of operations: a set, a round of a writer and a get are steps, and each of them
-- runs to its end. A call that waits for another thread or for the system says so in its result.
-- Only in VersionSet/Threads are the calls taken apart: there each call on the lock, each test and
-- each change of the current version is a step.
--
-- Not modelled: the constructor of VersionSet, which reads current_ before it is set; the read and
-- write locks, the stop flags and the singleton; the sync of a directory, which is never run; the
-- width of an int where it counts objects, the keys of a filter block and the logs that getLogID
-- finds, which are taken to be fewer than 2^31; and what is printed.
pub mod Base
pub mod Slice
pub mod Coding
pub mod MemEntry
pub mod Status
pub mod Env
pub mod Log
pub mod Hash
pub mod Map
pub mod MessageQueue
pub mod SkipList
pub mod Version
pub mod Comparator
pub mod BlockBuilder
pub mod VersionEdit
pub mod Format
pub mod BloomFilter
pub mod Writer
pub mod YangkvMain
pub mod TableBuilder
pub mod Builder
pub mod VersionSet
pub mod FilterBlock
pub mod Tests
