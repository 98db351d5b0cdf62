-- ===== src/Lib.antt =====
-- A model of BBDB, an append-only store for telecom events. An event is pushed into the ring of
-- its shard (internal/ingestion/ringbuf.go), which a writer (internal/ingestion/writer.go) drains
-- into the log of the shard in the metadata database (internal/meta/wal.go) and into a memtable
-- (internal/block/memtable.go). A full memtable is sealed (internal/block/sealer.go): it is sorted
-- and written as a block file of three compressed columns (internal/block/format.go), put into a
-- store (internal/tier/local.go), and one batch of the database removes the log and records the
-- block (internal/meta/seal.go). A query finds blocks by an index in the database
-- (internal/meta/keys.go, internal/index/index.go), leaves out those whose bloom filter denies the
-- key (internal/index/bloom_cache.go), reads the matching rows of the others
-- (internal/query/block_reader.go) and merges them (internal/query/merger.go). Expired blocks are
-- removed by the reaper (internal/ttl/reaper.go), and metadata without a file by the janitor
-- (internal/ttl/janitor.go).
--
-- Files:
--   Base: Boolean tests, lists, bytes, signed and unsigned words, masks, errors, steps of a state.
--   Kv: the storage engine (pebble) as a parameter: its content is a map of byte strings, a scan
--     is sorted, a batch is applied whole or not at all, and any call may fail. Kv/Memory is an
--     engine.
--   Calendar: the dates of package time in UTC, and the digits of strconv and fmt.
--   Node: what a process works on, its database and its files.
--   Files: the calls of package os, on whole files; any call may be refused. Directories, open
--     file handles and partial writes are not part of the model.
--   Block: Header, Footer and Columns for the codecs of internal/block/format.go, Body for
--     WriteBlockBody and ReadFilterColumns, Event and Routing for internal/block/event.go,
--     Memtable, Sealer for internal/block/sealer.go, and Crc for hash/crc32. The hash of keys
--     (xxhash) is the parameter Routing.Xxhash, with Block/Routing/FirstByte as an instance. The
--     compressor (zstd) is the parameter Columns.Zstd, of which Block/Stored is an instance;
--     sort.Slice is the parameter Memtable.SortSlice, with Block/Memtable/Insertion as an
--     instance.
--   Meta: Keys for the layouts of internal/meta/keys.go, Blocks for block.go and types.go,
--     Migrations, Wal, Expiry, Idx, Batches for seal.go and ttl_batch.go, Recovery. Meta/Typed and
--     Keys/Typed have the bytes of the keys.
--   Index: Sparse for internal/index/index.go and BloomCache for internal/index/bloom_cache.go.
--   Query: BlockReader and Merger for the files of these names, Engine for
--     internal/query/query.go, with Engine/Plan for Engine.Query and Engine for its last part.
--     container/heap is the parameter Merger.Heap, with Query/Merger/Listed as an instance.
--   Ingestion: RingBuf for internal/ingestion/ringbuf.go, Writer for internal/ingestion/writer.go,
--     Json for the event that it marshals into the log. RingBuf/Steps has Push and Pop of two
--     goroutines, one access to the shared memory a step.
--   Block/Bloom: internal/block/bloom.go, over the library bits-and-blooms as the parameter
--     Bloom.BloomLib, of which Block/Bloom/Exact is an instance.
--   Grpc: QueryServer for internal/grpc/query_server.go, with BlockEventsToProto of convert.go.
--     The query engine is a parameter, and the stream may refuse any message. IngestionServer for
--     internal/grpc/ingestion_server.go, with the rest of convert.go: a batch is written to any
--     writers that keep the promise of its record Writers, and IngestionServer/Started has those
--     of Ingestion. The order in which Go goes over a map is a parameter. IngestionServer/HandedOver
--     and Stopped have Stop, IngestionServer/Queried what a query finds behind it, Server the method Run of
--     internal/grpc/server.go, with whether the open streams ever close as an input, and Interceptor the files interceptor.go and request_id.go.
--   Tier: Local for internal/tier/local.go.
--   Config: the records of internal/config/config.go, with Config/Load for what is decoded and
--     Config/Defaults for the defaults and Load. viper is the parameter Load.Viper: what its calls
--     bind and read, in which order it looks a key up, and the weak conversions of its decoder, of
--     which nothing is assumed. Config/Listing is an instance.
--   Logger: internal/logger/logger.go, over zap as a parameter. Command: the command start of
--     cmd/bbdb/main.go.
--   Server: New of internal/server/server.go, with Open and Close of internal/meta/db.go. The files of
--     the engine are the parameter PebbleFiles. Server/Lifecycle has Run and Shutdown as a step
--     relation, in which the workers, the main goroutine and the outside take turns in any order.
--   Ttl: Reaper and Janitor for the two workers. What the context answers is a function
--     of the number of times it was asked; the clock is an argument.
--
-- Integers of Go are native numbers with their wrap-around written out, int64 values are signed
-- integers of Base/Int with their range as a condition where it matters. A slice index out of
-- range is the error panic. Loops whose length the data gives are structural recursions. The loops
-- with fuel are doubling in nextPow2 (65 turns, which is one for each bit), DrainAll (one turn for
-- each event and one more), the merge and the batches of a query (one for each event and one
-- more), the index batches of a seal (one turn for each hash) and the evictions of the bloom cache
-- (one for each element); the results on them show that this is enough. Logging and timers are left
-- out.
--
-- Not modelled: the set-up of the commands with cobra and the command that prints the version
-- (cmd/bbdb/main.go), the generated messages (api/gen), and the timing of the calls, which only the
-- log shows.
pub mod Base
pub mod Calendar
pub mod Node
pub mod Kv
pub mod Files
pub mod Block
pub mod Meta
pub mod Index
pub mod Tier
pub mod Ttl
pub mod Query
pub mod Grpc
pub mod Ingestion
pub mod Config
pub mod Server
pub mod Logger
pub mod Command
