-- ===== src/Lib.antt =====
-- Models of landropic, a peer-to-peer folder synchroniser in Rust, and theorems about them. A file
-- of a shared folder is cut into content-defined chunks (landro-chunker); a manifest lists the
-- files of a folder with their chunk hashes (landro-index); peers greet each other, compare
-- manifests and ask for the chunks that differ (landro-proto, landro-sync); the daemon shortens
-- the exchange by Bloom filters and keeps checkpoints of interrupted transfers (landro-daemon).
--
-- Common conventions. Prelude.antt passes on the names that all files share; its children hold
-- tests on numbers, lists indexed by numbers, 64-bit words, texts, maps as association lists,
-- sorting, walks over maps, and the outcome of code that may panic or, in a loop on fuel, run out.
-- Bytes, sizes, times and counters are natural numbers; wrap-around is written out where the code
-- wraps. The crate blake3 is a parameter of the definitions that hash.
--
-- Chunker.antt and its children: landro-chunker/src/chunker.rs. Chunker/Config.antt has
-- ChunkerConfig, validate, the gear table and Chunker::new; Chunker/Boundary.antt has
-- find_chunk_boundary with its two loops (init_hash, scan); Chunker/Split.antt has chunk_bytes and
-- chunk_stream, where the reader is the list of what its calls give. The while loops take fuel,
-- the length of the buffer and one more, which suffices since no chunk is empty. Cover, Stream,
-- Shift, Locality, Match and Setup prove; Tests holds runs and instances. An access out of bounds
-- is the outcome panicked.
--
-- Proto.antt and its children: landro-proto. Proto/Messages.antt has the messages of landro.proto;
-- Proto/Version.antt has VersionNegotiator of landro-proto/src/lib.rs, with str::split and u32
-- parsing written out; Proto/Validation.antt has the limits and every check of
-- landro-proto/src/validation.rs, where Rust's tables of characters are the parameter Unicode.
-- Texts are their UTF-8 bytes. Proto/Paths.antt and Proto/Sessions.antt prove what accepted
-- messages have, and what a session does with them.
--
-- Index.antt and its children: landro-index/src/manifest.rs. Index/Manifest.antt has
-- ManifestEntry, Manifest, ManifestDiff and the comparison of two manifests; Index/Merkle.antt has
-- hash_file_entry, hash_pairs, calculate_hash, finalize and verify. The while loop that halves the
-- levels has the number of leaves as fuel, which suffices since a level of more than one hash gets
-- shorter. Instants are nanoseconds; a HashMap is an association list, and where the code walks
-- over one, the order is a parameter (Visit). Index/Integrity.antt proves.
--
-- Sync.antt and Sync/Diff.antt: landro-sync/src/diff.rs. Sync/Diff.antt has the data, the
-- priorities, and the two loops of compute_diff, a step function for each round;
-- Sync/Diff/Compute.antt has the Merkle proof, compute_diff as a whole and IncrementalDiff. Its
-- record Env holds what the code takes from elsewhere: the crates blake3 and hex, the orders in
-- which HashMaps are walked, and the rounded logarithm of f64. A set of chunks is a list without
-- repetition. Change, Exact, Report, Needed, Totals and Pending prove.
--
-- Sync/Session.antt and its children: landro-sync/src/protocol.rs. Sync/Session.antt has the state
-- of SyncSession and the messages; Sync/Session/Handlers.antt has the handlers of the greeting and
-- the manifests, Sync/Session/Transfer.antt those of the chunks and of the end,
-- Sync/Session/Run.antt a session over a history of messages. The content store (landro-cas) is
-- the interface ContentStore, the database (landro-sync/src/state.rs) what upsert_peer_state makes
-- of its rows; hex, chrono and the order of a HashSet are fields of SyncEnv. What is only logged
-- is left out, session_id and created_at with it. Handlers run one after the other: no two of them
-- interleave. Sync/Session/Wants.antt proves; Sync/Session/Tests.antt has a toy store and runs.
--
-- Sync/Conflicts.antt and its children: landro-sync/src/conflict_detection.rs. The check of one
-- path, detect_conflicts over all paths in the order that a parameter gives, the automatic
-- resolution and the store of conflicts. Results of Rust that are always Ok are plain.
-- Sync/Conflicts/Conflicting.antt, Sync/Conflicts/Detect.antt, Sync/Conflicts/Resolve.antt and
-- Sync/Conflicts/Clear.antt prove.
--
-- Sync/Scheduler.antt and its children: landro-sync/src/scheduler.rs. The queue of the crate
-- priority_queue is the interface PriorityQueue, with the laws of its length that the scheduler
-- relies on; a trace keeps what was handed out and completed. Sync/Scheduler/Limits.antt proves.
--
-- Sync/Recovery.antt and its children: landro-sync/src/recovery.rs. Sync/Recovery.antt is
-- RecoveryManager, with the recovery log as its lines; Sync/Recovery/Startup.antt is
-- recover_on_startup, with the database's answers as a parameter. Sync/Recovery/Log.antt,
-- Sync/Recovery/Crash.antt and Sync/Recovery/Startup/Counted.antt prove.
--
-- Bloom.antt and its children: landro-daemon/src/bloom_diff.rs. Bloom/Filter.antt has BloomFilter
-- and ManifestSummary, Bloom/Handler.antt the messages and handlers of DiffProtocolHandler,
-- Bloom/Compression.antt its module compression; a handler gives its reply and the state after it,
-- or panics. siphasher, the sizes that f64 gives, the sizes and codecs of bincode and zstd,
-- decimal texts and the walk over a map are parameters (BloomEnv, Codec). The logged similarity
-- and the averages in f64 are left out. Bloom/Members.antt, Bloom/Exchange.antt and
-- Bloom/Progress.antt prove.
--
-- Quic.antt and its children: landro-quic/src/errors.rs and recovery.rs. Quic/Breaker.antt is
-- CircuitBreaker as a state machine over requests, successes and failures, Quic/Breaker/Spec.antt
-- what it promises; Quic/Recovery.antt the two retry loops of RecoveryClient, by recursion on the
-- attempts left, with the operation as a function from the number of the attempt and the time
-- after each attempt as a parameter (the delay in f64 only moves it); Quic/Health.antt
-- ConnectionHealthMonitor, with the probe of a connection as an argument. Quic/Breaker/Sound.antt,
-- Quic/Breaker/Refines.antt, Quic/Breaker/Recovers.antt, Quic/Recovery/Attempts.antt,
-- Quic/Recovery/Refusal.antt and Quic/Health.antt prove. RetryPolicy other than its number of
-- attempts, the background task and the statistics are left out.
--
-- Cas.antt and its children: landro-cas/src/packfile.rs. Cas/Packfile.antt has PackfileWriter and
-- PackfileReader over files as lists of bytes, with blake3 and the reading of the created handle
-- as parameters; Cas/Packfile/Layout.antt, Cas/Packfile/Entries.antt, Cas/Packfile/Open.antt,
-- Cas/Packfile/Write.antt and Cas/Packfile/Restore.antt prove. Cas/Manager.antt is
-- PackfileManager, with the disk as a map from the names of packfiles to bytes;
-- Cas/Manager/Flush.antt proves. An error keeps its kind and not its text; writes to the disk
-- succeed. PackfileIndex, the memory-mapped reader, the load at start and the statistics are left
-- out.
--
-- Cas/Store.antt and its children: landro-cas/src/storage.rs. Cas/Store.antt is the state of
-- ContentStore, with the crate lru as an interface whose laws are those of its documentation;
-- Cas/Store/Disk.antt the files, with the steps of write_atomic, and recover; Cas/Store/Cache.antt
-- the cache and its eviction; Cas/Store/Operations.antt write, read and exists, with what they
-- call of landro-cas/src/validation.rs; Cas/Store/Batch.antt the batched writes;
-- Cas/Store/Checks.antt the integrity check and the prefetch; Cas/Store/Partial.antt the resumable
-- writes. A crash, in Cas/Store/Lasting.antt, keeps the bytes of a file and the entries of a
-- directory that were synced, and of the others as much as it is given; entries reach the disk in
-- their order. Cas/Store/Lasting.antt, Cas/Store/Crash.antt, Cas/Store/Eviction.antt,
-- Cas/Store/Sound.antt, Cas/Store/Writes.antt, Cas/Store/Reads.antt, Cas/Store/RoundTrip.antt,
-- Cas/Store/Deletion.antt, Cas/Store/Batch/Queue.antt and Cas/Store/Partial/Whole.antt prove. The
-- loop that evicts is given one turn for each entry of the cache; it ends on these or on no
-- number. Calls of the file system succeed but on files that are not there, and the operations of
-- a store follow each other. Left out: the streams, the garbage collection and the statistics that
-- walk the directories.
--
-- Resume.antt and its children: landro-daemon/src/resume_manager.rs. The checkpoints of
-- ResumeManager by session, the last state of the checkpoint file and the active sessions; an
-- update is a function on a checkpoint, and a resumption may panic. That a folder exists is an
-- argument. The periodic save in the background, the statistics in f64 and the channels are left
-- out. Resume/Resuming.antt has the resumption itself and the clean-up. Resume/Updates.antt and
-- Resume/Sessions.antt prove.
--
-- Not modelled: the rest of landro-cas (metrics, utilities, the streams of the store), the rest of
-- the transport (landro-quic), the cryptography (landro-crypto), the command line, the rest of the
-- daemon, the index database and the watchers, the rest of landro-sync (progress, persistence),
-- and landro-proto/src/sync_handler.rs. They are sockets, SQL, file system events and asynchronous
-- glue, or components of their own that the ones above reach only by the interfaces named.
pub mod Bloom
pub mod Cas
pub mod Chunker
pub mod Index
pub mod Prelude
pub mod Proto
pub mod Quic
pub mod Resume
pub mod Sync
