-- ===== src/Lib.antt =====
-- A model of the core of lance-go: the Go side of its FFI boundary to the Rust library.
--
-- The parts and the files that model them (paths from the repository's root):
--
-- * lance/errors.go. Errors.antt has the sentinels, `codeToSentinel`, and error values with the
--   wrapping of `fmt.Errorf`; `errors_is` is `errors.Is`. Errors/Ffi.antt has `ffiCall` and
--   `lastError` as explicit state passing over a `World`: the native state, a clock that moves on
--   with each look at a context, the pin count of the thread, its cancel slot, and the live cancel
--   tokens. The native library is a record of functions (`Native`); the native call is a function
--   of the token in the slot. Errors/Out.antt adds the out parameters of a caller.
--   Errors/Watcher.antt has the two goroutines of `ffiCall`, the caller and the watcher, as a step
--   relation, each of whose steps is one statement that the other goroutine can observe.
-- * lance/callbacks.go and lance/cbytes.go. Plugin.antt has the plugin registry, a map with the
--   last handle given out, whose handles wrap at 2 ^ 64. Plugin/Invoke.antt has
--   `go_callback_invoke` over the state that plugins keep; a plugin's reply is bytes, an error or a
--   panic. Plugin/Handles.antt is about histories of registry calls.
-- * lance/cache.go. Cache.antt has the payload decoders, the encoders of rust/src/cache.rs that
--   they answer to, and the two cache adapters over any backend. Cache/Codec.antt is about the
--   payloads, Cache/Adapter.antt about a backend behind the registry and the callback.
-- * lance/reader.go, lance/iter.go and lance/take.go. Reader.antt has the owned record reader, a
--   record with its reference count, stream, current batch and error, and a log of what it does to
--   things outside it. The Arrow C stream and package cdata are a record of functions (`ArrowLib`).
--   Reader/Invariant.antt has its ownership rules, Reader/Open.antt its constructor,
--   Reader/Iterate.antt and Reader/Collect.antt the range loop `batches`, and Reader/Single.antt
--   `singleBatch` and `drainSingleBatch` of lance/take.go.
-- * lance/blob.go. Blob.antt has the operations of `BlobFile` and `BlobReader`; the native blob
--   functions are a record (`BlobLib`). Blob/Contents.antt is about reads, Blob/Seek.antt about
--   the cursor.
-- * Handles. Handle.antt has the native pointer of a `Dataset`, `Fragment`, `Session` or `BlobList`
--   (lance/dataset.go, lance/fragment.go, lance/session.go, lance/blob.go) with its clean-up,
--   `datasetOp` and `fragmentOp` of lance/ops.go, and `takeBlobs`. Handle/Life.antt is about
--   closing, Handle/Run.antt about operations.
-- * lance/index.go. Index.antt has the 17 index configurations as one data type, with their type
--   names and parameter documents; a document is a map[string]any, as in Json.antt. A
--   float64 is a parameter with a test for 0, and the text of an unknown distance is one too.
--   Index/Defaults.antt and Index/Sent.antt are about what the documents hold.
-- * lance/scanner.go. Fts.antt has the full-text queries with their validation and their tagged
--   documents; a nil query is a slot that holds none. Fts/Says.antt describes such a
--   document member by member, Fts/Fits.antt says which queries
--   are valid, and Fts/Judged.antt has the chains of calls that may refuse their input.
--   Scan.antt has the scanner and its configuration, Scan/Methods.antt the methods that set a part
--   of it, and Scan/Builder.antt chains of those. Scan/Run.antt has `queryArray`, `newNative` and
--   the terminal methods `CountRows`, `Explain`, `AnalyzePlan` and `AnalyzeCountPlan` over the
--   thread, the plugin registry, the dataset's read lock and the references to the query array; the
--   native scanner is a record (`ScannerLib`). Scan/Owned.antt is about what they leave behind, with
--   the native scanner's ownership of its plugin as a hypothesis (`Owns`). Scan/Stats.antt has the
--   plugin that receives the statistics of a scan.
-- * lance/dataset.go. Open.antt has the options of `Open` (with those of lance/branch.go,
--   lance/session.go and lance/cache.go), their validation, and `Open` with `openWithSession` and
--   `wrapObjectStoreCache` over the thread, the plugins and the session's mutex. Open/Valid.antt is
--   about the validation, Open/Owned.antt about what `Open` leaves behind. Write.antt has the options
--   of `Write` (with those of lance/writeparams.go, lance/session.go and lance/hooks.go) and
--   Write/Run.antt `Write`, over the thread, the plugins, the session's mutex, the exported
--   streams that nobody has taken over, and a log of the registry that each call by
--   `ffiCall` finds; Write/Locked.antt and Write/Owned.antt are about what it leaves behind.
-- * lance/transaction.go. Transaction.antt has the reading of a transaction from native buffers, with
--   a log of what is given back, Transaction/Fragments.antt `WriteFragments`, and
--   Transaction/Commit.antt `CommitBuilder`; a method that reads a field of a nil transaction
--   crashes. Transaction/Receive.antt and Transaction/Sent.antt are about buffers and commits.
--   Plugin/Loan.antt is about a plugin that is registered for one call.
-- * lance/hooks.go. Hooks.antt has the plugins for the progress of a write and for a column mapper,
--   with a log of what they do to record batches, and the payloads that native code sends them
--   (rust/src/session.rs, rust/src/hooks.rs). Hooks/Mapper.antt is about the mapper behind the
--   callback, Hooks/Checkpoint.antt has the plugin for checkpoints, and Hooks/Columns.antt
--   `AddColumnsUDF`.
-- * The operations that are one native call. Ledger.antt has what they share: a call that fills in a
--   value or a string, which is read and given back, and the count of the Arrow exports that nobody
--   has taken over; Handle/Hand.antt is about operations that do not use `datasetOp`.
--   Ledger/Settled.antt, Ledger/Ops.antt, Ledger/Served.antt and Ledger/Asked.antt say how such a
--   call and its operation end.
-- * lance/config.go. Config.antt has `getJSON`, `updateMap` and the operations by them,
--   Config/Reads.antt the getters, Config/Changes.antt the setters; a map is a list of entries, as
--   in Maps.antt. Config/Answers.antt is about getters, Config/Updated.antt about the table that the
--   setters change, with the native merge of a map as a hypothesis (`MergesInto`).
-- * lance/mutation.go. Mutation.antt has `Delete`, `Update` and the conversion of durations,
--   Mutation/Merge.antt the merge-insert builder. Mutation/Timeout.antt is about the durations,
--   Mutation/Run.antt about the operations.
-- * lance/version.go and lance/branch.go. Version.antt has references, versions and tags,
--   Version/Branch.antt branches, clones and `Append`. Version/Received.antt has the reader of a
--   reference in rust/src/version.rs; Version/Run.antt is about the operations.
-- * lance/evolution.go. Evolution.antt has the column changes; Evolution/Run.antt is about their
--   guards and exports.
-- * lance/index.go, its second half. Index/Manage.antt creates, lists, optimises and drops indices;
--   Index/Lookup.antt looks them up, and Index/Loaded.antt is about lookups by name. lance/distributed.go: Distributed.antt has index
--   segments; Distributed/Fragments.antt and Distributed/Segments.antt are about them.
-- * lance/maintenance.go. Maintenance.antt has compaction, cleanup, `PlanCompaction` of
--   lance/distributed.go and the transactions of lance/delta.go; Maintenance/Sent.antt is about the
--   age of a cleanup. Transaction/Operation.antt has `CommitOperation` of lance/transaction.go, and
--   Transaction/Updates.antt is about the updates that its document holds, as
--   rust/src/transaction.rs reads them.
-- * Queries that give a reader. Stream.antt has the import of a native stream, and Stream/Methods.antt
--   those of lance/delta.go, lance/sql.go, lance/fragment.go and lance/distributed.go;
--   Stream/Owned.antt is about the owner of the stream.
-- * lance/fragment.go. Fragment.antt has the counts and the metadata of a fragment, and `Fragments`,
--   `Fragment`, `CountRows`, `Version` and `LatestVersion` of a dataset.
--
-- How they interact: a blob read calls `ffi_call` with out parameters and copies native bytes by
-- `copy_c_bytes`; a cache adapter is a plugin, which the callback finds in the registry, and so are
-- the plugins of lance/hooks.go and that of a scan; the range loop drives the reader; scans, opens,
-- writes, commits and the operations of Ledger.antt go through `ffi_call` with out parameters, and
-- hold their plugins in the registry for as long as native code may call them.
--
-- Numbers: lengths and handles are native numbers with their wrap-around written out; an int64 is
-- an integer of Base/Int.antt with its range as a predicate. A native pointer that is read is NULL
-- or shows the bytes behind it. The loop of `batches` runs on fuel, one unit for each round and
-- one for the read that ends it; a stream that ends within n reads needs n + 1.
--
-- Not modelled: the observability spans and metrics, but for how often the span of an operation
-- on a handle ends and what lance/mutation.go records; JSON text, where what encoding/json makes
-- of a value or reads from a text is a parameter; the takes of lance/take.go and
-- lance/fragment.go by their JSON specs; manifests and summaries of lance/transaction.go;
-- lance/encoding.go; the Rust crate behind the C interface; mutexes, but for how often an
-- operation holds one, except where a relation of steps stands for the interleavings. C strings
-- for options and URIs, which Go makes and frees around a call, are values. The reference to a
-- query array that its exported copy holds is not counted. A `RecordBatch` is a value: its own
-- reference count is that of Arrow. Formatted error text is a format string with its operands.
--
-- Base.antt holds the shared names and lemmas. Tests.antt holds runs on concrete input.
pub mod Base
pub mod Errors
pub mod Plugin
pub mod Cache
pub mod Reader
pub mod Blob
pub mod Handle
pub mod Json
pub mod Index
pub mod Fts
pub mod Scan
pub mod Open
pub mod Write
pub mod Transaction
pub mod Hooks
pub mod Ledger
pub mod Maps
pub mod Config
pub mod Mutation
pub mod Version
pub mod Evolution
pub mod Distributed
pub mod Maintenance
pub mod Stream
pub mod Fragment
pub mod Tests
