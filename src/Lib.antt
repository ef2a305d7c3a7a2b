-- ===== src/Lib.antt =====
-- StreamHive: a verification library for the replication of blobs and of the lifecycle of logical
-- records.
--
-- StreamHive replicates blobs between peers. Package storage keeps them under their keys, by
-- default their SHA-256 digests; package p2p carries frames between peers that authenticated each
-- other; package replication has the messages that offer, ask for and put blobs. Package lifecycle
-- keeps the logical view of the blobs: a record says of a key in a namespace which blob it names,
-- or that it was deleted, and carries a version (epoch, sequence) and the identity of the authority
-- that allocated the version. Records reach a replica's store in any order and more than once; a
-- durable journal keeps them, is compacted into a checkpoint, and is the source of the repair of
-- other replicas. The applier verifies the blob, appends the record to the journal, and publishes
-- it in the store; a repair session with a peer applies the batches and snapshots that come, keeps
-- the peer's watermark, and acknowledges it. State files hold the last allocated version, the
-- acknowledgements of the peers, and the membership.
--
-- Which file models which part:
--   Lifecycle/Version       internal/lifecycle/model.go: Version, Compare, IsZero
--   Lifecycle/Records       model.go: Limits, Record, Validate, and the equality of records
--   Lifecycle/Store         model.go: Store with Classify, Apply, Get, Snapshot, Stats,
--                           ReplaceSnapshot
--   Lifecycle/Checkpoints   model.go and journal.go: the normal form of a checkpoint,
--                           SaveCheckpoint, LoadCheckpoint
--   Lifecycle/Envelope      journal.go: encodeEnvelope, decodeEnvelope
--   Lifecycle/JournalFile   journal.go: the header and parseJournal
--   Lifecycle/Journal       journal.go: the open journal, in Files (state and atomicWrite), Open
--                           (OpenJournal), Append (Append, Records, Replay, Close, Stats), Rewrite
--                           (rewriteLocked) and Compaction (Compact, InstallSnapshot)
--   Lifecycle/StateFile     what authority.go, watermark.go and membership.go share: one JSON value
--                           in an envelope that is replaced atomically
--   Lifecycle/Authority     authority.go: OpenAuthority, Next
--   Lifecycle/Watermarks    watermark.go: WatermarkBook with Acknowledge, Reconcile, Forget
--   Lifecycle/Repair        repair.go: batches, Journal.RepairBatch, Delivery; in Planning snapshots,
--                           acknowledgements, frames, PlanRepair, and the RepairCoordinator of
--                           watermark.go
--   Lifecycle/Membership    membership.go: MembershipBook with Replace, Progress, WatermarksAt; in
--                           Compacted: Compact with the acknowledgements of WatermarksAt, as
--                           lifecycle_cli.go calls them
--   Lifecycle/Transport     transport.go: the record envelope and the capability tests
--   Lifecycle/Applier       apply.go: NewApplier, Apply, ApplySnapshot, ensureBlob
--   Lifecycle/Session       session.go: NewRepairSession, Handle and the frames that it answers; in
--                           Sending: Run, SendNext and the waits
--   Storage/Hash            storage/hash.go
--   Storage/Memory          storage/memory.go: MemoryStore, with page.go in Storage/Page
--   Storage/Walk            the loop over pages that storage/inventory.go and integrity.go share
--   Storage/Inventory       storage/inventory.go: SummarizeInventory
--   Storage/Integrity       storage/integrity.go: InspectInventory
--   Storage/Blobs, Keys     the interface BlobStore of storage/store.go, and ordered sets of keys
--   P2p/Frame               p2p/frame.go: WriteFrame, ReadFrame
--   P2p/Handshake           p2p/handshake.go: the messages of peer authentication
--   P2p/Capabilities        p2p/capabilities.go
--   Replication/Protocol    replication/protocol.go: the messages, Decode, Apply
--   Daemon/Inventory        inventory.go: sendInventoryExchange and what it calls, with
--                           inventoryBatchSize of main.go; in Scheduler: the scheduler of
--                           exchanges, as steps of a system with threads
--   Errors, Context         the errors of all packages, errors.Is, and context.Context
--   Std                     what the code takes from Go's standard library: CRC-32C, UTF-8 and hex as
--                           functions, encoding/json, SHA-256 and the tables of package unicode
--                           as interfaces
--   Common                  shared helpers: bytes, maps, sorting, fallible results, lists
--   Examples                a small codec, sample data, tests, and each theorem at one input
--
-- How the state corresponds. A Go struct is a record with the fields of the source; a method that
-- holds its lock from the first read to the last write is one function from the old state to the
-- error or value, the new state, and what the files hold afterwards. Slices are copied before they
-- are shared in the source, so that `clone` is the identity on values. A map is an association
-- list that `insert` keeps free of repeated keys. Receivers are not nil. An `int` limit that is not
-- positive is 0, which the code replaces by the default.
--
-- What the environment does is an input. A context is the sequence of its answers to `ctx.Err()`,
-- one for each poll of the source; the calls of the operating system have records of outcomes
-- (AppendIo, AtomicIo, RewriteIo, OpenIo, LoadIo). A write that fails has written a front of its
-- bytes, and a rename either happens or not. A crash is a prefix of a write or a call that fails.
-- `Disk` holds the journal's path, the file that a rename has replaced there and a handle may
-- still be open on, and the checkpoint's path. `filepath.Clean` is a parameter.
--
-- Interfaces. `Json A` has `marshal`, `unmarshal`, and the reason why a strict decoder refuses
-- bytes; where a theorem relies on it, it takes as a hypothesis that what was marshalled is read
-- back, for the values it is about: encoding/json does so for strings that are valid UTF-8, and
-- may give the entries of a map in another order. Strict decoders that refuse unknown fields and
-- trailing data are its `unmarshal`. `json.Marshal` does not fail on these types. `Unicode` is the test `unicode.IsPrint`. `sort.Slice` and `sort.Strings` are an
-- insertion sort; the keys that are sorted are distinct or their repetition is refused.
--
-- `Sha256` is a function from bytes to bytes; a theorem that needs digests of 32 bytes, or that two
-- inputs do not collide, says so. The ordered set of github.com/google/btree is the record `BTree`,
-- and `BTreeLaws` says what its documentation says: an ascent visits the inserted keys in order,
-- each once. A `Pager` answers the k-th call of ListKeyPage for a cursor; `BlobStore` is a record of
-- operations that the memory store fills, and that the applier and Apply of replication take. The
-- connection of a peer is the list of frames that were sent on it. While Run waits, other calls
-- may change the state of the session: a `Turn` is any such change, or the end of the context.
--
-- Fuel. Run, its wait for an acknowledgement, and the walk over pages recurse on a number of
-- rounds and answer none where it does not suffice: the code loops as long as a peer or a pager
-- makes it. For a walk, more rounds than keys suffice. The frames of an inventory exchange
-- recurse on the number of keys, each takes one at least, and each try for a frame halves its
-- keys. The loop of `parseJournal` recurses on fuel, the length of what follows the header; each
-- round takes eight bytes at least, so the fuel does not run out. All other loops are structural.
--
-- Not modelled: the connections of p2p/tcp_transport.go and the metrics, the file store of
-- storage/file.go, and the commands of main.go and lifecycle_cli.go: sockets, TLS, directories,
-- timers, flags and printing. The goroutines of the scheduler of exchanges are threads of a system
-- whose steps are interleaved; all others appear only as the order of whole method calls.
pub mod Common
pub mod Context
pub mod Daemon
pub mod Errors
mod Examples
pub mod Lifecycle
pub mod P2p
pub mod Replication
pub mod Std
pub mod Storage
