-- ===== src/Lib.antt =====
-- Verification library of Capacitor, an active-active replicated cache.
--
-- The program. Each node (`Capacitor`, capacitor.go) holds a sharded store (store.go), a hybrid
-- logical clock (hlc.go), a delta log (log.go) and latency statistics (metrics.go). A client call
-- changes the store under a new timestamp and appends an entry to the log. One replicator for each
-- peer sends what follows the peer's position in the log, in batches; the peer's server
-- (transport.go) checks the shared token, merges each entry's timestamp into its clock, and applies
-- the entry to its store. Entries and batches are encoded by generated code (log_gen.go, hlc_gen.go,
-- types_gen.go, transport_gen.go) on top of the msgp library; the stream client (transport.go) keeps
-- one connection to each peer and opens it with a handshake. The
-- store is flushed to badger and loaded from it at the start.
--
-- The files.
--   Prelude, Dict, Float, Strings: native numbers and lists, Go's maps, the interface of float64,
--     and the functions of strings, strconv and encoding/binary that store.go calls.
--   Hlc: hlc.go. `tick` is the body of Now, `merge` that of an accepted Update. Hlc/Order is on
--     After and GreaterOrEqual, Hlc/Valid on ranges, rejection and drift, Hlc/Causal on single calls,
--     Hlc/Run on sequences of calls.
--   Store/Placement, Store/Shard: getShardKey, hash, getShard, and the data of store.go.
--   Store/Cache: set, get, exists, delete, pruneExpiredKeys, CacheSize.
--   Store/Counter: increment, getNodeCount, setNodeCount, getAggregateCount, incrementMetric,
--     getAggregateMetric; Store/Counter/Spec is what a counter means, Refine relates the two, Reports
--     and Merge are on reports from other nodes.
--   Store/Window: incrementSlidingWindow, addWindowTimestamp, pruneStaleWindows.
--   Store/PeerSeq: updatePeerSeq, getPeerSeq.
--   Store/Persist: flush and load, with float64ToBytes and float64FromBytes; its child modules are
--     on what a restart keeps of counters, registers, windows and peer positions.
--   Log: log.go. Log/Entry has the entry and the interface of its encoding, Log/Append, Log/Retain
--     and Log/Overwrite are on Append, Log/Batch on GetEntriesRaw.
--   Metrics: Stat.Record, summarize and GetSummary of metrics.go; Metrics/Memory has memMonitor and
--     the entry of GetSummary for memory.
--   Node: the state of capacitor.go. Node/Api has the client calls (Scan
--     GetScan), Node/Remote applyRemoteEntry and
--     handleConn (Auth is on the token, Deliver and Laws on entries), Node/Replicate the replicators
--     and replicateToPeer; Node/Replicate/Skips is on where they start, Node/Replicate/Rounds
--     on the turns of peerReplicatorLoop, whose number is the fuel of `rounds`, enough when it is the number of entries that are due.
--   Wire: MarshalMsg, UnmarshalMsg, DecodeMsg and Msgsize of the generated files, on top of the
--     interface of msgp. Wire has the generated loop over the fields of a map and Wire/Fields theorems
--     on it; Wire/Timestamp, Wire/Entry, Wire/Handshake and Wire/Batch are the types. UnmarshalMsg and
--     DecodeMsg are the same code, on a slice and on a stream: one function.
--   Server: handleConn of transport.go from the bytes of a connection on. The fuel of
--     `decode_batches` is one more than the number of bytes, with which the loop always returns
--     (Server/Termination).
--   Client: StreamClient of transport.go, and NotifyLeave. Client/Streams is on what it writes,
--     Client/Delivery on what a server makes of that, Client/Sync on the turns of
--     peerReplicatorLoop with SendBatch in them, whose number is the fuel of `sync`, and
--     Client/SetServed on one value from Set to the other node's store.
--   Life: Config, New and Close of capacitor.go, newStore and close of store.go.
--     Life/Restart is on what a node finds of its registers when it is made again.
--   Tests: concrete inputs.
--
-- Conventions. Each method holds its lock, so it is one function on the state; a reading of the wall
-- clock is an argument, one for each reading. int64 and int32 results are wrapped (`wrap64`,
-- `wrap32`), uint32 and uint64 results are reduced modulo their range; `int` is not bounded. A panic
-- is `none`.
-- Loops are structural recursion on a list or on the loop's count; on fuel recurse `decimal` of
-- Strings (20 digits, where an int64 has at most 19), `decode_batches`, `rounds` and `sync`.
-- The order of a Go map's `range` is that of the list that stands for the map.
--
-- Not from the source are: float64 (Float: for whole numbers up to 2^53 the exact results, and that
-- `>` is a strict order), msgp (Wire: reading undoes appending, the bytes of map headers and keys, and
-- size bounds; Server/Termination: a read leaves fewer bytes), and msgpack (where a theorem needs that
-- decoding undoes encoding, it says so of the value in question). The log and the receiver take the encoding of entries as a
-- parameter (Log/Entry), which Wire/Entry fills.
-- A []byte is nil where it is empty: the program makes no empty value that is not nil.
--
-- Not modelled: sockets, TLS and buffer pools of transport.go, the gossip list, the logger, badger,
-- EncodeMsg of the generated files, and the unused Message of types.go with its codec.
pub mod Prelude
pub mod Dict
pub mod Float
pub mod Strings
pub mod Hlc
pub mod Store
pub mod Log
pub mod Metrics
pub mod Node
pub mod Wire
pub mod Server
pub mod Client
pub mod Life
pub mod Tests
