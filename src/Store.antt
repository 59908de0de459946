-- ===== src/Store.antt =====
-- store.go: the sharded store, one child for each of its parts.
pub mod Placement
pub mod Shard
pub mod Cache
pub mod Counter
pub mod Window
pub mod PeerSeq
pub mod Persist
