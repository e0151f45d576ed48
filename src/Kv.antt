-- ===== src/Kv.antt =====
-- kv/: the key-value store on top of the pager.
pub mod Record
pub mod Value
pub mod Snapshot
pub mod Wal
pub mod Codec
pub mod Store
pub mod Table
pub mod Catalog
pub mod Btree
