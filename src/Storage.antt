-- ===== src/Storage.antt =====
-- storage/: fixed-size pages, the buffer pool that caches them, the pager.
pub mod Page
pub mod Pool
pub mod Pager
