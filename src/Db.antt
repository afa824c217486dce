-- ===== src/Db.antt =====
-- demo-db: the write-ahead log, the page cache, the B+ tree, the SQL front end and the queries.
pub mod Wal
pub mod PageManager
pub mod Sql
pub mod PageStore
pub mod BTree
pub mod Database
