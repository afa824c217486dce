-- ===== src/Db/BTree/Inserting.antt =====
-- `insert` of demo-db/src/btree.cpp on a stored tree.
pub mod Chains
pub mod Sound
pub mod Rows
pub mod Effects
pub mod Places
pub mod Growth
pub mod Leaves
pub mod Nodes
pub mod Parents
pub mod Takes
pub mod Shares
pub mod Levels
pub mod Roots
pub mod Clients
pub mod Reopening
pub mod Tests
