-- ===== src/Persistence.antt =====
-- The snapshots of src/persistence: the format of a file, writing one to disk, and the server's part.
pub mod Rdb
pub mod Save
pub mod Background
