-- ===== src/Core.antt =====
-- The storage engine of src/core: hashing, hash tables, values, and the database over them.
pub mod SipHash
pub mod Chain
pub mod Table
pub mod Dict
pub mod Buffer
pub mod Object
pub mod Db
pub mod ServerContext
