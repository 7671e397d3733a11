-- ===== src/Command.antt =====
-- The commands of src/command: handlers, the registry and the dispatch loop.
pub mod Args
pub mod World
pub mod Children
pub mod StringCmd
pub mod KeyCmd
pub mod ServerCmd
pub mod Registry
