-- ===== src/Tests.antt =====
-- Runs of the code on fixed inputs, and the theorems at concrete arguments.
mod Dicts
mod Protocols
mod Databases
mod Commands
mod Sockets
mod Pipelines
mod Snapshots
mod Loops
mod Servers
mod Saves
mod Programs
mod Conversations
