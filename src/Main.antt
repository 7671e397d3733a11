-- ===== src/Main.antt =====
-- src/main.cpp: the command line, the start, the callbacks that the program adds to the loop, and the
-- shutdown.
pub mod Arguments
pub mod Program
pub mod Launch
pub mod Conversation
