-- ===== src/Lib.antt =====
-- Keva DB, a Redis-compatible in-memory server in C++: what its data structures, its protocol, its
-- commands, its event loop and its snapshots compute, and the theorems that make them correct.
--
-- The program's parts and the files that model them
--   src/core/dict.cpp: Core/Dict.antt is `Dict`, two tables with an incremental migration from the
--     first to the second; Core/Table.antt and Core/Chain.antt are one table and one chain of it, and
--     Core/SipHash.antt the hash. An entry pointer is a place in a chain. Below Core/Dict stand the
--     invariant (Invariant), the migration (Rehash, Steps, Progress), the writes (Updates), the methods
--     (Methods), sampling (Sampling) and the refinement of a map (Refinement).
--   src/core/buffer.cpp: Core/Buffer.antt, bytes with a capacity; more than 2^62 of them are no result.
--   src/core/object.cpp: Core/Object.antt, a header word of three fields with a payload, and the clock
--     of the LRU.
--   src/core/db.cpp: Core/Db.antt is `KevaDatabase`, a dictionary of objects and one of expiry times.
--     Core/Db/Live.antt defines what it means at a time: the objects that are not past their time.
--   src/core/server_context.cpp: Core/ServerContext.antt, the configuration, the statistics, the
--     databases with the counters, and the timer's work. The singleton is a state that is passed on.
--   src/protocol/resp_types.hpp (under include/keva), resp_encoder.cpp, resp_parser.cpp:
--     Protocol/RespTypes.antt, Protocol/Encoder.antt and Protocol/Parser.antt.
--   src/common/logger.cpp and include/keva/common/status.hpp: Common/Logger.antt and
--     Common/Status.antt.
--   src/net/socket.cpp: Net/Socket.antt, who owns a descriptor, and the start of a listening socket.
--   src/net/connection.cpp: Net/Connection.antt, the two buffers with their cursors; what `read` and
--     `write` of the socket return is an argument.
--   src/net/event_loop.cpp: Net/EventLoop.antt, the callbacks of each descriptor and what epoll is asked
--     for. epoll_ctl is the record `Epoll`, with its documented effect as laws; `Grants` below
--     Net/EventLoop/Watching.antt says that it does what it is asked. Net/EventLoop/Dispatch.antt
--     is `run`, over what epoll_wait returns, in a state that the callbacks change.
--   src/net/tcp_server.cpp: Net/TcpServer.antt, the server as a state with its loop and the rest of the
--     program; Net/TcpServer/Hosting.antt puts its callbacks in the loop.
--   src/command: Command/StringCmd.antt and Command/KeyCmd.antt are handlers, functions from the clocks,
--     the arguments and a database to a database and the bytes of the reply; Command/ServerCmd.antt has
--     those that also use the server context, the files and the child (Command/World.antt);
--     Command/Children.antt is the child of BGSAVE and its end; Command/Registry.antt is the table of
--     commands and the dispatch loop over a read buffer.
--   src/persistence: Persistence/Rdb.antt, the format of snapshots and its reader, with a file as its
--     bytes; Persistence/Save.antt, the writer over calls of open, write and rename that may fail;
--     Persistence/Background.antt, fork and the end of the child.
--   src/main.cpp: Main/Arguments.antt is the command line, Main/Program.antt the callbacks that main
--     registers, Main/Launch.antt the start and the shutdown; Main/Conversation.antt
--     puts the server's callback and the dispatch loop together.
-- The loop calls the server, the server the request handler of main, which is the dispatch loop: it takes
-- a command from the connection's read buffer by the parser and appends the reply of its handler to the
-- write buffer. The handlers call the database, the database its two dictionaries. Base holds the shared
-- names: bytes, integers of 64 bits with their wrap-around, association lists for maps, decimal text, and
-- `std::bit_ceil`.
--
-- How the model is bounded
--   Bytes are numbers, texts are lists of them. Sizes are natural numbers without a bound, except
--   where the source reads a 64-bit field, and in the buffers, whose sums wrap. A time of
--   `int64_t` that overflows is wrapped; what the subtraction of DECRBY gives when it overflows is
--   a parameter of the table of commands, and a number on the command line that C leaves undefined
--   is an outcome of its own. Memory that is asked for is taken to be there. The clocks are read
--   once in a command, while the program may read them several times. Draws of the random
--   generator are arguments. The parser's fuel is twice the length of its input and one, since a
--   call takes a byte or an element off what is left. The dispatch loop has one turn more than
--   there are unread bytes, and the loop that loads a snapshot one more than the file has bytes,
--   since each turn but the last takes a byte. The count that `std::vector::reserve` grants is a
--   parameter of the parser. The event loop takes a turn for each given return of epoll_wait, so
--   that a theorem about it speaks of all finite runs; the calls of accept4, read and write in a
--   callback are given up to the one that ends its loop.
--
-- What is not modelled
--   The kernel's side beyond `Epoll`: which events come, the timeout of epoll_wait, signals before
--   their byte is in the pipe. The text of log messages, the log's mutex and the addresses that
--   are only logged. TCP_NODELAY of accepted sockets, whose failure is ignored. Closing of files,
--   and read errors while a snapshot is loaded. The child of BGSAVE takes its step at one time:
--   its writes do not interleave with those of the server. Freeing of memory.
pub mod Base
pub mod Common
pub mod Core
pub mod Protocol
pub mod Net
pub mod Command
pub mod Persistence
pub mod Main
pub mod Tests
