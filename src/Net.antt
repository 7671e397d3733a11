-- ===== src/Net.antt =====
-- The network layer of src/net: the reactor, the connections, and the server over them.
pub mod Socket
pub mod Connection
pub mod EventLoop
pub mod TcpServer
