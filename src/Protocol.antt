-- ===== src/Protocol.antt =====
-- The RESP2 wire protocol of src/protocol.
pub mod RespTypes
pub mod Encoder
pub mod Parser
