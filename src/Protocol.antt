-- ===== src/Protocol.antt =====
-- src/protocol: the Redis serialisation protocol.
pub mod Resp
