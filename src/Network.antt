-- ===== src/Network.antt =====
-- src/network: the connection layer.
pub mod Buffer
