-- ===== src/Rpc.antt =====
-- rpc/: the message frames and the calls over a connection.
pub mod Codec
pub mod Channel
pub mod Delivery
