-- ===== src/Jsonrpc.antt =====
-- modules/jsonrpc: how JSON texts are put on a stream of bytes.
pub mod HeaderStream
