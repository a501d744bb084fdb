-- ===== src/Addr.antt =====
-- Network addresses: `any_addr`, with its order and its hash.
pub mod Defs
pub mod Order
