-- ===== src/Base.antt =====
-- modules/base: the object cabinet.
pub mod Cabinet
