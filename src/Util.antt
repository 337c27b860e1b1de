-- ===== src/Util.antt =====
-- util/: byte sizes as text.
pub mod Bytes
