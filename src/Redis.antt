-- ===== src/Redis.antt =====
-- redis/: the pools of each cluster, by file or by naming service.
-- A variable that a closure captures is a cell: it is known by its position in `Vars`.
pub mod Types
pub mod Load
pub mod Conn
pub mod Dial
mod Tests
