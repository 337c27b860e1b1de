-- ===== src/Mysql.antt =====
-- mysql/: the pools of database handles, from a file or from the naming service.
pub mod Types
pub mod Load
pub mod Conn
pub mod Query
mod Tests
