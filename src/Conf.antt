-- ===== src/Conf.antt =====
-- conf/: the configuration library.
pub mod Storage
pub mod Files
pub mod Watch
pub mod Toml
pub mod Settings
pub mod Ctype
pub mod Follow
pub mod Stop
pub mod Reload
mod Tests
