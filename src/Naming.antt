-- ===== src/Naming.antt =====
-- naming/: service registration and discovery over etcd.
pub mod Types
pub mod Key
pub mod Builder
pub mod Register
pub mod Build
pub mod Follow
mod Tests
