-- ===== src/Instance.antt =====
-- pkg/controller/resource.go: the operations on one RDS instance.
pub mod Footprint
pub mod Lookup
pub mod Provider
pub mod Status
pub mod Create
pub mod Delete
pub mod Update
pub mod Dropped
pub mod Defaults
