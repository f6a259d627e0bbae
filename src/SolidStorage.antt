-- ===== src/SolidStorage.antt =====
-- The solid-storage crate: key-value storage, and the stores of resources.
mod Tests
pub mod Memory
pub mod ResourceStore
pub mod Expiring
pub mod KeyValue
pub mod JsonFile
