-- ===== src/DiskStore.antt =====
-- util/disk_store.hpp and util/disk_store.cpp: a dictionary on disk, one file for each value and one
-- for the index.
pub mod Disk
pub mod Store
mod Lookup
pub mod Holds
pub mod Refines
pub mod Removal
pub mod Reads
pub mod Client
mod Tests
