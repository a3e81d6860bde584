-- ===== src/Storage.antt =====
-- `AbsStorageAdapter` and its implementations, of path-oram/src/storage-adapter.cpp.
pub mod Config
pub mod Padding
pub mod Codec
pub mod Seal
pub mod Raw
pub mod Adapter
pub mod InMemory
pub mod FileSystem
pub mod Redis
pub mod Observers
pub mod Aerospike
