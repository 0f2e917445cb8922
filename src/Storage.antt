-- ===== src/Storage.antt =====
-- crates/otdel-storage: object keys and the filesystem object store.
pub mod StorageError
pub mod Uuid
pub mod Key
pub mod Disk
pub mod Fs
