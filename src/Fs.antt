-- ===== src/Fs.antt =====
-- fs/: the buffer cache under the FAT driver, and pipes.
pub mod Bcache
pub mod Pipe
pub mod Ramfs
pub mod Vfs
