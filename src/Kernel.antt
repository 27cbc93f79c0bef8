-- ===== src/Kernel.antt =====
-- kernel/: the environment variables.
pub mod Env
