-- ===== src/Clib.antt =====
-- The C library, as far as the program uses it.
pub mod Bytes
pub mod Stdio
