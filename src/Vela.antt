-- ===== src/Vela.antt =====
-- kernel/vela.c: addresses and the history of the browser shell.
pub mod History
pub mod Zipper
