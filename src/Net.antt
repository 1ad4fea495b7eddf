-- ===== src/Net.antt =====
-- kernel/net.c, include/net.h: the network stack. `memcopy`, `memzero`, `put16`, `put32`, `get16` and
-- `checksum16` of that file are word for word those of kernel/dhcp.c, and so are the definitions here.
-- A C string is the list of its characters up to the NUL, and a pointer that walks over one is the
-- suffix that is left.
pub mod Text
pub mod Chunked
pub mod Url
pub mod State
pub mod Stack
pub mod Client
pub mod Session
pub mod Delivery
pub mod Http
