-- ===== src/Tls.antt =====
-- kernel/tls.c: the parts around the TLS library, which is not in the repository: the clock that it
-- checks certificates against, and the end of an HTTP message.
pub mod Clock
