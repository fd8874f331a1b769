-- ===== src/Proxy.antt =====
-- proxylab/proxy.c: the buffer of connections between the threads, and the cache of objects.
pub mod Buffer
pub mod Store
pub mod Locks
pub mod Request
pub mod Doit
mod Tests
