-- ===== src/System.antt =====
-- The client and the server together: NexFile/client/client.c and NexFile/server/clientHandle.c.
pub mod Get
pub mod Login
pub mod Mkdir
pub mod Session
pub mod Silent
