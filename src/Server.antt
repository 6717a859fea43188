-- ===== src/Server.antt =====
-- The server, NexFile/server.
pub mod Config
pub mod FileHandle
pub mod FilePath
pub mod TaskQueue
pub mod ThreadPool
pub mod Transfer
pub mod Signal
pub mod Train
pub mod Start
pub mod State
pub mod Auth
pub mod Files
pub mod Command
pub mod Session
pub mod UserStatus
pub mod Workers
