-- ===== src/Client.antt =====
-- The client, NexFile/client.
pub mod CmdOpt
pub mod Status
pub mod Transfer
pub mod Train
pub mod Signal
pub mod Login
pub mod Config
pub mod FileOpt
pub mod Main
