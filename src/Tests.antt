-- ===== src/Tests.antt =====
-- Tests of the model on concrete inputs, and the theorems at inputs that meet their hypotheses.
mod Commands
mod Configuration
mod Login
mod Replies
mod Paths
mod Pool
mod Queue
mod Session
mod Setup
mod Together
mod Whole
mod Start
mod Workers
mod Silent
mod Race
mod Sockets
