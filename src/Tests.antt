-- ===== src/Tests.antt =====
-- Runs of the modelled code on concrete inputs, one module for each part of the program.
pub mod Sockets
pub mod Routes
pub mod Buses
pub mod Pages
pub mod Replies
pub mod Accesses
pub mod Fields
pub mod Topics
pub mod Workers
pub mod Templates
pub mod Pools
pub mod Escapes
pub mod Clauses
pub mod Logs
pub mod Databases
pub mod Sessions
pub mod Actions
pub mod Forms
pub mod Transfers
