-- ===== src/Examples.antt =====
-- The theorems at concrete inputs, by the part of the program.
mod Sequences
mod Schedules
mod Threads
mod Mappings
mod Conversions
mod Nodes
mod Channels
mod Interfaces
mod Servers
mod Groups
mod Aborts
mod Requests
