-- ===== src/Tests.antt =====
-- The theorems at concrete inputs.
mod Messages
mod Queues
mod Links
mod Runs
mod Servers
mod Packets
mod Commands
mod Chats
mod Lifetimes
mod Wires
mod Listeners
mod Selects
mod Programs
