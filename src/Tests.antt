-- ===== src/Tests.antt =====
-- The theorems of the other modules at concrete inputs.
mod Arriving
mod Concrete
mod Wire
mod Handles
mod Stored
mod Peers
mod Managed
mod Sending
mod Streams
mod Mesh
mod Shells
mod Network
mod Answers
