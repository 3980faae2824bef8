-- ===== src/Runs.antt =====
-- Runs of the program on concrete inputs, at which the theorems with hypotheses apply.
pub mod Octets
pub mod Packets
pub mod Connections
pub mod Calls
pub mod Urls
pub mod Sockets
