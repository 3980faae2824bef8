-- ===== src/Net.antt =====
-- src/corba/net: how packets travel.
pub mod Stream
pub mod Tcp
pub mod Ws
