-- ===== src/Giop.antt =====
-- src/corba/giop.cc and giop.hh: the General Inter-ORB Protocol.
pub mod Enums
pub mod Types
pub mod Encoder
pub mod Decoder
