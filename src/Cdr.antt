-- ===== src/Cdr.antt =====
-- src/corba/cdr.cc and cdr.hh: the Common Data Representation, its encoder and its decoder.
pub mod Bytes
pub mod Encoder
pub mod Decoder
pub mod Codec
pub mod RoundTrip
pub mod Signed
