-- ===== src/Orb.antt =====
-- src/corba/orb.cc and what it works with.
pub mod Exceptions
pub mod Server
pub mod Table
pub mod Naming
pub mod Pool
pub mod Servants
pub mod Binding
pub mod Client
pub mod Resolving
