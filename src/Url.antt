-- ===== src/Url.antt =====
-- url.hh: object addresses and the references that are made of them.
pub mod Lexer
pub mod Parser
pub mod Printer
use corba_cc.Base.{ℕ, List, [], codes}
use corba_cc.Giop.Decoder.{Ior}

pub record ObjectAddress : Type 0 where
  pub proto : List ℕ
  pub major : ℕ
  pub minor : ℕ
  pub host : List ℕ
  pub port : ℕ

abbrev pub iiop : List ℕ
iiop = codes "iiop"

abbrev pub rir : List ℕ
rir = codes "rir"

-- The member initialisers of `ObjectAddress`.
abbrev pub new_address : ObjectAddress
new_address = record { proto = iiop; major = 1; minor = 0; host = []; port = 2809 }

pub record CorbaLocation : Type 0 where
  pub addr : List ObjectAddress
  pub object_key : List ℕ

abbrev pub new_location : CorbaLocation
new_location = record { addr = []; object_key = [] }

pub record CorbaName : Type 0 where
  pub location : CorbaLocation
  pub name : List ℕ

abbrev pub new_name : CorbaName
new_name = record { location = record { addr = []; object_key = codes "NameService" }; name = [] }

-- `std::variant<IOR, CorbaLocation, CorbaName>`.
pub data Reference : Type 0 where
  ior : Ior → Reference
  corba_location : CorbaLocation → Reference
  corba_name : CorbaName → Reference
