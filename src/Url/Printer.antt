-- ===== src/Url/Printer.antt =====
-- `CorbaLocation::str` and `CorbaName::str` of url.cc. `std::format` prints an integer in decimal.
pub mod Digits
pub mod RoundTrip
pub mod Names
use corba_cc.Base.{
  ℕ, zero, suc, ◌+◌, ◌-◌, ◌/◌, ◌%◌, List, [], ◌∷◌, ◌++◌, Bool, true, false, not, ltb, ◌==◌,
  if◌then◌else◌, bytes_eq, codes, length,
}
use corba_cc.Url.{ObjectAddress, iiop, rir, CorbaLocation, CorbaName}

-- The last `rounds` decimal digits of a number, without leading zeros.
unfoldable pub digits : ℕ → ℕ → List ℕ
digits zero n = []
digits (suc rounds) n =
    let last = (b'0' + n % 10) ∷ [] in if ltb n 10 then last else digits rounds (n / 10) ++ last

-- Ten digits hold every number of 32 bits.
unfoldable pub decimal : ℕ → List ℕ
decimal = digits 10

-- `format("{}:{}.{}@{}:{}", …)`
unfoldable pub iiop_text : ObjectAddress → List ℕ
iiop_text a =
    a.proto
    ++ (b':'
        ∷ (decimal a.major
            ++ (b'.' ∷ (decimal a.minor ++ (b'@' ∷ (a.host ++ (b':' ∷ decimal a.port)))))))

unfoldable pub address_text : ObjectAddress → List ℕ
address_text a =
    if bytes_eq a.proto iiop then iiop_text a else if bytes_eq a.proto rir then codes "rir:" else []

unfoldable pub separator : List ℕ → List ℕ
separator [] = []
separator (c ∷ cs) = codes ","

unfoldable pub addresses_text : List ℕ → List ObjectAddress → List ℕ
addresses_text txt [] = txt
addresses_text txt (a ∷ rest) = addresses_text (txt ++ (separator txt ++ address_text a)) rest

-- A text behind its mark, or nothing if it is empty.
unfoldable pub marked : ℕ → List ℕ → List ℕ
marked mark [] = []
marked mark (c ∷ cs) = mark ∷ c ∷ cs

-- `CorbaLocation::_str`.
unfoldable pub location_text : CorbaLocation → List ℕ
location_text loc = addresses_text [] loc.addr ++ marked b'/' loc.object_key

unfoldable pub location_str : CorbaLocation → List ℕ
location_str loc = codes "corbaloc:" ++ location_text loc

unfoldable pub name_str : CorbaName → List ℕ
name_str n = (codes "corbaname:" ++ location_text n.location) ++ marked b'#' n.name
