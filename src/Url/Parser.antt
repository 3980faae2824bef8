-- ===== src/Url/Parser.antt =====
-- `UrlParser` of url.cc and the constructor of `IOR` of ior.cc. A method that gets an address or a
-- location to fill in returns it.
pub mod Hosts
pub mod Addresses
pub mod Lists
pub mod Keys
pub mod Ends
pub mod Rounds
pub mod Total
pub mod Stringified
use corba_cc.Base.{
  ℕ, zero, suc, ◌+◌, ◌-◌, ◌/◌, ◌%◌, List, [], ◌∷◌, ◌++◌, Bool, true, false, not, ◌&&◌, ◌||◌, Option,
  none, some, length, take, drop, reverse, ltb, ◌==◌, if◌then◌else◌, maybe, Result, ok, err, ◌>>=◌,
  bytes_eq, codes, missing_bracket, missing_port, expected_object_address, bad_uri, missing_prefix,
  wrong_length, unfinished, uninitialised,
}
use corba_cc.Cdr.Bytes.{ByteOrder}
use corba_cc.Cdr.Decoder.{new_decoder, read_endian, read_ulong}
use corba_cc.Giop.Decoder.{Ior, read_reference}
use corba_cc.Url.Lexer.{
  UrlLexer, remaining, advance, is_alnum, count_while, match, number, hex_value, uri,
}
use corba_cc.Url.{
  ObjectAddress, iiop, rir, new_address, CorbaLocation, new_location, CorbaName, new_name,
  Reference, ior, corba_location, corba_name,
}

-- `addr.major = major.value()` narrows to eight bits.
unfoldable pub version : ObjectAddress → UrlLexer → Result (ObjectAddress × UrlLexer)
version addr l = do
  (major, l1) ← number l
  maybe major (ok (addr, l)) λ m. maybe (match (codes ".") l1) (ok (addr, l)) λ l2. do
    (minor, l3) ← number l2
    maybe minor (ok (addr, l)) λ n.
        maybe (match (codes "@") l3) (ok (addr, l))
          λ l4. ok (record addr { major = m % 256; minor = n % 256 }, l4)

unfoldable pub is_label : ℕ → Bool
is_label c = is_alnum c || c == b'-'

unfoldable pub label_length : List ℕ → ℕ
label_length [] = 0
label_length (c ∷ cs) = if is_alnum c then suc (count_while is_label cs) else 0

unfoldable pub label : UrlLexer → UrlLexer
label l = advance (label_length (remaining l)) l

unfoldable pub labels : ℕ → UrlLexer → Result UrlLexer
labels zero l = err unfinished
labels (suc rounds) l = maybe (match (codes ".") (label l)) (ok (label l)) (labels rounds)

-- `find(c, start)`, counted from `start`.
unfoldable pub find : ℕ → List ℕ → Option ℕ
find c [] = none
find c (x ∷ xs) = if x == c then some 0 else maybe (find c xs) none (λ i. some (suc i))

unfoldable pub bracketed : ObjectAddress → UrlLexer → Result (ObjectAddress × UrlLexer)
bracketed addr l =
    maybe (find b']' (remaining l)) (err missing_bracket)
      λ end. ok (record addr { host = take (suc end) (remaining l) }, advance (suc end) l)

unfoldable pub named : ObjectAddress → UrlLexer → Result (ObjectAddress × UrlLexer)
named addr l = do
  end ← labels (suc (length (remaining l))) l
  if l.pos == end.pos
      then ok (addr, end)
      else ok (record addr { host = take (end.pos - l.pos) (remaining l) }, end)

unfoldable pub host : ObjectAddress → UrlLexer → Result (ObjectAddress × UrlLexer)
host addr l = maybe (match (codes "[") l) (named addr l) (λ l1. bracketed addr l)

-- `addr.port = port.value()` narrows to sixteen bits.
unfoldable pub port : ObjectAddress → UrlLexer → Result (Option ObjectAddress × UrlLexer)
port addr l = do
  (read, l1) ← number l
  ok (maybe read none (λ n. some (record addr { port = n % 65536 })), l1)

unfoldable pub iiop_addr : ObjectAddress → UrlLexer → Result (ObjectAddress × UrlLexer)
iiop_addr addr l = do
  (addr1, l1) ← version addr l
  (addr2, l2) ← host addr1 l1
  maybe (match (codes ":") l2) (ok (addr2, l2))
      λ l3. do (found, l4) ← port addr2 l3; maybe found (err missing_port) (λ addr3. ok (addr3, l4))

unfoldable pub iiop_id : UrlLexer → Option UrlLexer
iiop_id l = maybe (match (codes "iiop:") l) (match (codes ":") l) some

unfoldable pub iiop_prot_addr : ObjectAddress → UrlLexer → Result (Option ObjectAddress × UrlLexer)
iiop_prot_addr addr l =
    maybe (iiop_id l) (ok (none, l)) λ l1. do (addr1, l2) ← iiop_addr addr l1; ok (some addr1, l2)

unfoldable pub rir_prot_addr : ObjectAddress → UrlLexer → Option (ObjectAddress × UrlLexer)
rir_prot_addr addr l =
    maybe (match (codes "rir:") l) none (λ l1. some (record addr { proto = rir }, l1))

unfoldable pub prot_addr : ObjectAddress → UrlLexer → Result (Option ObjectAddress × UrlLexer)
prot_addr addr l =
    maybe (rir_prot_addr addr l) (iiop_prot_addr addr l) (λ found. ok (some (found.0), found.1))

unfoldable pub obj_addr : ObjectAddress → UrlLexer → Result (Option ObjectAddress × UrlLexer)
obj_addr = prot_addr

unfoldable pub obj_addr_list :
    ℕ → List ObjectAddress → UrlLexer → Result (List ObjectAddress × UrlLexer)
obj_addr_list zero list l = err unfinished
obj_addr_list (suc rounds) list l = do
  (found, l1) ← obj_addr new_address l
  maybe found (err expected_object_address) λ addr.
      maybe (match (codes ",") l1) (ok (list ++ (addr ∷ []), l1))
        (obj_addr_list rounds (list ++ (addr ∷ [])))

unfoldable pub key_string : UrlLexer → Result (List ℕ × UrlLexer)
key_string l = do (found, l1) ← uri l; ok (maybe found [] (λ key. key), l1)

unfoldable pub corbaloc : CorbaLocation → UrlLexer → Result (CorbaLocation × UrlLexer)
corbaloc loc l = do
  (addr, l1) ← obj_addr_list (suc (length (remaining l))) loc.addr l
  maybe (match (codes "/") l1) (ok (record loc { addr = addr }, l1))
      λ l2. do (key, l3) ← key_string l2; ok (record loc { addr = addr; object_key = key }, l3)

unfoldable pub corbaname : CorbaName → UrlLexer → Result (CorbaName × UrlLexer)
corbaname name l = do
  (location, l1) ← corbaloc name.location l
  maybe (match (codes "#") l1) (ok (record name { location = location }, l1)) λ l2. do
    (found, l3) ← uri l2
    ok (record { location = location; name = maybe found name.name (λ text. text) }, l3)

abbrev is_blank : ℕ → Bool
is_blank c = c == b' ' || c == b'\n' || c == b'\r' || c == b'\t'

unfoldable pub trim_front : List ℕ → List ℕ
trim_front [] = []
trim_front (c ∷ cs) = if is_blank c then trim_front cs else c ∷ cs

unfoldable pub trim : List ℕ → List ℕ
trim s = reverse (trim_front (reverse (trim_front s)))

-- `std::from_chars` at base 16 on two characters; `out` stays unset where there is no digit.
unfoldable pub decode_hex : List ℕ → Result (List ℕ)
decode_hex [] = ok []
decode_hex (a ∷ []) = err wrong_length
decode_hex (a ∷ b ∷ rest) = do
  octet ← maybe (hex_value none (a ∷ b ∷ [])) (err uninitialised) ok
  octets ← decode_hex rest
  ok (octet ∷ octets)

unfoldable pub read_ior : ByteOrder → List ℕ → Result Ior
read_ior there buffer = do
  (done, d) ← read_endian (new_decoder buffer)
  (length, d1) ← read_ulong there d
  (ref, d2) ← read_reference there length d1
  ok ref

-- `IOR(const string &)`.
unfoldable pub ior_of : ByteOrder → List ℕ → Result Ior
ior_of there text =
    let s = trim text in
    if not (bytes_eq (take 4 s) (codes "IOR:"))
    then err missing_prefix
    else if length s % 2 == 1
    then err wrong_length
    else (do buffer ← decode_hex (drop 4 s); read_ior there buffer)

unfoldable pub parse : ByteOrder → UrlLexer → Result Reference
parse there l =
    maybe (match (codes "IOR:") l)
      (maybe (match (codes "corbaloc:") l)
        (maybe (match (codes "corbaname:") l) (err bad_uri)
          λ l1. do (name, l2) ← corbaname new_name l1; ok (corba_name name))
        λ l1. do (loc, l2) ← corbaloc new_location l1; ok (corba_location loc))
      λ l1. do i ← ior_of there l.data_; ok (ior i)

-- `CORBA::decodeURI`.
unfoldable pub decode_uri : ByteOrder → List ℕ → Result Reference
decode_uri there text = parse there (record { data_ = text; pos = 0 })
