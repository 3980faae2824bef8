-- ===== src/Runs/Urls.antt =====
-- Runs of url.cc and ior.cc, and of the object references of giop.cc.
use corba_cc.Base.{
  ℕ, codes, List, [], ◌∷◌, ◌≡◌, ◌≢◌, refl, ok, err, arith, some, false, unfinished, bytes_eq, ap,
  ◌>>=◌,
}
use corba_cc.Cdr.Bytes.{little, big}
use corba_cc.Giop.Types.{Endpoints}
use corba_cc.Giop.Encoder.{GiopEncoder, write_reference}
use corba_cc.Giop.Decoder.Reference.Objects.{Referenced, referenced, write_reference-Referenced}
use corba_cc.Orb.Pool.{Fresh, Peer, Broker, get_connection, reuse_or_connect, find_by_remote}
use corba_cc.Orb.Resolving.{Resolution, asks, asked, ask_first, object_of, string_to_object}
use corba_cc.Orb.Resolving.Again.{string_to_object-again}
use corba_cc.Url.Lexer.{UrlLexer, is_digit, is_alnum, is_uri, strchr}
use corba_cc.Url.Printer.{location_str, name_str}
use corba_cc.Url.Printer.RoundTrip.{IsLocation, location, decode_uri-location_str}
use corba_cc.Url.Printer.Names.{decoded_name, decode_uri-name_str}
use corba_cc.Url.Parser.{is_label, corbaloc, read_ior, ior_of, decode_uri}
use corba_cc.Url.Parser.Hosts.{letters, dotted, single, labelled, in_brackets}
use corba_cc.Url.Parser.Addresses.{IsAddress, iiop_address, rir_address}
use corba_cc.Url.Parser.Keys.{IsPlain}
use corba_cc.Url.Parser.Ends.{Parses}
use corba_cc.Url.Parser.Rounds.{corbaloc-Parses}
use corba_cc.Url.Parser.Total.{decode_uri-ends}
use corba_cc.Url.Parser.Stringified.{Spells, nothing, octet, decimal, lower, upper, ior_of-Spells}
use corba_cc.Url.{
  ObjectAddress, CorbaLocation, CorbaName, iiop, rir, new_address, new_location, corba_location,
  corba_name,
}

abbrev named_address : ObjectAddress
named_address = record { proto = iiop; major = 1; minor = 2; host = codes "a-1.de"; port = 4040 }

abbrev numbered_address : ObjectAddress
numbered_address = record {
  proto = iiop;
  major = 1;
  minor = 0;
  host = codes "[1080::8]";
  port = 2809;
}

abbrev two_addresses : CorbaLocation
two_addresses = record {
  addr = named_address ∷ numbered_address ∷ record new_address { proto = rir } ∷ [];
  object_key = codes "P/T";
}

abbrev back_end : CorbaName
back_end = record { location = two_addresses; name = codes "B," }

named_address-IsAddress : IsAddress named_address
unfolding is_alnum is_digit is_label
named_address-IsAddress =
    iiop_address refl (omega arith) (omega arith)
      (labelled (
        dotted {s = codes "a-1"} {t = codes "de"} refl (letters refl (refl, (refl, tt)))
          (single (letters refl (refl, tt)))))
      (omega arith)

numbered_address-IsAddress : IsAddress numbered_address
numbered_address-IsAddress =
    iiop_address refl (omega arith) (omega arith) (in_brackets (codes "1080::8") refl (omega arith))
      (omega arith)

two_addresses-IsLocation : IsLocation two_addresses
unfolding is_uri is_alnum is_digit strchr
two_addresses-IsLocation =
    location refl named_address-IsAddress (numbered_address-IsAddress, (rir_address refl, tt))
      ((refl, omega arith), ((refl, omega arith), ((refl, omega arith), tt)))

decode_uri-location_str_example :
    decode_uri little (location_str two_addresses) ≡ ok (corba_location two_addresses)
decode_uri-location_str_example =
    decode_uri-location_str little two_addresses two_addresses-IsLocation

back_end-IsPlain : IsPlain back_end.name
unfolding is_uri is_alnum is_digit strchr
back_end-IsPlain = ((refl, omega arith), ((refl, omega arith), tt))

decode_uri-name_str_example :
    decode_uri big (name_str back_end) ≡ ok (corba_name (decoded_name back_end))
decode_uri-name_str_example =
    decode_uri-name_str big back_end two_addresses-IsLocation back_end-IsPlain refl

-- An ORB with a connection to the first address.
abbrev linked_peer : Peer
linked_peer = record {
  number = 0;
  protocol = 0;
  remote = record { host = codes "a-1.de"; port = 4040 };
}

abbrev linked : Broker
linked = record {
  protocols = (record { host = codes "me"; port = 2809 }) ∷ [];
  connections = linked_peer ∷ [];
  made = 1;
}

abbrev fresh : Fresh
fresh = record { uuid = []; place = 0 }

abbrev asked_peer : Resolution
asked_peer =
    asks linked_peer (decoded_name back_end).location.object_key (decoded_name back_end).name

string_to_object-linked :
    string_to_object big fresh (name_str back_end) linked ≡ ok (asked_peer, linked)
unfolding string_to_object object_of ask_first asked get_connection reuse_or_connect find_by_remote
    bytes_eq decoded_name
string_to_object-linked =
    ap (λ r. r >>= λ uri. object_of fresh uri linked)
      (decode_uri-name_str big back_end two_addresses-IsLocation back_end-IsPlain refl)

string_to_object-again_example :
    string_to_object big (record fresh { place = 1 }) (name_str back_end) linked
    ≡ ok (asked_peer, linked)
string_to_object-again_example =
    string_to_object-again big (name_str back_end) fresh (record fresh { place = 1 }) linked linked
      asked_peer string_to_object-linked

abbrev past_prefix : UrlLexer
past_prefix = record { data_ = codes "corbaloc::h:1,:/k"; pos = 9 }

corbaloc-Parses_example : Parses past_prefix (corbaloc new_location past_prefix)
corbaloc-Parses_example = corbaloc-Parses new_location past_prefix (omega arith)

decode_uri-ends_example : decode_uri little (codes "corbaloc::h:1,:/k") ≢ err unfinished
decode_uri-ends_example = decode_uri-ends little (codes "corbaloc::h:1,:/k")

abbrev octets : List ℕ
octets = 1 ∷ 0 ∷ 0xff ∷ []

-- In capital letters and in small ones.
octets-Spells : Spells octets (codes "0100fF")
octets-Spells =
    octet {high = 0} {low = 1} (decimal (omega arith) refl) (decimal (omega arith) refl) (
      octet {high = 0} {low = 0} (decimal (omega arith) refl) (decimal (omega arith) refl) (
        octet {high = 15} {low = 15} (lower (omega arith) (omega arith) refl)
          (upper (omega arith) (omega arith) refl) nothing))

ior_of-Spells_example : ior_of little (codes "IOR:0100fF") ≡ read_ior little octets
ior_of-Spells_example = ior_of-Spells little octets (codes "0100fF") octets-Spells

abbrev peers : Endpoints
peers = record {
  local = record { host = codes "a.de"; port = 2809 };
  remote = record { host = codes "b.de"; port = 4040 };
  did_send_bi_dir = false;
}

abbrev replying : GiopEncoder
replying = record {
  buffer = record { buffer = 7 ∷ 8 ∷ []; offset = 2; size_stack = [] };
  major_version = 1;
  minor_version = 2;
  connection = some peers;
}

write_reference-Referenced_example :
    Referenced big little
      (referenced little big (codes "IDL:A:1.0") (codes "k") false peers replying)
      replying
      (write_reference little (codes "IDL:A:1.0") (codes "k") false replying)
write_reference-Referenced_example =
    write_reference-Referenced little big (codes "IDL:A:1.0") (codes "k") false peers replying
      (omega arith) refl (omega arith) (omega arith) (omega arith) (omega arith) (omega arith)
      (omega arith)
