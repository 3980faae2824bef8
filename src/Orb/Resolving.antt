-- ===== src/Orb/Resolving.antt =====
-- `ORB::stringToObject` of orb.cc, up to the call of the name service.
pub mod Again
use corba_cc.Base.{
  ℕ, List, [], ◌∷◌, Result, ok, err, ◌>>=◌, if◌then◌else◌, bytes_eq, overrun, no_object,
}
use corba_cc.Cdr.Bytes.{ByteOrder}
use corba_cc.Giop.Decoder.{Ior}
use corba_cc.Url.{ObjectAddress, CorbaName, Reference, ior, corba_location, corba_name, iiop}
use corba_cc.Url.Parser.{decode_uri}
use corba_cc.Orb.Pool.{Peer, Broker, Fresh, get_connection}

-- An object reference, or a call of `resolve_str`: the connection, the object key of the stub, and the
-- name.
pub data Resolution : Type 0 where
  reference : Ior → Resolution
  asks : Peer → List ℕ → List ℕ → Resolution

unfoldable pub asked : CorbaName → Result (Peer × Broker) → Result (Resolution × Broker)
asked n connected = do (c, b) ← connected; ok (asks c n.location.object_key n.name, b)

-- `addr[0]` is not checked.
unfoldable pub ask_first :
    Fresh → CorbaName → List ObjectAddress → Broker → Result (Resolution × Broker)
ask_first fresh n [] b = err overrun
ask_first fresh n (addr ∷ rest) b =
    if bytes_eq addr.proto iiop
    then asked n (get_connection addr.host addr.port fresh b)
    else err no_object

unfoldable pub object_of : Fresh → Reference → Broker → Result (Resolution × Broker)
object_of fresh (ior i) b = ok (reference i, b)
object_of fresh (corba_name n) b = ask_first fresh n n.location.addr b
object_of fresh (corba_location l) b = err no_object

unfoldable pub string_to_object : ByteOrder → Fresh → List ℕ → Broker → Result (Resolution × Broker)
string_to_object there fresh text b = do uri ← decode_uri there text; object_of fresh uri b
