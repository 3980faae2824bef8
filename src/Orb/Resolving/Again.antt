-- ===== src/Orb/Resolving/Again.antt =====
-- Repeated calls of `ORB::stringToObject`.
use corba_cc.Base.{
  ℕ, List, [], ◌∷◌, ◌≡◌, ap, ◌∙◌, subst, ok, err, bind-eq-ok, if◌then◌else◌, bytes_eq, Bool, true,
  false, no_object,
}
use corba_cc.Cdr.Bytes.{ByteOrder}
use corba_cc.Url.{ObjectAddress, CorbaName, Reference, ior, corba_location, corba_name, iiop}
use corba_cc.Url.Parser.{decode_uri}
use corba_cc.Orb.Pool.{Broker, Fresh, get_connection}
use corba_cc.Orb.Pool.Reuse.{get_connection-again}
use corba_cc.Orb.Resolving.{Resolution, asked, ask_first, object_of, string_to_object}

second : {A : Type 0} {x y : A × Broker} → ok x ≡ ok y → x.1 ≡ y.1
second h = cc

asked-again :
    (host : List ℕ) (port : ℕ) (fresh fresh' : Fresh) (n : CorbaName) (b b' : Broker)
    (r : Resolution)
    → asked n (get_connection host port fresh b) ≡ ok (r, b')
    → asked n (get_connection host port fresh' b') ≡ ok (r, b')
unfolding asked
asked-again host port fresh fresh' n b b' r h =
    let ((c, b1), got, same) = bind-eq-ok (get_connection host port fresh b) _ (r, b') h in
    let again = get_connection-again host port fresh fresh' b b1 c got in
    subst (λ x. asked n (get_connection host port fresh' x) ≡ ok (r, b')) (second same)
      (ap (asked n) again ∙ same)

chosen-again :
    (is_iiop : Bool) (addr : ObjectAddress) (fresh fresh' : Fresh) (n : CorbaName) (b b' : Broker)
    (r : Resolution)
    → (if is_iiop then asked n (get_connection addr.host addr.port fresh b) else err no_object)
      ≡ ok (r, b')
    → (if is_iiop then asked n (get_connection addr.host addr.port fresh' b') else err no_object)
      ≡ ok (r, b')
chosen-again true addr fresh fresh' n b b' r h =
    asked-again addr.host addr.port fresh fresh' n b b' r h
chosen-again false addr fresh fresh' n b b' r h = cc

ask_first-again :
    (fresh fresh' : Fresh) (n : CorbaName) (addrs : List ObjectAddress) (b b' : Broker)
    (r : Resolution)
    → ask_first fresh n addrs b ≡ ok (r, b')
    → ask_first fresh' n addrs b' ≡ ok (r, b')
unfolding ask_first
ask_first-again fresh fresh' n [] b b' r h = cc
ask_first-again fresh fresh' n (addr ∷ rest) b b' r h =
    chosen-again (bytes_eq addr.proto iiop) addr fresh fresh' n b b' r h

object_of-again :
    (fresh fresh' : Fresh) (uri : Reference) (b b' : Broker) (r : Resolution)
    → object_of fresh uri b ≡ ok (r, b')
    → object_of fresh' uri b' ≡ ok (r, b')
unfolding object_of
object_of-again fresh fresh' (ior i) b b' r h = cc
object_of-again fresh fresh' (corba_name n) b b' r h =
    ask_first-again fresh fresh' n n.location.addr b b' r h
object_of-again fresh fresh' (corba_location l) b b' r h = cc

-- When `stringToObject` has given an object reference, or a connection to ask the name service
-- on, a further call for the same text gives the same and changes nothing.
pub string_to_object-again :
    (there : ByteOrder) (text : List ℕ) (fresh fresh' : Fresh) (b b' : Broker) (r : Resolution)
    → string_to_object there fresh text b ≡ ok (r, b')
    → string_to_object there fresh' text b' ≡ ok (r, b')
unfolding string_to_object
string_to_object-again there text fresh fresh' b b' r h =
    let (uri, decoded, found) = bind-eq-ok (decode_uri there text) _ (r, b') h in
    rw decoded (object_of-again fresh fresh' uri b b' r found)
