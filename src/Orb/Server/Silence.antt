-- ===== src/Orb/Server/Silence.antt =====
-- `ORB::socketRcvd` of orb.cc on requests that expect no response.
use corba_cc.Base.{
  ℕ, ◌<◌, ◌≡◌, refl, List, false, Option, none, some, ◌==◌, arith, bytes_eq, codes, length, ok,
  ◌>>=◌, ap, ◌∙◌,
}
use corba_cc.Cdr.Bytes.{ByteOrder}
use corba_cc.Cdr.Decoder.{new_decoder}
use corba_cc.Giop.Enums.{MessageType}
use corba_cc.Giop.Types.{Endpoints, RequestHeader}
use corba_cc.Giop.Decoder.{GiopDecoder, new_giop_decoder, scan_giop_header, scan_request_header}
use corba_cc.Orb.Table.{find}
use corba_cc.Orb.Server.{
  Servant, Dispatched, completes, throws_user, throws_system, throws_std, throws_other, silent,
  answer_if, object_not_exist, finish_call, serve, react, socket_rcvd,
}

finish_call-silent :
    (host : ByteOrder) (request : RequestHeader) (r : Dispatched)
    → request.response_expected ≡ false
    → finish_call host request r ≡ silent
unfolding finish_call answer_if
finish_call-silent host request (completes g) h = rw h refl
finish_call-silent host request (throws_user g) h = rw h refl
finish_call-silent host request (throws_system ex minor c g) h = rw h refl
finish_call-silent host request (throws_std text g) h = rw h refl
finish_call-silent host request throws_other h = refl

serve-silent :
    (host : ByteOrder) (c : Endpoints) (request : RequestHeader) (d : GiopDecoder)
    (found : Option Servant)
    → request.response_expected ≡ false
    → bytes_eq request.operation (codes "_is_a") ≡ false
    → serve host c request d found ≡ ok silent
unfolding serve object_not_exist answer_if
serve-silent host c request d none h other = rw h refl
serve-silent host c request d (some servant) h other =
    rw other (ap ok (finish_call-silent host request _ h))

-- A request that expects no response gets none, whether a servant has its object key or not and
-- however the servant ends the call. The packet is not empty, its headers can be scanned, and the
-- operation is not `_is_a`.
pub socket_rcvd-silent :
    (host : ByteOrder) (servants : List (List ℕ × Servant)) (c : Endpoints) (packet : List ℕ)
    (d d1 : GiopDecoder) (request : RequestHeader)
    → 0 < length packet
    → scan_giop_header host (new_giop_decoder (new_decoder packet) (some c.remote)) ≡ ok d
    → d.message_type ≡ MessageType.request
    → scan_request_header host d ≡ ok (request, d1)
    → request.response_expected ≡ false
    → bytes_eq request.operation (codes "_is_a") ≡ false
    → socket_rcvd host servants c packet ≡ ok silent
unfolding socket_rcvd react
socket_rcvd-silent host servants c packet d d1 request long scanned type header oneway other =
    let some_octets : (length packet == 0) ≡ false = ground arith in
    rw (some_octets, scanned)
      (ap (λ t. react host servants c t d) type
        ∙ ap (λ r. r >>= λ x. serve host c x.0 x.1 (find x.0.object_key servants)) header
        ∙ serve-silent host c request d1 (find request.object_key servants) oneway other)
