-- ===== src/Giop/Decoder/Request/Received.antt =====
-- A server that receives a request of a client: the header of the message, and that of the request.
use corba_cc.Base.{
  ℕ, ◌+◌, ◌^◌, ◌≤◌, ◌<◌, ◌≡◌, refl, sym, ap, ◌∙◌, List, [], ◌++◌, append_assoc, arith, Option, some,
  Bool, length, length-append, Result, ok, ◌>>=◌, subst,
}
use corba_cc.Cdr.Bytes.{ByteOrder}
use corba_cc.Cdr.Encoder.{emit, poke, reserve}
use corba_cc.Cdr.Encoder.Append.{wire, length-wire, emit-IsAppend, wire-emit}
use corba_cc.Cdr.Decoder.{new_decoder}
use corba_cc.Cdr.Decoder.Cursor.{cursor}
use corba_cc.Cdr.Codec.{offset-Written}
use corba_cc.Giop.Enums.{MessageType, message_type, message_type_code}
use corba_cc.Giop.Types.{HostAndPort, Endpoints, RequestHeader}
use corba_cc.Giop.Encoder.{GiopEncoder, new_giop_encoder, set_giop_header, encode_request}
use corba_cc.Giop.Encoder.Header.{header_bytes, message-set_giop_header, length-header_bytes}
use corba_cc.Giop.Decoder.{GiopDecoder, new_giop_decoder, scan_giop_header, scan_request_header}
use corba_cc.Giop.Decoder.Header.{scan_giop_header-header}
use corba_cc.Giop.Decoder.Announce.{Announced}
use corba_cc.Giop.Decoder.Announce.Contexts.{IsShort}
use corba_cc.Giop.Decoder.Request.{behind_header, header, Encoded, encode_request-Encoded}

ok_injective : {A : Type 0} {x y : A} → ok x ≡ ok y → x ≡ y
ok_injective h = cc

-- The two scans of `ORB::socketRcvd`.
unfoldable pub receive_request :
    ByteOrder → Option HostAndPort → List ℕ → Result (RequestHeader × GiopDecoder)
receive_request there remote m =
    scan_giop_header there (new_giop_decoder (new_decoder m) remote) >>= scan_request_header there

-- The message that is sent: the request, the arguments that a stub has appended, and the header.
unfoldable pub request_message : ByteOrder → GiopEncoder → List ℕ → List ℕ
request_message host g args =
    (set_giop_header host MessageType.request
      (record g { buffer = emit args g.buffer })).buffer.buffer

-- What the server has: the header, and a decoder that stands before the arguments.
pub record Delivered (remote' : Option HostAndPort) (h : RequestHeader) (host : ByteOrder)
    (args : List ℕ) (r : Result (RequestHeader × GiopDecoder)) : Type 0 where
  pub decoder : GiopDecoder
  pub front : List ℕ
  pub result : r ≡ ok (h, decoder)
  pub remote_eq : decoder.remote ≡ remote'
  pub buffer_eq : decoder.buffer ≡ cursor (some host) front args

module _ (host there : ByteOrder) (key operation : List ℕ) (id : ℕ) (expected : Bool)
    (key_fits : length key < 2 ^ 32) (operation_fits : length operation + 1 < 2 ^ 32)
    (id_fits : id < 2 ^ 32) (c : Option Endpoints) (remote remote' : Option HostAndPort)
    (short : IsShort c) (announces : Announced c remote remote') where
  encoded :
      Encoded host there key operation id expected key_fits operation_fits id_fits remote remote'
        (encode_request host key operation id expected (new_giop_encoder c))
  encoded =
      encode_request-Encoded host there key operation id expected key_fits operation_fits id_fits c
        remote remote' short announces

  bytes : List ℕ
  bytes = encoded.read.bytes

  sent : GiopEncoder
  sent = encoded.after

  bytes_long : 4 ≤ length bytes
  unfolding bytes
  bytes_long = omega (arith, encoded.long, offset-Written (omega arith) encoded.read)

  module _ (args : List ℕ) (fits : sent.buffer.offset + length args < 2 ^ 32) where
    size : ℕ
    size = length (bytes ++ args)

    head : List ℕ
    head = header_bytes host 1 2 MessageType.request size

    laid : wire (emit args sent.buffer) ≡ wire behind_header ++ (bytes ++ args)
    unfolding sent bytes
    laid =
        wire-emit args sent.buffer encoded.read.appends
        ∙ ap (λ xs. xs ++ args) encoded.read.wire_eq
        ∙ append_assoc (wire behind_header) bytes args

    size_fits : size < 2 ^ 32
    unfolding size sent bytes
    size_fits = omega (arith, offset-Written (omega arith) encoded.read, length-append bytes args)

    message : request_message host sent args ≡ head ++ (bytes ++ args)
    unfolding request_message head size emit poke reserve
    message =
        let major : sent.major_version ≡ 1 = unfold sent in encoded.major in
        let minor : sent.minor_version ≡ 2 = unfold sent in encoded.minor in
        message-set_giop_header host MessageType.request
          (record sent { buffer = emit args sent.buffer }) (wire behind_header) (bytes ++ args)
          (unfold sent in emit-IsAppend args sent.buffer encoded.read.appends) laid
          (length-wire behind_header (omega arith)) (omega arith)
        ∙ ap
            (λ m.
              header_bytes host m sent.minor_version MessageType.request size ++ (bytes ++ args))
            major
        ∙ ap (λ m. header_bytes host 1 m MessageType.request size ++ (bytes ++ args)) minor

    fresh : GiopDecoder
    fresh = new_giop_decoder (new_decoder []) remote

    scanned : GiopDecoder
    scanned = record fresh {
      buffer = cursor (some host) head (bytes ++ args);
      major_version = 1;
      minor_version = 2;
      message_type = MessageType.request;
      message_length = size;
    }

    scan :
        scan_giop_header there (new_giop_decoder (new_decoder (head ++ (bytes ++ args))) remote)
        ≡ ok scanned
    unfolding scanned fresh head new_giop_decoder new_decoder message_type_code
    scan =
        scan_giop_header-header host there 1 2 size MessageType.request (bytes ++ args) fresh
          (omega arith) (omega arith) (omega arith) size_fits (unfold message_type in refl)
          (omega (arith, bytes_long, length-append bytes args))

    scan_request :
        scan_request_header there scanned
        ≡ ok (
          header host there key operation id expected key_fits operation_fits id_fits,
          record scanned { buffer = cursor (some host) (head ++ bytes) args; remote = remote' },
        )
    unfolding scan_request_header scanned head bytes fresh new_giop_decoder
    scan_request =
        rw
          (encoded.read.reads head args
            (unfold head in length-header_bytes host 1 2 MessageType.request size))
          refl

    sent-Delivered :
        Delivered remote'
          (header host there key operation id expected key_fits operation_fits id_fits)
          host
          args
          (receive_request there remote (request_message host sent args))
    unfolding receive_request
    sent-Delivered = record {
      decoder = record scanned {
        buffer = cursor (some host) (head ++ bytes) args;
        remote = remote';
      };
      front = head ++ bytes;
      result =
          ap
            (λ m.
              scan_giop_header there (new_giop_decoder (new_decoder m) remote)
              >>= scan_request_header there)
            message
          ∙ ap (λ r. r >>= scan_request_header there) scan
          ∙ scan_request;
      remote_eq = refl;
      buffer_eq = refl;
    }

  -- On machines of either byte order, a request of GIOP 1.2 that `encodeRequest` writes on a new
  -- encoder, with arguments behind it and the header that `setGIOPHeader` writes, reaches the
  -- server whole: `scanGIOPHeader` and `scanRequestHeader` give the same request id, response
  -- flag, object key and operation, the decoder stands before exactly the arguments, and the
  -- server knows the peer afterwards by the listen point that the client has announced if both
  -- its host and its port are other than those it knew, and as before in every other case. The
  -- object key is shorter than 2 ^ 32 octets and the operation shorter by one, the id fits 32
  -- bits, the client's listen point has a name shorter than 2 ^ 16 and a 16-bit port, the server
  -- knew an end point before, if the client announces one, and the message is shorter than 2 ^ 32
  -- octets.
  pub request-Delivered :
      (g : GiopEncoder) (args : List ℕ)
      → encode_request host key operation id expected (new_giop_encoder c) ≡ ok g
      → g.buffer.offset + length args < 2 ^ 32
      → Delivered remote'
          (record {
            request_id = id;
            response_expected = expected;
            object_key = key;
            operation = operation;
          })
          host
          args
          (receive_request there remote (request_message host g args))
  unfolding sent
  request-Delivered g args h fits =
      let same : encoded.after ≡ g = ok_injective (sym encoded.result ∙ h) in
      subst
        (λ x.
          x.buffer.offset + length args < 2 ^ 32
          → Delivered remote'
              (header host there key operation id expected key_fits operation_fits id_fits) host
              args (receive_request there remote (request_message host x args)))
        same (sent-Delivered args) fits
