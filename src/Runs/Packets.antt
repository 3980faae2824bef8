-- ===== src/Runs/Packets.antt =====
-- Runs of giop.cc, and of the calls of orb.cc.
use corba_cc.Cdr.Encoder.Append.{wire}
use corba_cc.Base.{
  ℕ, ◌≡◌, refl, List, [], ◌∷◌, ◌++◌, arith, Option, some, none, true, false, ok, Error, ap,
}
use corba_cc.Cdr.Bytes.{little, big, le_bytes, store}
use corba_cc.Cdr.Encoder
use corba_cc.Cdr.Encoder.{
  Encoder, fill_in_size, write_ushort, write_word, emit, poke, reserve, align_to, endian_flag,
  new_encoder, overwrite, reserve_size, resize, write_blob, write_endian, write_octet, write_string,
  write_ulong,
}
use corba_cc.Cdr.Decoder.{new_decoder}
use corba_cc.Cdr.Decoder.Cursor.{cursor}
use corba_cc.Giop.Enums.{
  MessageType, message_type, message_type_code, addressing_disposition_code, service_id_code,
}
use corba_cc.Giop.Types.{HostAndPort, Endpoints}
use corba_cc.Giop.Encoder.{
  GiopEncoder, new_giop_encoder, set_giop_header, write_contexts, encode_request, write_context_if,
  write_request_tail, write_service_context, write_encapsulation, fill_in, write_listen_point,
  response_flags, rewrite_ulong, skip_giop_header, skip_reserved, write_request_key,
}
use corba_cc.Orb.Client.{Channel, Sending, taken, suspend, request, oneway_call, twoway_call}
use corba_cc.Orb.Client.Called.{call, called, append_args, call-Delivered}
use corba_cc.Orb.Client.Distinct.{Calls, next, done, IsDistinct, Calls-IsDistinct}
use corba_cc.Giop.Encoder.Header.{header_bytes, message-set_giop_header}
use corba_cc.Giop.Decoder.{GiopDecoder, new_giop_decoder, scan_giop_header}
use corba_cc.Giop.Decoder.Header.{scan_giop_header-header}
use corba_cc.Giop.Decoder.Scan.{Scanned, scan_giop_header-Scanned}
use corba_cc.Giop.Decoder.Announce.{Announced, moves}
use corba_cc.Giop.Decoder.Announce.Contexts.{Announces, write_contexts-Announces}
use corba_cc.Giop.Decoder.Request.{Encoded, encode_request-Encoded}
use corba_cc.Giop.Decoder.Request.Received.{
  Delivered, receive_request, request_message, request-Delivered,
}

-- The client listens on "me", and the server knows it by a temporary end point.
abbrev connection : Endpoints
connection = record {
  local = record { host = b'm' ∷ b'e' ∷ []; port = 2809 };
  remote = record { host = b'o' ∷ b'k' ∷ []; port = 2810 };
  did_send_bi_dir = false;
}

abbrev known : Option HostAndPort
known = some (record { host = b'?' ∷ []; port = 40000 })

abbrev switched : Option HostAndPort
switched = some (record { host = b'm' ∷ b'e' ∷ []; port = 2809 })

first_octet : List ℕ → ℕ
first_octet [] = 0
first_octet (b ∷ bs) = b

connection-Announced : Announced (some connection) known switched
unfolding first_octet
connection-Announced =
    moves connection (record { host = b'?' ∷ []; port = 40000 }) refl
      (λ e. let first : b'm' ≡ b'?' = ap first_octet e in absurd (omega (arith, first)))
      (λ e. absurd (omega (arith, e)))

abbrev key : List ℕ
key = 1 ∷ 2 ∷ 3 ∷ []

abbrev ping : List ℕ
ping = b'p' ∷ b'i' ∷ b'n' ∷ b'g' ∷ []

encode_request-Encoded_example :
    Encoded big little key ping 7 true
      (omega arith)
      (omega arith)
      (omega arith)
      known
      switched
      (encode_request big key ping 7 true (new_giop_encoder (some connection)))
encode_request-Encoded_example =
    encode_request-Encoded big little key ping 7 true (omega arith) (omega arith) (omega arith)
      (some connection) known switched (omega arith, omega arith) connection-Announced

abbrev behind : GiopEncoder
behind = record {
  buffer = record { buffer = 7 ∷ 7 ∷ 7 ∷ 7 ∷ []; offset = 4; size_stack = [] };
  major_version = 1;
  minor_version = 2;
  connection = some connection;
}

write_contexts-Announces_example :
    Announces little big known switched behind (write_contexts little (some connection) behind)
write_contexts-Announces_example =
    write_contexts-Announces little big known switched behind (omega arith) (some connection)
      (omega arith, omega arith) connection-Announced

-- Twelve octets of room for the header, and four of a body.
abbrev unnamed : GiopEncoder
unnamed = record behind {
  buffer = record {
    buffer = 0 ∷ 0 ∷ 0 ∷ 0 ∷ 0 ∷ 0 ∷ 0 ∷ 0 ∷ 0 ∷ 0 ∷ 0 ∷ 0 ∷ 5 ∷ 6 ∷ 7 ∷ 8 ∷ [];
    offset = 16;
    size_stack = [];
  };
}

abbrev body : List ℕ
body = 5 ∷ 6 ∷ 7 ∷ 8 ∷ []

message-set_giop_header_example :
    (set_giop_header big MessageType.reply unnamed).buffer.buffer
    ≡ header_bytes big 1 2 MessageType.reply 4 ++ body
unfolding wire
message-set_giop_header_example =
    message-set_giop_header big MessageType.reply unnamed
      (0 ∷ 0 ∷ 0 ∷ 0 ∷ 0 ∷ 0 ∷ 0 ∷ 0 ∷ 0 ∷ 0 ∷ 0 ∷ 0 ∷ []) body (omega arith) refl refl
      (omega arith)

abbrev blank : GiopDecoder
blank = new_giop_decoder (new_decoder []) none

scan_giop_header-header_example :
    scan_giop_header little
      (record blank { buffer = cursor none [] (header_bytes big 1 2 MessageType.reply 4 ++ body) })
    ≡ ok (record blank {
      buffer = cursor (some big) (header_bytes big 1 2 MessageType.reply 4) body;
      major_version = 1;
      minor_version = 2;
      message_type = MessageType.reply;
      message_length = 4;
    })
unfolding message_type message_type_code
scan_giop_header-header_example =
    scan_giop_header-header big little 1 2 4 MessageType.reply body blank (omega arith)
      (omega arith) (omega arith) (omega arith) refl (omega arith)

-- Octets of an HTTP request.
abbrev foreign : GiopDecoder
foreign = record blank { buffer = new_decoder (b'G' ∷ b'E' ∷ b'T' ∷ b' ' ∷ b'/' ∷ []) }

scan_giop_header-Scanned_example : Scanned foreign (scan_giop_header little foreign)
scan_giop_header-Scanned_example = scan_giop_header-Scanned little foreign

-- The request as it stands in the buffer before the header of the message is set.
abbrev encoded_ping : GiopEncoder
encoded_ping = record {
  buffer = record {
    buffer =
        0 ∷ 0 ∷ 0 ∷ 0 ∷ 0 ∷ 0 ∷ 0 ∷ 0 ∷ 0 ∷ 0 ∷ 0 ∷ 0 ∷ 0 ∷ 0 ∷ 0 ∷ 7 ∷ 3 ∷ 0 ∷ 0 ∷ 0 ∷ 0 ∷ 0 ∷ 0
        ∷ 0 ∷ 0 ∷ 0 ∷ 0 ∷ 3 ∷ 1 ∷ 2 ∷ 3 ∷ 0 ∷ 0 ∷ 0 ∷ 0 ∷ 5 ∷ 112 ∷ 105 ∷ 110 ∷ 103 ∷ 0 ∷ 0 ∷ 0 ∷ 0
        ∷ 0 ∷ 0 ∷ 0 ∷ 1 ∷ 0 ∷ 0 ∷ 0 ∷ 5 ∷ 0 ∷ 0 ∷ 0 ∷ 18 ∷ 0 ∷ 0 ∷ 0 ∷ 0 ∷ 0 ∷ 0 ∷ 0 ∷ 1 ∷ 0 ∷ 0 ∷ 0
        ∷ 3 ∷ 109 ∷ 101 ∷ 0 ∷ 0 ∷ 10 ∷ 249 ∷ [];
    offset = 80;
    size_stack = [];
  };
  major_version = 1;
  minor_version = 2;
  connection = some (record connection { did_send_bi_dir = true });
}

encode_request-ping :
    encode_request big key ping 7 true (new_giop_encoder (some connection)) ≡ ok encoded_ping
unfolding encode_request new_giop_encoder write_context_if write_request_tail write_service_context
    write_contexts write_encapsulation fill_in fill_in_size Encoder.fill_in write_listen_point
    write_ushort write_word emit poke reserve Encoder.align le_bytes store align_to endian_flag
    new_encoder overwrite reserve_size resize write_blob write_endian write_octet write_string
    write_ulong response_flags rewrite_ulong skip_giop_header skip_reserved write_request_key
    addressing_disposition_code service_id_code
encode_request-ping = refl

request-Delivered_example :
    Delivered switched
      (record { request_id = 7; response_expected = true; object_key = key; operation = ping })
      big
      (8 ∷ 9 ∷ [])
      (receive_request little known (request_message big encoded_ping (8 ∷ 9 ∷ [])))
request-Delivered_example =
    request-Delivered big little key ping 7 true (omega arith) (omega arith) (omega arith)
      (some connection) known switched (omega arith, omega arith) connection-Announced encoded_ping
      (8 ∷ 9 ∷ []) encode_request-ping (omega arith)

-- A transport that keeps the packets.
abbrev keep : List ℕ → List (List ℕ) → Sending (List (List ℕ))
keep packet packets = taken (packets ++ (packet ∷ []))

abbrev channel : Channel (List (List ℕ))
channel = record { request_id = 7; ends = connection; waiting = 5 ∷ []; transport = [] }

abbrev ping_packet : List ℕ
ping_packet = request_message big encoded_ping (8 ∷ 9 ∷ [])

call-Delivered_example :
    (call big keep none true key (some channel) ping (append_args (8 ∷ 9 ∷ []))
      ≡ (none, some (called channel encoded_ping.connection (5 ∷ 7 ∷ []) (ping_packet ∷ []))))
    × Delivered switched
        (record { request_id = 7; response_expected = true; object_key = key; operation = ping })
        big
        (8 ∷ 9 ∷ [])
        (receive_request little known ping_packet)
call-Delivered_example =
    call-Delivered big keep none key ping (8 ∷ 9 ∷ []) channel encoded_ping (ping_packet ∷ [])
      little known switched true (omega arith) (omega arith) (omega arith)
      (omega arith, omega arith) connection-Announced encode_request-ping (omega arith) refl

-- A call, and one that expects no response.
abbrev first_call : Option Error × Channel (List (List ℕ))
first_call = suspend 7 (request big keep none true key ping (append_args []) channel)

abbrev second_call : Option Error × Channel (List (List ℕ))
second_call = request big keep none false key ping (append_args []) first_call.1

channel-Calls : Calls big keep channel (7 ∷ first_call.1.request_id ∷ []) second_call.1
unfolding twoway_call oneway_call
channel-Calls =
    next true key ping (append_args []) refl (next false key ping (append_args []) refl done)

Calls-IsDistinct_example : IsDistinct (7 ∷ first_call.1.request_id ∷ [])
Calls-IsDistinct_example =
    Calls-IsDistinct big keep channel second_call.1 (7 ∷ first_call.1.request_id ∷ []) (omega arith)
      (omega arith) channel-Calls

-- The header of a reply in a longer buffer.
abbrev headed : GiopDecoder
headed = record blank { buffer = cursor none [] (header_bytes big 1 2 MessageType.reply 4 ++ body) }

abbrev recognised : GiopDecoder
recognised = record blank {
  buffer = cursor (some big) (header_bytes big 1 2 MessageType.reply 4) body;
  major_version = 1;
  minor_version = 2;
  message_type = MessageType.reply;
  message_length = 4;
}
