-- ===== src/Runs/Calls.antt =====
-- Runs of orb.cc and naming.cc.
use corba_cc.Orb.Table.{find}
use corba_cc.Base.{
  ℕ, ◌≡◌, refl, List, [], ◌∷◌, ◌++◌, arith, some, none, true, false, codes, ok, bytes_eq,
}
use corba_cc.Cdr.Bytes.{little, big, from_le, load, bswap, is_native, le_bytes}
use corba_cc.Cdr.Encoder.{Encoder, align_to}
use corba_cc.Cdr.Decoder
use corba_cc.Cdr.Decoder.{
  Decoder, new_decoder, read_octet, at_offset, set_little_endian, read_ulong, read_word, ptr, fetch,
  skip, from_native, read_ushort, read_blob, read_string_view, read_string_view_of,
  view_to_terminator,
}
use corba_cc.Cdr.Decoder.Cursor.{cursor}
use corba_cc.Cdr.RoundTrip.{string-Codec}
use corba_cc.Giop.Enums.{message_type, addressing_disposition}
use corba_cc.Giop.Types.{HostAndPort, Endpoints, RequestHeader}
use corba_cc.Giop.Encoder.{GiopEncoder, new_giop_encoder, skeleton, write_object}
use corba_cc.Giop.Decoder.{
  GiopDecoder, new_giop_decoder, scan_giop_header, scan_request_header, scan_header_fields,
  read_request, read_context_if, read_target, read_addressed, read_request_tail,
  read_service_context, repeat, is_response_expected,
}
use corba_cc.Orb.Exceptions.{SystemException, completed_no, system, unknown_system, rep_id}
use corba_cc.Orb.Server.{Servant, answers, silent, serve, socket_rcvd, completes, throws_system}
use corba_cc.Orb.Server.Raised.{Ends, serve-Ends, serve-no_resources, serve-object_not_exist}
use corba_cc.Orb.Server.Silence.{socket_rcvd-silent}
use corba_cc.Orb.Naming.{dispatch}
use corba_cc.Orb.Binding.{Bindings, bind_servant}
use corba_cc.Orb.Binding.Published.{Published, Refused, bind_servant-Refused}
use corba_cc.Orb.Binding.Resolvable.{object_names, bind_servant-Resolvable}
use corba_cc.Orb.Table.{find}
use corba_cc.Orb.Servants.{Servants, object_id, activate_object}
use corba_cc.Orb.Servants.Activated.{Activated, IsIssued, activate_object-Activated}
use corba_cc.Orb.Pool.{
  Fresh, insert, Peer, Broker, get_connection, reuse_or_connect, find_by_remote, connect_outgoing,
  named_local,
}
use corba_cc.Orb.Pool.Reuse.{get_connection-again}

abbrev me : HostAndPort
me = record { host = b'm' ∷ b'e' ∷ []; port = 2809 }

abbrev you : HostAndPort
you = record { host = b'u' ∷ []; port = 40000 }

abbrev ends : Endpoints
ends = record { local = me; remote = you; did_send_bi_dir = true }

abbrev asked : RequestHeader
asked = record {
  request_id = 7;
  response_expected = true;
  object_key = 1 ∷ 2 ∷ [];
  operation = b'h' ∷ b'i' ∷ [];
}

abbrev reading : GiopDecoder
reading = new_giop_decoder (new_decoder []) (some you)

serve-object_not_exist_example :
    (packet : List ℕ) × (serve little ends asked reading none ≡ ok (answers packet))
    × Ends big none 7 (system SystemException.object_not_exist 0x4f4d0001 completed_no) packet
unfolding new_giop_decoder
serve-object_not_exist_example =
    serve-object_not_exist little big ends asked reading none refl refl refl (omega arith)

-- A servant that throws whatever it is asked.
abbrev failing : SystemException → Servant
failing ex = record {
  repository_id = b'I' ∷ [];
  dispatch = λ operation d g. throws_system ex 3 completed_no g;
}

serve-Ends_example :
    (packet : List ℕ) × (serve little ends asked reading (some (failing SystemException.timeout))
      ≡ ok (answers packet))
    × Ends big none 7 (system SystemException.timeout 3 completed_no) packet
unfolding new_giop_decoder bytes_eq
serve-Ends_example =
    serve-Ends little big ends asked reading (failing SystemException.timeout) 3 completed_no none
      refl refl refl (omega arith) (omega arith) tt refl SystemException.timeout tt refl

serve-no_resources_example :
    (packet : List ℕ) × (serve little ends asked reading
        (some (failing SystemException.no_resources))
      ≡ ok (answers packet))
    × Ends big none 7 (unknown_system (rep_id SystemException.no_resources)) packet
unfolding new_giop_decoder bytes_eq
serve-no_resources_example =
    serve-no_resources little big ends asked reading (failing SystemException.no_resources) 3
      completed_no none refl refl refl (omega arith) (omega arith) tt refl refl

-- A request of the operation "hi" that wants no response, on a machine with the other byte order.
abbrev oneway : List ℕ
oneway =
    b'G' ∷ b'I' ∷ b'O' ∷ b'P' ∷ 1 ∷ 2 ∷ 0 ∷ 0 ∷ 0 ∷ 0 ∷ 0 ∷ 36 ∷ 0 ∷ 0 ∷ 0 ∷ 9 ∷ 0 ∷ 0 ∷ 0 ∷ 0 ∷ 0
    ∷ 0 ∷ 0 ∷ 0 ∷ 0 ∷ 0 ∷ 0 ∷ 1 ∷ 5 ∷ 0 ∷ 0 ∷ 0 ∷ 0 ∷ 0 ∷ 0 ∷ 3 ∷ b'h' ∷ b'i' ∷ 0 ∷ 0 ∷ 0 ∷ 0 ∷ 0
    ∷ 0 ∷ 0 ∷ 0 ∷ 0 ∷ 0 ∷ []

abbrev headed : GiopDecoder
headed = record (new_giop_decoder (new_decoder oneway) (some you)) {
  buffer = record { data_ = oneway; offset = 12; endian = some big };
  message_length = 36;
}

abbrev passed : GiopDecoder
passed = record headed { buffer = record { data_ = oneway; offset = 48; endian = some big } }

abbrev hi : RequestHeader
hi = record {
  request_id = 9;
  response_expected = false;
  object_key = 5 ∷ [];
  operation = b'h' ∷ b'i' ∷ [];
}

scan_giop_header-oneway :
    scan_giop_header little (new_giop_decoder (new_decoder oneway) (some you)) ≡ ok headed
unfolding scan_giop_header scan_header_fields bytes_eq new_decoder new_giop_decoder read_octet
    at_offset set_little_endian read_ulong read_word ptr fetch skip Decoder.align align_to
    message_type from_native from_le load bswap is_native le_bytes
scan_giop_header-oneway = refl

scan_request_header-oneway : scan_request_header little headed ≡ ok (hi, passed)
unfolding scan_request_header read_request read_context_if read_target read_addressed
    addressing_disposition read_ushort read_blob read_string_view read_string_view_of
    view_to_terminator read_request_tail read_service_context repeat is_response_expected
    new_decoder new_giop_decoder read_octet at_offset read_ulong read_word ptr fetch skip
    Decoder.align align_to from_native from_le load bswap is_native le_bytes
scan_request_header-oneway = refl

abbrev servants : List (List ℕ × Servant)
servants =
    (5 ∷ [], record { repository_id = b'I' ∷ []; dispatch = λ operation d g. completes g }) ∷ []

socket_rcvd-silent_example : socket_rcvd little servants ends oneway ≡ ok silent
unfolding new_giop_decoder bytes_eq
socket_rcvd-silent_example =
    socket_rcvd-silent little servants ends oneway headed passed hi (omega arith)
      scan_giop_header-oneway refl scan_request_header-oneway refl refl

abbrev first_name : List ℕ
first_name = b'a' ∷ []

abbrev fresh : Encoder
fresh = record { buffer = []; offset = 0; size_stack = [] }

abbrev answering : GiopEncoder
answering = new_giop_encoder (some ends)

abbrev started : Broker
started = record { protocols = (record { host = []; port = 0 }) ∷ []; connections = []; made = 0 }

abbrev connection_made : Peer
connection_made = record { number = 0; protocol = 0; remote = you }

abbrev connected_broker : Broker
connected_broker = record {
  protocols = (record { host = 5 ∷ []; port = 2809 }) ∷ [];
  connections = connection_made ∷ [];
  made = 1;
}

abbrev again : Fresh
again = record { uuid = 6 ∷ []; place = 0 }

get_connection-again_example :
    get_connection you.host you.port again connected_broker ≡ ok (connection_made, connected_broker)
unfolding get_connection reuse_or_connect find_by_remote connect_outgoing named_local insert
get_connection-again_example =
    get_connection-again you.host you.port (record { uuid = 5 ∷ []; place = 2 }) again started
      connected_broker connection_made refl

-- An ORB without servants.
abbrev idle_orb : Servants
idle_orb = record { table = []; object_key = λ servant. none; servant_id_counter = 16 }

activate_object-Activated_example :
    Activated (object_id 17) 3 idle_orb (activate_object 3 idle_orb)
    × IsIssued (activate_object 3 idle_orb)
unfolding find
activate_object-Activated_example =
    activate_object-Activated 3 idle_orb (omega arith) (λ k later low. refl)

-- The same ORB, before and after a servant has been bound.
abbrev idle_bindings : Bindings
idle_bindings = record { servants = idle_orb; naming_service = none }

abbrev bound_bindings : Bindings
bound_bindings = (bind_servant 4 first_name 3 idle_bindings).1

repository_id_of : ℕ → List ℕ
repository_id_of servant = b'I' ∷ []

bind_servant-Resolvable_example :
    (p : Published first_name 3 idle_bindings (bind_servant 4 first_name 3 idle_bindings))
    × (dispatch big
          (object_names repository_id_of bound_bindings)
          (codes "resolve_str")
          (cursor
            (some little)
            []
            ((string-Codec little big first_name (omega arith) fresh (omega arith)).bytes ++ []))
          answering
        ≡ write_object big (skeleton (repository_id_of 3) p.key) answering)
unfolding find
bind_servant-Resolvable_example =
    bind_servant-Resolvable little big repository_id_of 4 first_name 3 idle_bindings fresh answering
      [] [] (omega arith) refl (omega arith) (λ e. absurd (omega (arith, e))) (omega arith)
      (λ k later low. refl, refl) refl

-- A name that another servant has.
abbrev taken_bindings : Bindings
taken_bindings = record {
  servants = record {
    table = (codes "NameService", 4) ∷ [];
    object_key = λ s. none;
    servant_id_counter = 0;
  };
  naming_service = some (4, record { names = (first_name, 2) ∷ [] });
}

bind_servant-Refused_example : Refused 3 taken_bindings (bind_servant 5 first_name 3 taken_bindings)
unfolding find bytes_eq object_id
bind_servant-Refused_example =
    bind_servant-Refused 5 first_name 3 2 taken_bindings (λ e. absurd (omega (arith, e)))
      (omega arith) (λ k later low. refl, refl) refl
