-- ===== src/Giop/Decoder.antt =====
-- `GIOPDecoder` of giop.cc. Its `buffer` is the decoder of cdr.cc; `remote` is the end point of the
-- connection that the message came from, or `none` for a null pointer.
pub mod Header
pub mod Scan
pub mod Context
pub mod Announce
pub mod Request
pub mod Reference
use corba_cc.Base.{
  ℕ, zero, suc, ◌+◌, ◌%◌, ◌/◌, List, [], ◌∷◌, ◌++◌, Bool, true, false, not, Option, none, some,
  length, take, leb, ltb, ◌==◌, ◌&&◌, if◌then◌else◌, Result, ok, err, ◌>>=◌, bytes_eq,
  packet_too_small, missing_header, unsupported_disposition, unknown_disposition, null_pointer,
  uninitialised, pointer_not_implemented, value_type_not_implemented, null_orb, unsupported_tag,
}
use corba_cc.Cdr.Bytes.{ByteOrder}
use corba_cc.Cdr.Decoder
use corba_cc.Cdr.Decoder.{
  Decoder, Read, new_decoder, read_octet, read_ushort, read_ulong, read_blob, read_string,
  read_string_of, read_string_view, set_little_endian,
}
use corba_cc.Giop.Enums.{
  MessageType, message_type, ReplyStatus, reply_status, AddressingDisposition,
  addressing_disposition, ServiceId, service_id, ProfileId, profile_id,
}
use corba_cc.Giop.Types.{HostAndPort, RequestHeader, ReplyHeader, LocateRequest, is_giop_1_1}

pub record GiopDecoder : Type 0 where
  pub buffer : Decoder
  pub major_version : ℕ
  pub minor_version : ℕ
  pub message_type : MessageType
  pub message_length : ℕ
  pub request_id : ℕ
  pub reply_status : ReplyStatus
  pub remote : Option HostAndPort

unfoldable pub new_giop_decoder : Decoder → Option HostAndPort → GiopDecoder
new_giop_decoder d remote = record {
  buffer = d;
  major_version = 1;
  minor_version = 2;
  message_type = MessageType.request;
  message_length = 0;
  request_id = 0;
  reply_status = ReplyStatus.no_exception;
  remote = remote;
}

abbrev pub magic : List ℕ
magic = b'G' ∷ b'I' ∷ b'O' ∷ b'P' ∷ []

unfoldable pub scan_header_fields : ByteOrder → GiopDecoder → Result GiopDecoder
scan_header_fields there g = do
  (major, d1) ← read_octet (record g.buffer { offset = 4 })
  (minor, d2) ← read_octet d1
  (flags, d3) ← read_octet d2
  (type, d4) ← read_octet (set_little_endian (flags % 2 == 1) d3)
  (size, d5) ← read_ulong there d4
  ok (record g {
    buffer = d5;
    major_version = major;
    minor_version = minor;
    message_type = message_type type;
    message_length = size;
  })

unfoldable pub scan_giop_header : ByteOrder → GiopDecoder → Result GiopDecoder
scan_giop_header there g =
    if ltb (length g.buffer.data_) 16
    then err packet_too_small
    else if not (bytes_eq (take 4 g.buffer.data_) magic)
    then err missing_header
    else scan_header_fields there g

-- The three overloads of `readEncapsulation`. The closure works on a state of its own.
unfoldable pub read_encapsulation :
    {S : Type 0} → ByteOrder → (ℕ → S → Decoder → Read S) → S → Decoder → Read S
read_encapsulation there closure s d = do
  (type, d1) ← read_ulong there d
  (size, d2) ← read_ulong there d1
  (flags, d3) ← read_octet d2
  (s', d4) ← closure type s (set_little_endian (flags % 2 == 1) d3)
  ok (s', record d4 { endian = d2.endian; offset = d2.offset + size })

unfoldable pub repeat : {S : Type 0} → ℕ → (S → Decoder → Read S) → S → Decoder → Read S
repeat zero body s d = ok (s, d)
repeat (suc n) body s d = do (s', d') ← body s d; repeat n body s' d'

-- A connection is known by its peer's listen point from now on if both host and port are new.
unfoldable pub switch_remote : List ℕ → ℕ → Option HostAndPort → Result (Option HostAndPort)
switch_remote host port none = err null_pointer
switch_remote host port (some r) =
    if not (bytes_eq host r.host) && not (port == r.port)
    then ok (some (record { host = host; port = port }))
    else ok (some r)

unfoldable pub read_listen_point :
    ByteOrder → Option HostAndPort → Decoder → Read (Option HostAndPort)
read_listen_point there remote d = do
  (host, d1) ← read_string_view there d
  (port, d2) ← read_ushort there d1
  remote' ← switch_remote host port remote
  ok (remote', d2)

unfoldable pub read_context_body :
    ByteOrder → ServiceId → Option HostAndPort → Decoder → Read (Option HostAndPort)
read_context_body there ServiceId.bi_dir_iiop remote d = do
  (count, d1) ← read_ulong there d
  repeat count (read_listen_point there) remote d1
read_context_body there _ remote d = ok (remote, d)

unfoldable pub read_service_context :
    ByteOrder → Option HostAndPort → Decoder → Read (Option HostAndPort)
read_service_context there remote d = do
  (count, d1) ← read_ulong there d
  repeat count (read_encapsulation there (λ type. read_context_body there (service_id type))) remote
      d1

-- The object key behind its addressing disposition.
unfoldable pub read_addressed : ByteOrder → AddressingDisposition → Decoder → Read (List ℕ)
read_addressed there AddressingDisposition.key_addr d = read_blob there d
read_addressed there AddressingDisposition.profile_addr d = err unsupported_disposition
read_addressed there AddressingDisposition.reference_addr d = err unsupported_disposition
read_addressed there (AddressingDisposition.other n) d = err unknown_disposition

unfoldable pub read_target : ByteOrder → Bool → Decoder → Read (List ℕ)
read_target there true d = read_blob there d
read_target there false d = do
  (disposition, d1) ← read_ushort there d
  read_addressed there (addressing_disposition disposition) d1

-- `new RequestHeader()` holds false, which the flags 1, 2 and above 3 leave as it is.
unfoldable pub is_response_expected : Bool → ℕ → Bool
is_response_expected old flags = if old then not (flags == 0) else flags == 3

unfoldable pub read_context_if :
    ByteOrder → Bool → Option HostAndPort → Decoder → Read (Option HostAndPort)
read_context_if there true remote d = read_service_context there remote d
read_context_if there false remote d = ok (remote, d)

-- What stands behind the operation: the length of the principal, or the service context of 1.2 with
-- its padding.
unfoldable pub read_request_tail :
    ByteOrder → Bool → Option HostAndPort → Decoder → Read (Option HostAndPort)
read_request_tail there true remote d = do (principal, d1) ← read_ulong there d; ok (remote, d1)
read_request_tail there false remote d = do
  (remote', d1) ← read_service_context there remote d
  ok (remote', Decoder.align 8 d1)

-- `scanRequestHeader` on the buffer; `old` says whether the message is of version 1.0 or 1.1.
unfoldable pub read_request :
    ByteOrder → Bool → Option HostAndPort → Decoder → Read (RequestHeader × Option HostAndPort)
read_request there old remote d = do
  (remote1, d1) ← read_context_if there old remote d
  (id, d2) ← read_ulong there d1
  (flags, d3) ← read_octet d2
  (key, d4) ← read_target there old (Decoder.skip 3 d3)
  (operation, d5) ← read_string_view there d4
  (remote2, d6) ← read_request_tail there old remote1 d5
  ok (
    (
      record {
        request_id = id;
        response_expected = is_response_expected old flags;
        object_key = key;
        operation = operation;
      },
      remote2,
    ),
    d6,
  )

unfoldable pub scan_request_header : ByteOrder → GiopDecoder → Result (RequestHeader × GiopDecoder)
scan_request_header there g = do
  (read, d) ← read_request there (is_giop_1_1 g.major_version g.minor_version) g.remote g.buffer
  ok (read.0, record g { buffer = d; remote = read.1 })

unfoldable pub scan_locate_request : ByteOrder → GiopDecoder → Result (LocateRequest × GiopDecoder)
scan_locate_request there g = do
  (id, d1) ← read_ulong there g.buffer
  (key, d2) ← read_target there (is_giop_1_1 g.major_version g.minor_version) d1
  ok (record { request_id = id; object_key = key }, record g { buffer = d2; request_id = id })

unfoldable pub scan_reply_header : ByteOrder → GiopDecoder → Result (ReplyHeader × GiopDecoder)
scan_reply_header there g = do
  let new = g.major_version == 1 && leb 2 g.minor_version
  (remote1, d1) ←
      read_context_if there (is_giop_1_1 g.major_version g.minor_version) g.remote g.buffer
  (id, d2) ← read_ulong there d1
  (status, d3) ← read_ulong there d2
  (remote2, d4) ← read_context_if there new remote1 d3
  ok (
    record { request_id = id; reply_status = reply_status status },
    record g { buffer = d4; request_id = id; reply_status = reply_status status; remote = remote2 },
  )

-- What `readReference` has found so far; the port is a variable that only an IIOP profile sets.
pub record Profile : Type 0 where
  pub host : List ℕ
  pub port : Option ℕ
  pub object_key : List ℕ

unfoldable pub read_profile : ByteOrder → ProfileId → Profile → Decoder → Read Profile
read_profile there ProfileId.tag_internet_iop p d = do
  (major, d1) ← read_octet d
  (minor, d2) ← read_octet d1
  (host, d3) ← read_string there d2
  (port, d4) ← read_ushort there d3
  (key, d5) ← read_blob there d4
  ok (record { host = host; port = some port; object_key = key }, d5)
read_profile there _ p d = ok (p, d)

-- `IOR` of ior.hh, but for its ORB.
pub record Ior : Type 0 where
  pub oid : List ℕ
  pub host : List ℕ
  pub port : ℕ
  pub object_key : List ℕ

unfoldable pub make_ior : List ℕ → Profile → Option ℕ → Result Ior
make_ior oid p none = err uninitialised
make_ior oid p (some port) =
    ok (record { oid = oid; host = p.host; port = port; object_key = p.object_key })

unfoldable pub read_reference : ByteOrder → ℕ → Decoder → Read Ior
read_reference there length d = do
  (oid, d1) ← read_string_of length d
  (count, d2) ← read_ulong there d1
  (p, d3) ←
      repeat count (read_encapsulation there (λ type. read_profile there (profile_id type)))
        (record { host = []; port = none; object_key = [] }) d2
  ior ← make_ior oid p p.port
  ok (ior, d3)

unfoldable pub read_with_orb : ByteOrder → Bool → ℕ → Decoder → Read (Option Ior)
read_with_orb there false code d = err null_orb
read_with_orb there true code d = do (ior, d1) ← read_reference there code d; ok (some ior, d1)

-- `readObject`; `none` is the null pointer that it returns for the tag 0.
unfoldable pub read_tagged : ByteOrder → Bool → ℕ → Decoder → Read (Option Ior)
read_tagged there has_orb code d =
    if code == 0
    then ok (none, d)
    else if code / 256 == 0x7fffff
    then err value_type_not_implemented
    else if code == 0xffffffff
    then err pointer_not_implemented
    else if ltb code 0x7fffff00
    then read_with_orb there has_orb code d
    else err unsupported_tag

unfoldable pub read_object : ByteOrder → Bool → Decoder → Read (Option Ior)
read_object there has_orb d = do (code, d1) ← read_ulong there d; read_tagged there has_orb code d1

-- The template `readSequence`: the elements read so far stand in `out`.
unfoldable pub read_sequence :
    {T : Type 0} → ByteOrder → (Decoder → Read T) → Decoder → Read (List T)
read_sequence there read_element d = do
  (size, d1) ← read_ulong there d
  repeat size (λ out e. read_element e >>= λ x. ok (out ++ (x.0 ∷ []), x.1)) [] d1
