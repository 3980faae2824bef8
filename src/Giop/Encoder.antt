-- ===== src/Giop/Encoder.antt =====
-- `GIOPEncoder` of giop.cc. Its `buffer` is the encoder of cdr.cc; `connection` is a null pointer or
-- the end points of the connection that the message will take.
pub mod Header
pub mod Sequence
use corba_cc.Base.{
  ℕ, ◌+◌, ◌-◌, ◌%◌, ◌^◌, List, [], ◌∷◌, length, Bool, true, false, not, Option, none, some, leb,
  ltb, ◌==◌, ◌&&◌, ◌||◌, if◌then◌else◌, Result, ok, err, ◌>>=◌, no_connection,
  value_type_not_implemented, reference_not_implemented,
}
use corba_cc.Cdr.Bytes.{ByteOrder}
use corba_cc.Cdr.Encoder
use corba_cc.Cdr.Encoder.{
  Encoder, reserve, write_octet, write_endian, write_ushort, write_ulong, write_blob, write_string,
  reserve_size, fill_in_size,
}
use corba_cc.Giop.Enums.{
  MessageType, message_type_code, ReplyStatus, reply_status_code, LocateStatusType,
  locate_status_code, AddressingDisposition, addressing_disposition_code, ServiceId,
  service_id_code,
}
use corba_cc.Giop.Types.{HostAndPort, Endpoints, is_giop_1_1}

pub record GiopEncoder : Type 0 where
  pub buffer : Encoder
  pub major_version : ℕ
  pub minor_version : ℕ
  pub connection : Option Endpoints

unfoldable pub new_giop_encoder : Option Endpoints → GiopEncoder
new_giop_encoder c = record {
  buffer = Encoder.new_encoder;
  major_version = 1;
  minor_version = 2;
  connection = c;
}

-- An operation that GIOPEncoder hands to its buffer.
abbrev pub on_buffer : (Encoder → Encoder) → GiopEncoder → GiopEncoder
on_buffer w g = record g { buffer = w g.buffer }

unfoldable pub fill_in : ByteOrder → GiopEncoder → Result GiopEncoder
fill_in host g = do e ← fill_in_size host g.buffer; ok (record g { buffer = e })

-- The three overloads of `writeEncapsulation`.
unfoldable pub write_encapsulation :
    ByteOrder → ℕ → (GiopEncoder → Result GiopEncoder) → GiopEncoder → Result GiopEncoder
write_encapsulation host type closure g = do
  let g1 = on_buffer (λ e. write_endian host (reserve_size (write_ulong host type e))) g
  g2 ← closure g1
  fill_in host g2

unfoldable pub skip_giop_header : Encoder → Encoder
skip_giop_header e = record e { offset = 10 }

unfoldable pub skip_reply_header : Encoder → Encoder
skip_reply_header e = record e { offset = 24 }

unfoldable pub set_giop_header : ByteOrder → MessageType → GiopEncoder → GiopEncoder
set_giop_header host type g =
    let offset = g.buffer.offset in
    let e0 = reserve offset g.buffer in
    let e1 = record e0 { offset = 0 } in
    let e2 = write_octet b'P' (write_octet b'O' (write_octet b'I' (write_octet b'G' e1))) in
    let e3 = write_octet g.minor_version (write_octet g.major_version e2) in
    let e4 = write_octet (message_type_code type) (write_endian host e3) in
    let e5 = write_ulong host ((offset + 2 ^ 64 - 12) % 2 ^ 64) e4 in
    record g { buffer = record e5 { offset = offset } }

unfoldable pub set_reply_header : ByteOrder → ℕ → ReplyStatus → GiopEncoder → GiopEncoder
set_reply_header host request_id status g =
    let old = g.major_version == 1 && ltb g.minor_version 2 in
    let new = g.major_version == 1 && leb 2 g.minor_version in
    let e0 = skip_giop_header g.buffer in
    let e1 = if old then write_ulong host 0 e0 else e0 in
    let e2 = write_ulong host (reply_status_code status) (write_ulong host request_id e1) in
    let e3 = if new then write_ulong host 0 e2 else e2 in record g { buffer = e3 }

-- The body of the BI_DIR_IIOP service context.
unfoldable pub write_listen_point : ByteOrder → HostAndPort → Encoder → Encoder
write_listen_point host local e =
    write_ushort host local.port (write_string host local.host (write_ulong host 1 e))

-- A write at an earlier offset, and back.
unfoldable pub rewrite_ulong : ByteOrder → ℕ → ℕ → Encoder → Encoder
rewrite_ulong host offset v e =
    let e1 = write_ulong host v (record e { offset = offset }) in record e1 { offset = e.offset }

unfoldable pub write_contexts : ByteOrder → Option Endpoints → GiopEncoder → Result GiopEncoder
write_contexts host none g = ok (on_buffer (write_ulong host 0) g)
write_contexts host (some c) g =
    let offset = g.buffer.offset in
    let g1 = on_buffer (write_ulong host 0) g in
    if c.did_send_bi_dir then ok (on_buffer (rewrite_ulong host offset 0) g1) else do
      let g2 = record g1 { connection = some (record c { did_send_bi_dir = true }) }
      g3 ←
          write_encapsulation host (service_id_code ServiceId.bi_dir_iiop)
            (λ g'. ok (on_buffer (write_listen_point host c.local) g')) g2
      ok (on_buffer (rewrite_ulong host offset 1) g3)

unfoldable pub write_service_context : ByteOrder → GiopEncoder → Result GiopEncoder
write_service_context host g = write_contexts host g.connection g

-- The fields of a request before the service context of version 1.2, with the object key.
unfoldable pub write_request_key : ByteOrder → Bool → List ℕ → Encoder → Encoder
write_request_key host old key e =
    if old
    then write_blob host key e
    else write_blob host key
        (write_ushort host (addressing_disposition_code AddressingDisposition.key_addr) e)

-- The end of a request header: no principal, or the service context of 1.2 and its padding.
unfoldable pub write_request_tail : ByteOrder → Bool → GiopEncoder → Result GiopEncoder
write_request_tail host true g = ok (on_buffer (write_ulong host 0) g)
write_request_tail host false g = do
  g1 ← write_service_context host g
  ok (on_buffer (Encoder.align 8) g1)

unfoldable pub write_context_if : ByteOrder → Bool → GiopEncoder → Result GiopEncoder
write_context_if host true g = write_service_context host g
write_context_if host false g = ok g

unfoldable pub response_flags : Bool → Bool → ℕ
response_flags old expected = if expected then (if old then 1 else 3) else 0

-- Three reserved octets are passed over.
unfoldable pub skip_reserved : Encoder → Encoder
skip_reserved e = record e { offset = e.offset + 3 }

unfoldable pub encode_request :
    ByteOrder → List ℕ → List ℕ → ℕ → Bool → GiopEncoder → Result GiopEncoder
encode_request host object_key operation request_id response_expected g = do
  let old = is_giop_1_1 g.major_version g.minor_version
  g1 ← write_context_if host old (on_buffer skip_giop_header g)
  let e2 =
      write_octet (response_flags old response_expected) (write_ulong host request_id g1.buffer)
  let e3 = write_request_key host old object_key (skip_reserved e2)
  write_request_tail host old (record g1 { buffer = write_string host operation e3 })

unfoldable pub encode_locate_reply : ByteOrder → ℕ → LocateStatusType → GiopEncoder → GiopEncoder
encode_locate_reply host request_id status g =
    on_buffer
      (λ e.
        write_ulong host (locate_status_code status)
          (write_ulong host request_id (skip_giop_header e)))
      g

-- The classes of objects that `writeObject` tells apart, with what it reads of them.
pub data Object : Type 0 where
  null : Object
  stub skeleton : List ℕ → List ℕ → Object
  reference value : Object

unfoldable pub write_profile :
    ByteOrder → List ℕ → Bool → Endpoints → GiopEncoder → Result GiopEncoder
write_profile host object_key object_is_a_stub c g = do
  let address = if object_is_a_stub then c.remote else c.local
  let g1 =
      on_buffer
        (λ e.
          write_blob host object_key
            (write_ushort host address.port (write_string host address.host e)))
        g
  g2 ←
      (if not (g.major_version == 1) || not (g.minor_version == 0)
        then write_encapsulation host 0 (λ g'. ok (on_buffer (write_ulong host 0x4d313300) g'))
            (on_buffer (write_ulong host 1) g1)
        else ok g1)
  fill_in host g2

unfoldable pub write_address :
    ByteOrder → List ℕ → Bool → Option Endpoints → GiopEncoder → Result GiopEncoder
write_address host object_key object_is_a_stub none g = err no_connection
write_address host object_key object_is_a_stub (some c) g =
    write_profile host object_key object_is_a_stub c g

unfoldable pub write_reference :
    ByteOrder → List ℕ → List ℕ → Bool → GiopEncoder → Result GiopEncoder
write_reference host repository_id object_key object_is_a_stub g =
    let head = λ (e : Encoder).
      reserve_size (write_ulong host 0 (write_ulong host 1 (write_string host repository_id e))) in
    let version = λ (e : Encoder).
      write_octet g.minor_version (write_octet g.major_version (write_endian host e)) in
    write_address host object_key object_is_a_stub g.connection
      (on_buffer (λ e. version (head e)) g)

unfoldable pub write_object : ByteOrder → Object → GiopEncoder → Result GiopEncoder
write_object host null g =
    ok (on_buffer (λ e. write_ulong host 0 (write_octet 0 (write_ulong host 1 e))) g)
write_object host (stub id key) g = write_reference host id key true g
write_object host (skeleton id key) g = write_reference host id key false g
write_object host reference g = err reference_not_implemented
write_object host value g = err value_type_not_implemented

-- The template `writeSequence`: a number of elements, and each of them by the closure.
unfoldable pub write_elements :
    {T : Type 0}
    → (T → GiopEncoder → Result GiopEncoder)
    → List T
    → GiopEncoder
    → Result GiopEncoder
write_elements write_element [] g = ok g
write_elements write_element (x ∷ xs) g = do
  g' ← write_element x g
  write_elements write_element xs g'

unfoldable pub write_sequence :
    {T : Type 0}
    → ByteOrder
    → (T → GiopEncoder → Result GiopEncoder)
    → List T
    → GiopEncoder
    → Result GiopEncoder
write_sequence host write_element xs g =
    write_elements write_element xs (on_buffer (write_ulong host (length xs)) g)
