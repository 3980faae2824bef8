-- ===== src/Giop/Decoder/Request.antt =====
-- A request of GIOP 1.2 from `encodeRequest` and `setGIOPHeader` of giop.cc to `scanGIOPHeader` and
-- `scanRequestHeader`.
pub mod Received
use corba_cc.Base.{
  ℕ, ◌+◌, ◌%◌, ◌^◌, ◌≤◌, ◌<◌, ◌≡◌, refl, sym, ap, ◌∙◌, List, [], ◌∷◌, ◌++◌, arith, Option, none,
  some, Bool, true, false, length, replicate, Result, ok, err, ◌>>=◌,
}
use corba_cc.Cdr.Bytes.{ByteOrder}
use corba_cc.Cdr.Bytes.Laws.{length-store}
use corba_cc.Cdr.Encoder
use corba_cc.Cdr.Encoder.{
  Encoder, align_to, new_encoder, write_octet, write_word, write_ulong, write_ushort, write_blob,
  write_string, emit, poke, reserve,
}
use corba_cc.Cdr.Encoder.Append.{wire, IsAppend, resize_grow}
use corba_cc.Cdr.Decoder
use corba_cc.Cdr.Decoder.{
  Decoder, Read, read_octet, read_ulong, read_ushort, read_word, read_blob, read_string_view, align,
}
use corba_cc.Cdr.Decoder.Cursor.{cursor, skip-cursor}
use corba_cc.Cdr.Codec.{
  Codec, Written, Written-seq, Written-then, seq-Codec, align-Codec, word-Codec, offset-Written,
}
use corba_cc.Cdr.RoundTrip.{octet-Codec, blob-Codec, string_view-Codec}
use corba_cc.Giop.Enums.{AddressingDisposition, addressing_disposition, addressing_disposition_code}
use corba_cc.Giop.Types.{HostAndPort, Endpoints, RequestHeader}
use corba_cc.Giop.Encoder.{
  GiopEncoder, new_giop_encoder, skip_giop_header, skip_reserved, response_flags, write_request_key,
  write_request_tail, write_context_if, write_service_context, write_contexts, encode_request,
  on_buffer,
}
use corba_cc.Giop.Decoder.{
  read_service_context, read_addressed, read_target, read_context_if, read_request_tail,
  read_request, is_response_expected,
}
use corba_cc.Giop.Decoder.Announce.{Announced}
use corba_cc.Giop.Decoder.Announce.Contexts.{IsShort, Announces, write_contexts-Announces}

skip_reserved-Codec :
    (o : Option ByteOrder) → Codec o skip_reserved (λ d. ok (tt {0}, Decoder.skip 3 d)) tt
unfolding skip_reserved wire
skip_reserved-Codec o e h = record {
  bytes = replicate 3 0;
  wire_eq = resize_grow e.offset 3 e.buffer h;
  appends = omega arith;
  reads = λ pre rest at. ap (λ d. ok (tt, d)) (skip-cursor o pre (replicate 3 0) rest);
}

-- The flags tell whether a response is expected.
response_flags-expected : (b : Bool) → is_response_expected false (response_flags false b) ≡ b
unfolding is_response_expected response_flags
response_flags-expected true = refl
response_flags-expected false = refl

response_flags-small : (b : Bool) → response_flags false b < 256
unfolding response_flags
response_flags-small true = omega arith
response_flags-small false = omega arith

-- The encoder behind the room for the header.
abbrev pub behind_header : Encoder
behind_header = record { buffer = []; offset = 12; size_stack = [] }

module _ (host there : ByteOrder) (key operation : List ℕ) (id : ℕ) (expected : Bool)
    (key_fits : length key < 2 ^ 32) (operation_fits : length operation + 1 < 2 ^ 32)
    (id_fits : id < 2 ^ 32) where
  -- The object key behind the reserved octets and the addressing disposition.
  target-Codec :
      Codec
        (some host)
        (λ e. write_request_key host false key (skip_reserved e))
        (λ d. read_target there false (Decoder.skip 3 d))
        key
  unfolding write_request_key read_target read_addressed addressing_disposition
      addressing_disposition_code write_ushort read_ushort
  target-Codec =
      seq-Codec (some host) skip_reserved (λ e. write_blob host key (write_word host 2 0 e))
        (λ d. ok (tt {0}, Decoder.skip 3 d)) (λ _ d. read_target there false d) tt key
        (skip_reserved-Codec (some host))
        (seq-Codec (some host) (write_word host 2 0) (write_blob host key) (read_word there 2)
          (λ n d. read_addressed there (addressing_disposition n) d) 0 key
          (word-Codec host there 2 0 (omega arith) (omega arith))
          (blob-Codec host there key key_fits))

  abbrev flags : ℕ
  flags = response_flags false expected

  abbrev pub header : RequestHeader
  header = record {
    request_id = id;
    response_expected = expected;
    object_key = key;
    operation = operation;
  }

  e1 : Encoder
  e1 = write_ulong host id behind_header

  e2 : Encoder
  e2 = write_octet flags e1

  e3 : Encoder
  e3 = write_request_key host false key (skip_reserved e2)

  e4 : Encoder
  e4 = write_string host operation e3

  w1 : Written (some host) (read_ulong there) id behind_header e1
  unfolding e1 write_ulong read_ulong
  w1 = word-Codec host there 4 id (omega arith) id_fits behind_header (omega arith)

  w2 : Written (some host) read_octet flags e1 e2
  unfolding e2
  w2 = octet-Codec (some host) flags (response_flags-small expected) e1 w1.appends

  w3 : Written (some host) (λ d. read_target there false (Decoder.skip 3 d)) key e2 e3
  unfolding e3
  w3 = target-Codec e2 w2.appends

  w4 : Written (some host) (read_string_view there) operation e3 e4
  unfolding e4
  w4 = string_view-Codec host there operation operation_fits e3 w3.appends

  -- What `encodeRequest` leaves: a reader gets the header and what the connection announces.
  pub record Encoded (remote remote' : Option HostAndPort) (r : Result GiopEncoder) : Type 0 where
    pub after : GiopEncoder
    pub result : r ≡ ok after
    pub major : after.major_version ≡ 1
    pub minor : after.minor_version ≡ 2
    pub long : 16 ≤ after.buffer.offset
    pub read :
        Written
          (some host)
          (read_request there false remote)
          (header, remote')
          behind_header
          after.buffer

  module _ (c : Option Endpoints) (remote remote' : Option HostAndPort) (short : IsShort c)
      (announces : Announced c remote remote') where
    before : GiopEncoder
    before = record { buffer = e4; major_version = 1; minor_version = 2; connection = c }

    contexts : Announces host there remote remote' before (write_contexts host c before)
    contexts =
        unfold before in
        write_contexts-Announces host there remote remote' before w4.appends c short announces

    aligned : Encoder
    aligned = Encoder.align 8 contexts.after.buffer

    tail : Written (some host) (read_request_tail there false remote) remote' e4 aligned
    unfolding read_request_tail aligned before
    tail =
        Written-seq (some host) (read_service_context there remote)
          (λ r d. ok (r, Decoder.align 8 d)) remote' remote' e4 contexts.after.buffer aligned
          w4.appends contexts.read
          (Written-then (λ _ d. ok (remote', d)) remote' (λ d. refl)
            (align-Codec (some host) 8 (omega arith) contexts.after.buffer contexts.read.appends))

    finished :
        Written
          (some host)
          (read_request there false remote)
          (header, remote')
          behind_header
          aligned
    unfolding read_request read_context_if
    finished =
        let built : ℕ
            → ℕ
            → List ℕ
            → List ℕ
            → Option HostAndPort
            → Decoder
            → Read (RequestHeader × Option HostAndPort) =
          λ i f k o r d. ok (
            (
              record {
                request_id = i;
                response_expected = is_response_expected false f;
                object_key = k;
                operation = o;
              },
              r,
            ),
            d,
          ) in
        let ends = λ (i f : ℕ) (k o : List ℕ) (d : Decoder).
          read_request_tail there false remote d >>= λ r. built i f k o r.0 r.1 in
        let operates = λ (i f : ℕ) (k : List ℕ) (d : Decoder).
          read_string_view there d >>= λ o. ends i f k o.0 o.1 in
        let targets = λ (i f : ℕ) (d : Decoder).
          read_target there false (Decoder.skip 3 d) >>= λ k. operates i f k.0 k.1 in
        let flagged = λ (i : ℕ) (d : Decoder). read_octet d >>= λ f. targets i f.0 f.1 in
        let last : Written (some host) (λ d. ends id flags key operation d) (header, remote') e4
            aligned =
          Written-then (built id flags key operation) (header, remote')
            (λ d.
              ap
                (λ b. ok (
                  (
                    record {
                      request_id = id;
                      response_expected = b;
                      object_key = key;
                      operation = operation;
                    },
                    remote',
                  ),
                  d,
                ))
                (response_flags-expected expected))
            tail in
        Written-seq (some host) (read_ulong there) flagged id (header, remote') behind_header e1
          aligned (omega arith) w1
          (Written-seq (some host) read_octet (targets id) flags (header, remote') e1 e2 aligned
            w1.appends w2
            (Written-seq (some host) (λ d. read_target there false (Decoder.skip 3 d))
              (operates id flags) key (header, remote') e2 e3 aligned w2.appends w3
              (Written-seq (some host) (read_string_view there) (ends id flags key) operation
                (header, remote') e3 e4 aligned w3.appends w4 last)))

    aligned_long : 16 ≤ aligned.offset
    aligned_long =
        let first : e1.offset ≡ 16 =
          unfold e1 write_ulong write_word emit poke reserve Encoder.align align_to in
          omega (arith, length-store host 4 id) in
        omega (
          arith,
          first,
          offset-Written w1.appends w2,
          offset-Written w2.appends w3,
          offset-Written w3.appends w4,
          offset-Written w4.appends tail,
        )

    -- `encodeRequest` succeeds on a new encoder of GIOP 1.2, whatever connection it has, keeps
    -- the version, writes at least four octets behind the room for the header, and from what it
    -- has written `scanRequestHeader` reads the same header and what the connection has
    -- announced. The sizes of the object key, the operation, the id and the listen point are
    -- within bounds, and the receiver knew an end point before, if one is announced.
    pub encode_request-Encoded :
        Encoded remote remote' (encode_request host key operation id expected (new_giop_encoder c))
    unfolding encode_request new_giop_encoder new_encoder skip_giop_header write_context_if
        write_request_tail write_service_context before aligned e4 e3 e2 e1 write_ulong write_word
        Encoder.align align_to
    encode_request-Encoded = record {
      after = record contexts.after { buffer = aligned };
      result = ap (λ r. r >>= λ g1. ok (on_buffer (Encoder.align 8) g1)) contexts.result;
      major = contexts.major;
      minor = contexts.minor;
      long = aligned_long;
      read = finished;
    }
