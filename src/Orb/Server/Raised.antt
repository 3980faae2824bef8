-- ===== src/Orb/Server/Raised.antt =====
-- A system exception from the server's `ORB::socketRcvd` to the client's `ORB::_twowayCall`.
use corba_cc.Base.{
  ℕ, ◌^◌, ◌<◌, ◌≡◌, refl, sym, ap, ◌∙◌, List, [], ◌++◌, append-nil, arith, Option, none, some, true,
  false, bytes_eq, codes, length, replicate, ok, bytes_eq, codes, false,
}
use corba_cc.Cdr.Bytes.{ByteOrder}
use corba_cc.Cdr.Encoder.{
  Encoder, new_encoder, resize, write_word, write_string, write_c_string, write_ulong, c_string,
}
use corba_cc.Cdr.Encoder.Append.{wire}
use corba_cc.Cdr.Decoder.{Decoder}
use corba_cc.Cdr.Decoder.Cursor.{cursor}
use corba_cc.Cdr.Codec.{Written}
use corba_cc.Giop.Enums.{ReplyStatus, reply_status, reply_status_code}
use corba_cc.Giop.Types.{HostAndPort, Endpoints, RequestHeader}
use corba_cc.Giop.Encoder.{skip_reply_header}
use corba_cc.Giop.Decoder.{GiopDecoder}
use corba_cc.Giop.Decoder.Announce.{word_bound, string_bound}
use corba_cc.Orb.Exceptions.{
  SystemException, rep_id, CompletionStatus, completion_code, completed_no, Outcome, system,
  two_way_reply, read_system_exception, write_system_exception, throw_system, unknown_system,
}
use corba_cc.Orb.Exceptions.RoundTrip.{
  IsRecognised, IsNamed, exception-Codec, throw_system-rep_id, no_resources-unknown_system,
  c_string-rep_id, length-rep_id,
}
use corba_cc.Orb.Server.{
  answers, reply, reply_encoder, connected, answer_if, object_not_exist, serve, Servant,
  throws_system, finish_call,
}
use corba_cc.Orb.Server.Reply.Received.{receive_reply, Returned, reply-Returned}

-- The client's call ends in the outcome `o` when the packet `m` arrives.
pub record Ends (there : ByteOrder) (remote : Option HostAndPort) (id : ℕ) (o : Outcome)
    (m : List ℕ) : Type 0 where
  pub decoder : GiopDecoder
  pub after : Decoder
  pub received :
      receive_reply there remote m
      ≡ ok (record { request_id = id; reply_status = ReplyStatus.system_exception }, decoder)
  pub thrown : two_way_reply there decoder.reply_status decoder.buffer ≡ ok (o, after)

-- The encoder of a reply into which nothing has been written.
abbrev pub untouched : Encoder
untouched = record { buffer = []; offset = 24; size_stack = [] }

module _ (host there : ByteOrder) (id : ℕ) (ex : SystemException) (minor : ℕ)
    (completed : CompletionStatus) (c : Option Endpoints) (remote : Option HostAndPort)
    (o : Outcome)
    (throws : (d : Decoder) → throw_system there (rep_id ex) minor completed d ≡ ok (o, d))
    (named : IsNamed completed) (minor_fits : minor < 2 ^ 32) (id_fits : id < 2 ^ 32) where
  raised : Encoder
  raised = write_system_exception host ex minor completed untouched

  written : Written (some host) (read_system_exception there) o untouched raised
  unfolding raised
  written =
      exception-Codec host there ex minor completed o minor_fits named throws untouched
        (omega arith)

  raised_short : raised.offset < 2 ^ 32
  unfolding raised write_system_exception write_c_string write_ulong
  raised_short =
      let id_octets = c_string (rep_id ex) in
      let e1 : Encoder = write_string host id_octets untouched in
      let e2 : Encoder = write_word host 4 minor e1 in
      omega (
        arith,
        string_bound host id_octets untouched,
        ap length (c_string-rep_id ex),
        length-rep_id ex,
        word_bound host 4 minor e1 (omega arith),
        word_bound host 4 (completion_code completed) e2 (omega arith),
      )

  laid : wire raised ≡ replicate 12 0 ++ (replicate 12 0 ++ written.bytes)
  laid = written.wire_eq ∙ (unfold wire resize in refl)

  -- The reply of an exception, into which nothing else was written.
  reply-Ends : Ends there remote id o (
      reply host id ReplyStatus.system_exception (record {
        buffer = write_system_exception host ex minor completed untouched;
        major_version = 1;
        minor_version = 2;
        connection = c;
      }))
  unfolding raised two_way_reply
  reply-Ends =
      let back : Returned host there id ReplyStatus.system_exception raised c (replicate 12 0)
          (replicate 12 0) written.bytes written.appends laid refl refl raised_short remote
          (receive_reply there remote (
            reply host id ReplyStatus.system_exception
              (record { buffer = raised; major_version = 1; minor_version = 2; connection = c }))) =
        reply-Returned host there id ReplyStatus.system_exception raised c (replicate 12 0)
          (replicate 12 0) written.bytes written.appends laid refl refl raised_short remote id_fits
          (unfold reply_status_code in omega arith)
          (unfold reply_status reply_status_code in refl) in
      record {
        decoder = back.decoder;
        after = cursor (some host) (back.front ++ written.bytes) [];
        received = back.result;
        thrown =
            ap (λ s. two_way_reply there s back.decoder.buffer) back.status_eq
            ∙ ap (read_system_exception there) back.buffer_eq
            ∙ ap (λ xs. read_system_exception there (cursor (some host) back.front xs))
                (sym (append-nil written.bytes))
            ∙ written.reads back.front [] back.length_front;
      }

-- A request for an object key without a servant that expects a response is answered, and the
-- answer ends the call at the client with OBJECT_NOT_EXIST, the minor code 0x4f4d0001 and the
-- status that nothing was completed. The request is of GIOP 1.2 and its id fits 32 bits.
pub serve-object_not_exist :
    (host there : ByteOrder) (c : Endpoints) (request : RequestHeader) (d : GiopDecoder)
    (remote : Option HostAndPort)
    → d.major_version ≡ 1
    → d.minor_version ≡ 2
    → request.response_expected ≡ true
    → request.request_id < 2 ^ 32
    → (packet : List ℕ) × (serve host c request d none ≡ ok (answers packet))
      × Ends there remote request.request_id
          (system SystemException.object_not_exist 0x4f4d0001 completed_no)
          packet
unfolding serve object_not_exist reply_encoder answer_if skip_reply_header new_encoder
serve-object_not_exist host there c request d remote major minor expected id_fits =
    let ends =
      reply-Ends host there request.request_id SystemException.object_not_exist 0x4f4d0001
        completed_no (some (connected c d.remote)) remote
        (system SystemException.object_not_exist 0x4f4d0001 completed_no)
        (throw_system-rep_id there SystemException.object_not_exist tt 0x4f4d0001 completed_no) tt
        (omega arith) id_fits in
    (
      reply host request.request_id ReplyStatus.system_exception (record {
        buffer =
            write_system_exception host SystemException.object_not_exist 0x4f4d0001 completed_no
              untouched;
        major_version = 1;
        minor_version = 2;
        connection = some (connected c d.remote);
      }),
      rw (expected, major, minor) refl,
      ends,
    )

module _ (host there : ByteOrder) (c : Endpoints) (request : RequestHeader) (d : GiopDecoder)
    (servant : Servant) (minor : ℕ) (completed : CompletionStatus) (remote : Option HostAndPort)
    (major_1 : d.major_version ≡ 1) (minor_2 : d.minor_version ≡ 2)
    (expected : request.response_expected ≡ true) (id_fits : request.request_id < 2 ^ 32)
    (minor_fits : minor < 2 ^ 32) (status : IsNamed completed)
    (other : bytes_eq request.operation (codes "_is_a") ≡ false) where
  serve-thrown :
      (ex : SystemException) (o : Outcome)
      → ((after : Decoder) → throw_system there (rep_id ex) minor completed after ≡ ok (o, after))
      → servant.dispatch request.operation d (reply_encoder c d)
        ≡ throws_system ex minor completed (reply_encoder c d)
      → (packet : List ℕ) × (serve host c request d (some servant) ≡ ok (answers packet))
        × Ends there remote request.request_id o packet
  unfolding serve finish_call reply_encoder answer_if skip_reply_header new_encoder
  serve-thrown ex o throws ending = (
    reply host request.request_id ReplyStatus.system_exception (record {
      buffer = write_system_exception host ex minor completed untouched;
      major_version = 1;
      minor_version = 2;
      connection = some (connected c d.remote);
    }),
    rw (other, ending, expected, major_1, minor_2) refl,
    reply-Ends host there request.request_id ex minor completed (some (connected c d.remote)) remote
        o throws status minor_fits id_fits,
  )

  -- A system exception with which a servant ends a call is thrown at the client.
  -- `ORB::socketRcvd` answers the request with a packet, and from that packet the client takes a
  -- reply to the same request id with the status of a system exception, and `ORB::_twowayCall`
  -- throws the same class with the same minor code and completion status, between machines of
  -- either byte order. The request is of GIOP 1.2, expects a response, has an id of 32 bits and
  -- is not `_is_a`; the servant has thrown before it has written anything; and the class is any
  -- but `NO_RESOURCES`, the minor code has 32 bits and the enumeration names the status.
  pub serve-Ends :
      (ex : SystemException)
      → IsRecognised ex
      → servant.dispatch request.operation d (reply_encoder c d)
        ≡ throws_system ex minor completed (reply_encoder c d)
      → (packet : List ℕ) × (serve host c request d (some servant) ≡ ok (answers packet))
        × Ends there remote request.request_id (system ex minor completed) packet
  serve-Ends ex recognised ending =
      serve-thrown ex (system ex minor completed)
        (throw_system-rep_id there ex recognised minor completed) ending

  -- A `NO_RESOURCES` exception with which a servant ends a call is not thrown as such at the
  -- client. The answer of `ORB::socketRcvd` is taken as a reply to the same request id with the
  -- status of a system exception, but `ORB::_twowayCall` throws an unknown system exception with
  -- the identifier of `NO_RESOURCES`, without the minor code and the status. The request is of
  -- GIOP 1.2, expects a response, has an id of 32 bits and is not `_is_a`, the servant has thrown
  -- before it has written anything, the minor code has 32 bits and the enumeration names the
  -- status.
  pub serve-no_resources :
      servant.dispatch request.operation d (reply_encoder c d)
        ≡ throws_system SystemException.no_resources minor completed (reply_encoder c d)
      → (packet : List ℕ) × (serve host c request d (some servant) ≡ ok (answers packet))
        × Ends there remote request.request_id
            (unknown_system (rep_id SystemException.no_resources))
            packet
  serve-no_resources ending =
      serve-thrown SystemException.no_resources
        (unknown_system (rep_id SystemException.no_resources))
        (no_resources-unknown_system there minor completed) ending
