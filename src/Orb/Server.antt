-- ===== src/Orb/Server.antt =====
-- `ORB::socketRcvd` of orb.cc: what an ORB does with a packet. The servants are arguments: the
-- skeletons and their methods are generated for, and written by, the user of the library.
pub mod Silence
pub mod Reply
pub mod Raised
use corba_cc.Base.{
  ℕ, List, [], ◌∷◌, Bool, true, false, Option, none, some, ◌==◌, if◌then◌else◌, bytes_eq, codes,
  length, Result, ok, err, ◌>>=◌,
}
use corba_cc.Cdr.Bytes.{ByteOrder}
use corba_cc.Cdr.Encoder.{
  Encoder, new_encoder, write_boolean, write_ulong, write_string, write_c_string,
}
use corba_cc.Cdr.Decoder.{Decoder, new_decoder, read_string_view}
use corba_cc.Giop.Enums.{MessageType, ReplyStatus, LocateStatusType}
use corba_cc.Giop.Types.{HostAndPort, Endpoints, RequestHeader, ReplyHeader, LocateRequest}
use corba_cc.Giop.Encoder.{
  GiopEncoder, new_giop_encoder, on_buffer, skip_reply_header, set_giop_header, set_reply_header,
  encode_locate_reply,
}
use corba_cc.Giop.Decoder.{
  GiopDecoder, new_giop_decoder, scan_giop_header, scan_request_header, scan_locate_request,
  scan_reply_header,
}
use corba_cc.Orb.Table.{find}
use corba_cc.Orb.Exceptions.{
  SystemException, CompletionStatus, completed_no, generic_id, write_system_exception,
}

-- How the coroutine of `_dispatch` ends, with what it has written by then. The text of an exception
-- that is not of CORBA is the one that the reply carries.
pub data Dispatched : Type 0 where
  completes throws_user : GiopEncoder → Dispatched
  throws_system : SystemException → ℕ → CompletionStatus → GiopEncoder → Dispatched
  throws_std : List ℕ → GiopEncoder → Dispatched
  throws_other : Dispatched

pub record Servant : Type 0 where
  pub repository_id : List ℕ
  pub dispatch : List ℕ → GiopDecoder → GiopEncoder → Dispatched

-- What a packet makes the ORB do: nothing, send a packet, or resume the call that waits for a reply.
pub data Reaction : Type 0 where
  silent : Reaction
  answers : List ℕ → Reaction
  resumes : ReplyHeader → GiopDecoder → Reaction
  unimplemented : MessageType → Reaction

-- `setGIOPHeader` and `setReplyHeader`, and the packet that is sent.
unfoldable pub reply : ByteOrder → ℕ → ReplyStatus → GiopEncoder → List ℕ
reply host request_id status g =
    (set_reply_header host request_id status
      (set_giop_header host MessageType.reply g)).buffer.buffer

-- The end points, with the remote one that the service contexts of the packet have left.
abbrev pub connected : Endpoints → Option HostAndPort → Endpoints
connected c none = c
connected c (some remote) = record c { remote = remote }

-- The encoder of a reply: the version is that of the request.
unfoldable pub reply_encoder : Endpoints → GiopDecoder → GiopEncoder
reply_encoder c d = record {
  buffer = skip_reply_header new_encoder;
  major_version = d.major_version;
  minor_version = d.minor_version;
  connection = some (connected c d.remote);
}

unfoldable pub answer_if : Bool → List ℕ → Reaction
answer_if expected packet = if expected then answers packet else silent

unfoldable pub object_not_exist : ByteOrder → RequestHeader → GiopEncoder → Reaction
object_not_exist host request g = answer_if request.response_expected (
    reply host request.request_id ReplyStatus.system_exception (
      on_buffer
        (write_system_exception host SystemException.object_not_exist 0x4f4d0001 completed_no) g))

-- The callbacks of `thenOrCatch`.
unfoldable pub finish_call : ByteOrder → RequestHeader → Dispatched → Reaction
finish_call host request (completes g) =
    answer_if request.response_expected (reply host request.request_id ReplyStatus.no_exception g)
finish_call host request (throws_user g) =
    answer_if request.response_expected (reply host request.request_id ReplyStatus.user_exception g)
finish_call host request (throws_system ex minor completed g) =
    answer_if request.response_expected (
      reply host request.request_id ReplyStatus.system_exception
        (on_buffer (write_system_exception host ex minor completed) g))
finish_call host request (throws_std text g) = answer_if request.response_expected (
    reply host request.request_id ReplyStatus.system_exception (
      on_buffer
        (λ e.
          write_string host text
            (write_ulong host 0 (write_ulong host 0 (write_c_string host generic_id e))))
        g))
finish_call host request throws_other = silent

-- The operation `_is_a`, which the ORB answers itself.
unfoldable pub answer_is_a :
    ByteOrder → Endpoints → RequestHeader → Servant → GiopDecoder → Result Reaction
answer_is_a host c request servant d = do
  (id, d1) ← read_string_view host d.buffer
  ok (
      answers (
        reply host request.request_id ReplyStatus.no_exception
          (on_buffer (write_boolean (bytes_eq id servant.repository_id)) (reply_encoder c d))))

unfoldable pub serve :
    ByteOrder → Endpoints → RequestHeader → GiopDecoder → Option Servant → Result Reaction
serve host c request d none = ok (object_not_exist host request (reply_encoder c d))
serve host c request d (some servant) =
    if bytes_eq request.operation (codes "_is_a")
    then (answer_is_a host c request servant d)
    else ok (finish_call host request (servant.dispatch request.operation d (reply_encoder c d)))

unfoldable pub locate_status_of : Option Servant → LocateStatusType
locate_status_of none = LocateStatusType.unknown_object
locate_status_of (some servant) = LocateStatusType.object_here

unfoldable pub locate :
    ByteOrder → Endpoints → GiopDecoder → LocateRequest → Option Servant → Reaction
locate host c d request found =
    let g = record (reply_encoder c d) { buffer = new_encoder } in
    answers
      (set_giop_header host MessageType.locate_reply
        (encode_locate_reply host request.request_id (locate_status_of found) g)).buffer.buffer

-- The `switch` over the type of the message.
unfoldable pub react :
    ByteOrder → List (List ℕ × Servant) → Endpoints → MessageType → GiopDecoder → Result Reaction
react host servants c MessageType.request d = do
  (request, d1) ← scan_request_header host d
  serve host c request d1 (find request.object_key servants)
react host servants c MessageType.reply d = do
  (header, d1) ← scan_reply_header host d
  ok (resumes header d1)
react host servants c MessageType.locate_request d = do
  (request, d1) ← scan_locate_request host d
  ok (locate host c d1 request (find request.object_key servants))
react host servants c MessageType.message_error d = ok silent
react host servants c type d = ok (unimplemented type)

unfoldable pub socket_rcvd :
    ByteOrder → List (List ℕ × Servant) → Endpoints → List ℕ → Result Reaction
socket_rcvd host servants c packet = if length packet == 0 then ok silent else do
  d ← scan_giop_header host (new_giop_decoder (new_decoder packet) (some c.remote))
  react host servants c d.message_type d
