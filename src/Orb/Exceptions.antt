-- ===== src/Orb/Exceptions.antt =====
-- The system exceptions of exception.hh, how the ORB of orb.cc sends one in a reply, and what
-- `ORB::_twowayCall` throws for it.
pub mod RoundTrip
use corba_cc.Base.{
  ℕ, List, Bool, Option, none, some, codes, bytes_eq, ◌==◌, if◌then◌else◌, Result, ok, err, ◌>>=◌,
}
use corba_cc.Cdr.Bytes.{ByteOrder}
use corba_cc.Cdr.Encoder.{Encoder, write_ulong, write_c_string}
use corba_cc.Cdr.Decoder.{Decoder, Read, read_string, read_ulong}
use corba_cc.Giop.Enums.{ReplyStatus}

-- The classes derived from `SystemException`.
pub data SystemException : Type 0 where
  bad_inv_order activity_completed activity_required bad_context : SystemException
  bad_operation bad_param bad_typecode codeset_incompatible : SystemException
  data_conversion imp_limit initialize internal intf_repos : SystemException
  invalid_activity inv_objref inv_policy marshal no_implement : SystemException
  no_resources no_response object_adapter object_not_exist timeout : SystemException
  transaction_rolledback transient unknown no_permission rebind : SystemException
  comm_failure : SystemException

unfoldable pub rep_id : SystemException → List ℕ
rep_id bad_inv_order = codes "IDL:omg.org/CORBA/BAD_INV_ORDER:1.0"
rep_id activity_completed = codes "IDL:omg.org/CORBA/ACTIVITY_COMPLETED:1.0"
rep_id activity_required = codes "IDL:omg.org/CORBA/ACTIVITY_REQUIRED:1.0"
rep_id bad_context = codes "IDL:omg.org/CORBA/BAD_CONTEXT:1.0"
rep_id bad_operation = codes "IDL:omg.org/CORBA/BAD_OPERATION:1.0"
rep_id bad_param = codes "IDL:omg.org/CORBA/BAD_PARAM:1.0"
rep_id bad_typecode = codes "IDL:omg.org/CORBA/BAD_TYPECODE:1.0"
rep_id codeset_incompatible = codes "IDL:omg.org/CORBA/CODESET_INCOMPATIBLE:1.0"
rep_id data_conversion = codes "IDL:omg.org/CORBA/DATA_CONVERSION:1.0"
rep_id imp_limit = codes "IDL:omg.org/CORBA/IMP_LIMIT:1.0"
rep_id initialize = codes "IDL:omg.org/CORBA/INITIALIZE:1.0"
rep_id internal = codes "IDL:omg.org/CORBA/INTERNAL:1.0"
rep_id intf_repos = codes "IDL:omg.org/CORBA/INTF_REPOS:1.0"
rep_id invalid_activity = codes "IDL:omg.org/CORBA/INVALID_ACTIVITY:1.0"
rep_id inv_objref = codes "IDL:omg.org/CORBA/INV_OBJREF:1.0"
rep_id inv_policy = codes "IDL:omg.org/CORBA/INV_POLICY:1.0"
rep_id marshal = codes "IDL:omg.org/CORBA/MARSHAL:1.0"
rep_id no_implement = codes "IDL:omg.org/CORBA/NO_IMPLEMENT:1.0"
rep_id no_resources = codes "IDL:omg.org/CORBA/NO_RESOURCES:1.0"
rep_id no_response = codes "IDL:omg.org/CORBA/NO_RESPONSE:1.0"
rep_id object_adapter = codes "IDL:omg.org/CORBA/OBJECT_ADAPTER:1.0"
rep_id object_not_exist = codes "IDL:omg.org/CORBA/OBJECT_NOT_EXIST:1.0"
rep_id timeout = codes "IDL:omg.org/CORBA/TIMEOUT:1.0"
rep_id transaction_rolledback = codes "IDL:omg.org/CORBA/TRANSACTION_ROLLEDBACK:1.0"
rep_id transient = codes "IDL:omg.org/CORBA/TRANSIENT:1.0"
rep_id unknown = codes "IDL:omg.org/CORBA/UNKNOWN:1.0"
rep_id no_permission = codes "IDL:omg.org/CORBA/NO_PERMISSION:1.0"
rep_id rebind = codes "IDL:omg.org/CORBA/REBIND:1.0"
rep_id comm_failure = codes "IDL:omg.org/CORBA/COMM_FAILURE:1.0"

pub data CompletionStatus : Type 0 where
  completed_yes completed_no completed_maybe : CompletionStatus
  other_status : ℕ → CompletionStatus

-- The cast of the number in the reply to `CompletionStatus`, and the number that is sent.
unfoldable pub completion_status : ℕ → CompletionStatus
completion_status n =
    if n == 0
    then completed_yes
    else if n == 1
    then completed_no
    else if n == 2
    then completed_maybe
    else other_status n

unfoldable pub completion_code : CompletionStatus → ℕ
completion_code completed_yes = 0
completion_code completed_no = 1
completion_code completed_maybe = 2
completion_code (other_status n) = n

-- The comparisons of `ORB::_twowayCall`, in their order.
unfoldable pub system_exception : List ℕ → Option SystemException
system_exception id =
    if bytes_eq id (codes "IDL:omg.org/CORBA/BAD_INV_ORDER:1.0")
    then some bad_inv_order
    else if bytes_eq id (codes "IDL:omg.org/CORBA/ACTIVITY_COMPLETED:1.0")
    then some activity_completed
    else if bytes_eq id (codes "IDL:omg.org/CORBA/ACTIVITY_REQUIRED:1.0")
    then some activity_required
    else if bytes_eq id (codes "IDL:omg.org/CORBA/BAD_CONTEXT:1.0")
    then some bad_context
    else if bytes_eq id (codes "IDL:omg.org/CORBA/BAD_OPERATION:1.0")
    then some bad_operation
    else if bytes_eq id (codes "IDL:omg.org/CORBA/BAD_PARAM:1.0")
    then some bad_param
    else if bytes_eq id (codes "IDL:omg.org/CORBA/BAD_TYPECODE:1.0")
    then some bad_typecode
    else if bytes_eq id (codes "IDL:omg.org/CORBA/CODESET_INCOMPATIBLE:1.0")
    then some codeset_incompatible
    else if bytes_eq id (codes "IDL:omg.org/CORBA/DATA_CONVERSION:1.0")
    then some data_conversion
    else if bytes_eq id (codes "IDL:omg.org/CORBA/IMP_LIMIT:1.0")
    then some imp_limit
    else if bytes_eq id (codes "IDL:omg.org/CORBA/INITIALIZE:1.0")
    then some initialize
    else if bytes_eq id (codes "IDL:omg.org/CORBA/INTERNAL:1.0")
    then some internal
    else if bytes_eq id (codes "IDL:omg.org/CORBA/INTF_REPOS:1.0")
    then some intf_repos
    else if bytes_eq id (codes "IDL:omg.org/CORBA/INVALID_ACTIVITY:1.0")
    then some invalid_activity
    else if bytes_eq id (codes "IDL:omg.org/CORBA/INV_OBJREF:1.0")
    then some inv_objref
    else if bytes_eq id (codes "IDL:omg.org/CORBA/INV_POLICY:1.0")
    then some inv_policy
    else if bytes_eq id (codes "IDL:omg.org/CORBA/MARSHAL:1.0")
    then some marshal
    else if bytes_eq id (codes "IDL:omg.org/CORBA/NO_IMPLEMENT:1.0")
    then some no_implement
    else if bytes_eq id (codes "IDL:omg.org/CORBA/NO_RESPONSE:1.0")
    then some no_response
    else if bytes_eq id (codes "IDL:omg.org/CORBA/OBJECT_ADAPTER:1.0")
    then some object_adapter
    else if bytes_eq id (codes "IDL:omg.org/CORBA/OBJECT_NOT_EXIST:1.0")
    then some object_not_exist
    else if bytes_eq id (codes "IDL:omg.org/CORBA/TIMEOUT:1.0")
    then some timeout
    else if bytes_eq id (codes "IDL:omg.org/CORBA/TRANSACTION_ROLLEDBACK:1.0")
    then some transaction_rolledback
    else if bytes_eq id (codes "IDL:omg.org/CORBA/TRANSIENT:1.0")
    then some transient
    else if bytes_eq id (codes "IDL:omg.org/CORBA/UNKNOWN:1.0")
    then some unknown
    else if bytes_eq id (codes "IDL:omg.org/CORBA/NO_PERMISSION:1.0")
    then some no_permission
    else if bytes_eq id (codes "IDL:omg.org/CORBA/REBIND:1.0")
    then some rebind
    else if bytes_eq id (codes "IDL:omg.org/CORBA/COMM_FAILURE:1.0")
    then some comm_failure
    else none

abbrev pub generic_id : List ℕ
generic_id = codes "IDL:mark13.org/CORBA/GENERIC:1.0"

-- What a two way call ends in, once its reply is there.
pub data Outcome : Type 0 where
  returned : Outcome
  user_exception : Outcome
  system : SystemException → ℕ → CompletionStatus → Outcome
  generic : List ℕ → Outcome
  unknown_system : List ℕ → Outcome
  unsupported_status : Outcome

-- What the comparisons decide; the generic exception carries one more string.
unfoldable pub throw_found :
    ByteOrder → List ℕ → ℕ → CompletionStatus → Decoder → Option SystemException → Read Outcome
throw_found there id minor status d (some ex) = ok (system ex minor status, d)
throw_found there id minor status d none =
    if bytes_eq id generic_id
    then (read_string there d >>= λ x. ok (generic x.0, x.1))
    else ok (unknown_system id, d)

unfoldable pub throw_system : ByteOrder → List ℕ → ℕ → CompletionStatus → Decoder → Read Outcome
throw_system there id minor status d = throw_found there id minor status d (system_exception id)

unfoldable pub read_system_exception : ByteOrder → Decoder → Read Outcome
read_system_exception there d = do
  (id, d1) ← read_string there d
  (minor, d2) ← read_ulong there d1
  (completed, d3) ← read_ulong there d2
  throw_system there id minor (completion_status completed) d3

-- The `switch` over the reply status.
unfoldable pub two_way_reply : ByteOrder → ReplyStatus → Decoder → Read Outcome
two_way_reply there ReplyStatus.no_exception d = ok (returned, d)
two_way_reply there ReplyStatus.user_exception d = ok (user_exception, d)
two_way_reply there ReplyStatus.system_exception d = read_system_exception there d
two_way_reply there _ d = ok (unsupported_status, d)

-- `writeString(error._rep_id())` and the two numbers behind it, as `ORB::socketRcvd` writes them.
unfoldable pub write_system_exception :
    ByteOrder → SystemException → ℕ → CompletionStatus → Encoder → Encoder
write_system_exception host ex minor completed e =
    write_ulong host (completion_code completed)
      (write_ulong host minor (write_c_string host (rep_id ex) e))
