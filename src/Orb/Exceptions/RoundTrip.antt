-- ===== src/Orb/Exceptions/RoundTrip.antt =====
-- System exceptions between the reply that orb.cc writes and the one that it reads.
use corba_cc.Base.{
  ℕ, ◌^◌, ◌<◌, ◌≡◌, refl, sym, ap, some, arith, length, ok, ◌>>=◌, bytes_eq, [], append-nil,
}
use corba_cc.Cdr.Bytes.{ByteOrder}
use corba_cc.Cdr.Encoder.{write_ulong, write_word, write_string, write_c_string, c_string}
use corba_cc.Cdr.Decoder.{Decoder, read_ulong, read_word, read_string}
use corba_cc.Cdr.Encoder.Append.{wire}
use corba_cc.Cdr.Decoder.Cursor.{cursor}
use corba_cc.Cdr.Codec.{Codec, Written, word-Codec, Written-seq}
use corba_cc.Cdr.RoundTrip.{string-Codec}
use corba_cc.Orb.Exceptions.{
  SystemException, rep_id, system_exception, CompletionStatus, completed_yes, completed_no,
  completed_maybe, other_status, completion_status, completion_code, system, throw_system,
  read_system_exception, write_system_exception, unknown_system, throw_found, Outcome,
}

-- The classes that `ORB::_twowayCall` compares with: all but `NO_RESOURCES`.
abbrev pub IsRecognised : SystemException → Type 0
IsRecognised SystemException.no_resources = ⊥
IsRecognised _ = Unit {0}

-- Each identifier that is compared with is recognised as that of its class.
pub system_exception-rep_id :
    (ex : SystemException) → IsRecognised ex → system_exception (rep_id ex) ≡ some ex
unfolding system_exception rep_id bytes_eq
system_exception-rep_id SystemException.bad_inv_order h = refl
system_exception-rep_id SystemException.activity_completed h = refl
system_exception-rep_id SystemException.activity_required h = refl
system_exception-rep_id SystemException.bad_context h = refl
system_exception-rep_id SystemException.bad_operation h = refl
system_exception-rep_id SystemException.bad_param h = refl
system_exception-rep_id SystemException.bad_typecode h = refl
system_exception-rep_id SystemException.codeset_incompatible h = refl
system_exception-rep_id SystemException.data_conversion h = refl
system_exception-rep_id SystemException.imp_limit h = refl
system_exception-rep_id SystemException.initialize h = refl
system_exception-rep_id SystemException.internal h = refl
system_exception-rep_id SystemException.intf_repos h = refl
system_exception-rep_id SystemException.invalid_activity h = refl
system_exception-rep_id SystemException.inv_objref h = refl
system_exception-rep_id SystemException.inv_policy h = refl
system_exception-rep_id SystemException.marshal h = refl
system_exception-rep_id SystemException.no_implement h = refl
system_exception-rep_id SystemException.no_resources h = elim h [ ]
system_exception-rep_id SystemException.no_response h = refl
system_exception-rep_id SystemException.object_adapter h = refl
system_exception-rep_id SystemException.object_not_exist h = refl
system_exception-rep_id SystemException.timeout h = refl
system_exception-rep_id SystemException.transaction_rolledback h = refl
system_exception-rep_id SystemException.transient h = refl
system_exception-rep_id SystemException.unknown h = refl
system_exception-rep_id SystemException.no_permission h = refl
system_exception-rep_id SystemException.rebind h = refl
system_exception-rep_id SystemException.comm_failure h = refl

pub c_string-rep_id : (ex : SystemException) → c_string (rep_id ex) ≡ rep_id ex
unfolding rep_id c_string
c_string-rep_id SystemException.bad_inv_order = refl
c_string-rep_id SystemException.activity_completed = refl
c_string-rep_id SystemException.activity_required = refl
c_string-rep_id SystemException.bad_context = refl
c_string-rep_id SystemException.bad_operation = refl
c_string-rep_id SystemException.bad_param = refl
c_string-rep_id SystemException.bad_typecode = refl
c_string-rep_id SystemException.codeset_incompatible = refl
c_string-rep_id SystemException.data_conversion = refl
c_string-rep_id SystemException.imp_limit = refl
c_string-rep_id SystemException.initialize = refl
c_string-rep_id SystemException.internal = refl
c_string-rep_id SystemException.intf_repos = refl
c_string-rep_id SystemException.invalid_activity = refl
c_string-rep_id SystemException.inv_objref = refl
c_string-rep_id SystemException.inv_policy = refl
c_string-rep_id SystemException.marshal = refl
c_string-rep_id SystemException.no_implement = refl
c_string-rep_id SystemException.no_resources = refl
c_string-rep_id SystemException.no_response = refl
c_string-rep_id SystemException.object_adapter = refl
c_string-rep_id SystemException.object_not_exist = refl
c_string-rep_id SystemException.timeout = refl
c_string-rep_id SystemException.transaction_rolledback = refl
c_string-rep_id SystemException.transient = refl
c_string-rep_id SystemException.unknown = refl
c_string-rep_id SystemException.no_permission = refl
c_string-rep_id SystemException.rebind = refl
c_string-rep_id SystemException.comm_failure = refl

pub length-rep_id : (ex : SystemException) → length (rep_id ex) < 64
unfolding rep_id
length-rep_id SystemException.bad_inv_order = omega arith
length-rep_id SystemException.activity_completed = omega arith
length-rep_id SystemException.activity_required = omega arith
length-rep_id SystemException.bad_context = omega arith
length-rep_id SystemException.bad_operation = omega arith
length-rep_id SystemException.bad_param = omega arith
length-rep_id SystemException.bad_typecode = omega arith
length-rep_id SystemException.codeset_incompatible = omega arith
length-rep_id SystemException.data_conversion = omega arith
length-rep_id SystemException.imp_limit = omega arith
length-rep_id SystemException.initialize = omega arith
length-rep_id SystemException.internal = omega arith
length-rep_id SystemException.intf_repos = omega arith
length-rep_id SystemException.invalid_activity = omega arith
length-rep_id SystemException.inv_objref = omega arith
length-rep_id SystemException.inv_policy = omega arith
length-rep_id SystemException.marshal = omega arith
length-rep_id SystemException.no_implement = omega arith
length-rep_id SystemException.no_resources = omega arith
length-rep_id SystemException.no_response = omega arith
length-rep_id SystemException.object_adapter = omega arith
length-rep_id SystemException.object_not_exist = omega arith
length-rep_id SystemException.timeout = omega arith
length-rep_id SystemException.transaction_rolledback = omega arith
length-rep_id SystemException.transient = omega arith
length-rep_id SystemException.unknown = omega arith
length-rep_id SystemException.no_permission = omega arith
length-rep_id SystemException.rebind = omega arith
length-rep_id SystemException.comm_failure = omega arith

-- The status that is sent is a value of the enumeration.
abbrev pub IsNamed : CompletionStatus → Type 0
IsNamed (other_status n) = ⊥
IsNamed _ = Unit {0}

completion_status-code :
    (c : CompletionStatus) → IsNamed c → completion_status (completion_code c) ≡ c
unfolding completion_status completion_code
completion_status-code completed_yes h = refl
completion_status-code completed_no h = refl
completion_status-code completed_maybe h = refl
completion_status-code (other_status n) h = elim h [ ]

pub completion_code-lt : (c : CompletionStatus) → IsNamed c → completion_code c < 2 ^ 32
unfolding completion_code
completion_code-lt completed_yes h = omega arith
completion_code-lt completed_no h = omega arith
completion_code-lt completed_maybe h = omega arith
completion_code-lt (other_status n) h = elim h [ ]

pub throw_system-rep_id :
    (there : ByteOrder) (ex : SystemException)
    → IsRecognised ex
    → (minor : ℕ) (c : CompletionStatus) (d : Decoder)
    → throw_system there (rep_id ex) minor c d ≡ ok (system ex minor c, d)
unfolding throw_system throw_found
throw_system-rep_id there ex h minor c d =
    ap (throw_found there (rep_id ex) minor c d) (system_exception-rep_id ex h)

-- The octets of an exception are read back as whatever the client makes of its identifier.
pub exception-Codec :
    (host there : ByteOrder) (ex : SystemException) (minor : ℕ) (c : CompletionStatus) (o : Outcome)
    → minor < 2 ^ 32
    → IsNamed c
    → ((d : Decoder) → throw_system there (rep_id ex) minor c d ≡ ok (o, d))
    → Codec (some host) (write_system_exception host ex minor c) (read_system_exception there) o
unfolding write_system_exception read_system_exception write_ulong read_ulong write_c_string
exception-Codec host there ex minor c o bound named throws e h =
    let id = rep_id ex in
    let first : Written (some host) (read_string there) id e (write_string host (c_string id) e) =
      rw (c_string-rep_id ex) (string-Codec host there id (omega (arith, length-rep_id ex)) e h) in
    let e1 = write_string host (c_string id) e in
    let second = word-Codec host there 4 minor (omega arith) bound e1 first.appends in
    let e2 = write_word host 4 minor e1 in
    let code = completion_code c in
    let third =
      word-Codec host there 4 code (omega arith) (completion_code-lt c named) e2 second.appends in
    let e3 = write_word host 4 code e2 in
    let last : Written (some host) (λ d. throw_system there id minor (completion_status code) d) o
        e3 e3 =
      record {
        bytes = [];
        wire_eq = sym (append-nil (wire e3));
        appends = third.appends;
        reads = λ pre rest at.
            rw (completion_status-code c named, append-nil pre)
              (throws (cursor (some host) pre rest));
      } in
    Written-seq (some host) (read_string there)
      (λ id d. read_word there 4 d >>= λ m.
        read_word there 4 m.1 >>= λ k. throw_system there id m.0 (completion_status k.0) k.1)
      id o e e1 e3 h first
      (Written-seq (some host) (read_word there 4)
        (λ m d. read_word there 4 d >>= λ k. throw_system there id m (completion_status k.0) k.1)
        minor o e1 e2 e3 first.appends second
        (Written-seq (some host) (read_word there 4)
          (λ k d. throw_system there id minor (completion_status k) d) code o e2 e3 e3
          second.appends third last))

-- What `ORB::socketRcvd` writes for a caught system exception, `ORB::_twowayCall` reads back and
-- throws as the same class, with the same minor code and completion status, between machines of
-- either byte order: for every class but `NO_RESOURCES`, a minor code of 32 bits and a status
-- that the enumeration names.
pub system_exception-Codec :
    (host there : ByteOrder) (ex : SystemException) (minor : ℕ) (c : CompletionStatus)
    → IsRecognised ex
    → minor < 2 ^ 32
    → IsNamed c
    → Codec
        (some host)
        (write_system_exception host ex minor c)
        (read_system_exception there)
        (system ex minor c)
system_exception-Codec host there ex minor c recognised bound named =
    exception-Codec host there ex minor c (system ex minor c) bound named
      (throw_system-rep_id there ex recognised minor c)

-- The identifier of `NO_RESOURCES` is not recognised.
pub no_resources-unknown_system :
    (there : ByteOrder) (minor : ℕ) (c : CompletionStatus) (d : Decoder)
    → throw_system there (rep_id SystemException.no_resources) minor c d
      ≡ ok (unknown_system (rep_id SystemException.no_resources), d)
unfolding throw_system rep_id system_exception bytes_eq throw_found
no_resources-unknown_system there minor c d = refl
