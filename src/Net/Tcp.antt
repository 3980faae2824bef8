-- ===== src/Net/Tcp.antt =====
-- `TcpConnection` of net/tcp/connection.cc: a connection's state, its operations, and the callbacks that
-- the event loop runs. The answers of the operating system are arguments.
pub mod Sending
pub mod Steps
pub mod Sockets
pub mod Waiting
pub mod Reading
use corba_cc.Base.{
  ℕ, zero, suc, ◌+◌, ◌-◌, ◌==◌, if◌then◌else◌, List, [], ◌∷◌, ◌++◌, Bool, true, false, Option, none,
  some, length, take, drop, Result, ok, err, ◌>>=◌, Error, fd_already_set, connect_failed,
}
use corba_cc.Cdr.Bytes.{ByteOrder}
use corba_cc.Net.Stream.{Stream, buffer, feed}

-- `ConnectionState` of net/connection.hh.
pub data ConnectionState : Type 0 where
  idle pending in_progress established : ConnectionState

-- `fd` is `none` for -1; `reading` and `writing` say whether the watchers are active. `waiting` is the
-- interlock of the coroutines that wait for a reply.
pub record Tcp (W : Type 0) : Type 0 where
  pub fd : Option ℕ
  pub state : ConnectionState
  pub send_buffer : List (List ℕ)
  pub bytes_send : ℕ
  pub reading : Bool
  pub writing : Bool
  pub timer_active : Bool
  pub stream : Stream
  pub waiting : W

-- What `connect_to` gives: -1, a socket whose connect is in progress, or a connected one.
pub data Connect : Type 0 where
  refused : Connect
  connecting connected : ℕ → Connect

-- What the system call `send` gives: the number of octets taken, or the error.
pub data Sent : Type 0 where
  sent : ℕ → Sent
  would_block broken_pipe send_error : Sent

-- What the system call `recv` gives: octets, none at the end of the stream, or the error.
pub data Received : Type 0 where
  octets : List ℕ → Received
  try_again receive_error : Received

-- The interlock of the library async.cc: the ids of the waiting coroutines in order, and `resume`, which
-- takes one out.
pub record Interlock (W : Type 0) : Type 0 where
  pub size : W → ℕ
  pub first : W → Option ℕ
  pub resume : ℕ → W → W

module _ {W : Type 0} where
  unfoldable pub new_tcp : Stream → W → Tcp W
  new_tcp s w = record {
    fd = none;
    state = idle;
    send_buffer = [];
    bytes_send = 0;
    reading = false;
    writing = false;
    timer_active = false;
    stream = s;
    waiting = w;
  }

  -- A connection with the socket `fd` and its timer on.
  unfoldable pub opened : ℕ → Tcp W → Tcp W
  opened fd c = record c { fd = some fd; timer_active = true }

  -- `up()`, by what `connect_to` gives. It throws when there is no socket.
  unfoldable pub connect : Connect → Tcp W → Option Error × Tcp W
  connect refused c = (some connect_failed, record c { state = pending })
  connect (connecting fd) c =
      (none, record (opened fd c) { state = in_progress; writing = true; reading = true })
  connect (connected fd) c = (none, record (opened fd c) { state = established; reading = true })

  unfoldable pub up_from : Option ℕ → Connect → Tcp W → Option Error × Tcp W
  up_from (some fd) answer c = (none, c)
  up_from none answer c = connect answer c

  unfoldable pub up : Connect → Tcp W → Option Error × Tcp W
  up answer c = up_from c.fd answer c

  unfoldable pub queue : List ℕ → Tcp W → Tcp W
  queue packet c = record c { send_buffer = c.send_buffer ++ (packet ∷ []) }

  -- The `switch` of `send`, behind the queue.
  unfoldable pub start : ConnectionState → Connect → Tcp W → Option Error × Tcp W
  start idle answer c = up answer c
  start established answer c = (none, record c { writing = true })
  start _ answer c = (none, c)

  unfoldable pub send : Connect → List ℕ → Tcp W → Option Error × Tcp W
  send answer packet c = start c.state answer (queue packet c)

  unfoldable pub accept_from : Option ℕ → ℕ → Tcp W → Result (Tcp W)
  accept_from (some fd) client c = err fd_already_set
  accept_from none client c =
      ok (record c { fd = some client; reading = true; state = established })

  unfoldable pub accept : ℕ → Tcp W → Result (Tcp W)
  accept client c = accept_from c.fd client c

-- How the loop of `canWrite` ends: with the buffer empty, on a call that took only a part or failed, or
-- on a broken connection.
pub data Ending : Type 0 where
  drained stopped broken : Ending

pub record Flush : Type 0 where
  pub out : List ℕ
  pub rest : List (List ℕ)
  pub bytes_send : ℕ
  pub ending : Ending

unfoldable pub ended : Ending → List (List ℕ) → ℕ → Flush
ended e rest n = record { out = []; rest = rest; bytes_send = n; ending = e }

abbrev pub preceded : List ℕ → Flush → Flush
preceded bs f = record f { out = bs ++ f.out }

-- One round of the loop, for the packet in front, of which `n` octets are out: `answer` is that of the
-- system call, and `next` is the rest of the loop.
unfoldable pub flush_front : Sent → Flush → List ℕ → List (List ℕ) → ℕ → Flush
flush_front (sent k) next p ps n =
    let bs = take k (drop n p) in
    if k == length p - n then (preceded bs next) else preceded bs (ended stopped (p ∷ ps) (n + k))
flush_front would_block next p ps n = ended stopped (p ∷ ps) n
flush_front broken_pipe next p ps n = ended broken (p ∷ ps) n
flush_front send_error next p ps n = ended stopped (p ∷ ps) n

-- The loop of `canWrite`; `answers i n` is the answer of the call `i`, which offers `n` octets.
unfoldable pub flush : (ℕ → ℕ → Sent) → List (List ℕ) → ℕ → Flush
flush answers [] n = ended drained [] n
flush answers (p ∷ ps) n =
    flush_front (answers 0 (length p - n)) (flush (λ i. answers (suc i)) ps 0) p ps n

-- Whether `canWrite` finds that the connect has failed; `peer` says whether `getpeername` succeeds.
unfoldable pub is_unconnected : Bool → ConnectionState → Bool
is_unconnected peer in_progress = if peer then false else true
is_unconnected peer _ = false

module _ {W : Type 0} where
  -- The socket is closed; the watchers stay as they are.
  unfoldable pub lost : Tcp W → Tcp W
  lost c = record c { state = idle; fd = none }

  -- `canWrite()` behind the loop, which ended in one of three ways.
  unfoldable pub finish : Ending → Tcp W → Tcp W
  finish drained c = c
  finish stopped c = record c { writing = true }
  finish broken c = lost c

  unfoldable pub flushed : Flush → Tcp W → Tcp W
  flushed f c = finish f.ending (record c { send_buffer = f.rest; bytes_send = f.bytes_send })

  -- `canWrite()`: the octets that went out, and the state behind it.
  unfoldable pub can_write : Bool → (ℕ → ℕ → Sent) → Tcp W → List ℕ × Tcp W
  can_write peer answers c =
      let c1 = record c { writing = false } in
      let f = flush answers c.send_buffer c.bytes_send in
      if is_unconnected peer c.state then ([], lost c1) else (f.out, flushed f c1)

  -- `while (!interlock.empty()) interlock.resume(interlock.begin()->first, …)`; `next` is the loop behind
  -- one `resume`.
  unfoldable pub resume_first : Option ℕ → (ℕ → List ℕ × W) → W → List ℕ × W
  resume_first none next w = ([], w)
  resume_first (some i) next w = (i ∷ (next i).0, (next i).1)

  unfoldable pub resume_all : Interlock W → ℕ → W → List ℕ × W
  resume_all I zero w = ([], w)
  resume_all I (suc fuel) w = resume_first (I.first w) (λ i. resume_all I fuel (I.resume i w)) w

  -- The read handler stops, the socket is closed, and every waiting call is resumed with an exception.
  unfoldable pub fail : Interlock W → Tcp W → List ℕ × Tcp W
  fail I c =
      let r = resume_all I (suc (I.size c.waiting)) c.waiting in
      (r.0, record c { reading = false; fd = none; state = idle; waiting = r.1 })

  -- A first answer of the peer ends the connect.
  unfoldable pub confirm : ConnectionState → Tcp W → Tcp W
  confirm in_progress c = record c { state = established; timer_active = false }
  confirm _ c = c

  unfoldable pub confirmed : Tcp W → Tcp W
  confirmed c = confirm c.state c

  -- `canRead()`: the messages handed to the ORB, the calls resumed with TRANSIENT, and the state behind
  -- it.
  unfoldable pub can_read :
      ByteOrder → Interlock W → Received → Tcp W → Result ((List (List ℕ) × List ℕ) × Tcp W)
  can_read there I try_again c = ok (([], []), record c { stream = buffer c.stream })
  can_read there I receive_error c =
      let r = fail I (record c { stream = buffer c.stream }) in ok (([], r.0), r.1)
  can_read there I (octets []) c = ok (([], []), record (confirmed c) { stream = buffer c.stream })
  can_read there I (octets (b ∷ bs)) c =
      feed there c.stream (b ∷ bs) >>= λ x. ok ((x.0, []), record (confirmed c) { stream = x.1 })

  -- `timer()`: the calls that it resumes with TIMEOUT, and the state behind it.
  unfoldable pub timer_in : ConnectionState → Interlock W → Tcp W → List ℕ × Tcp W
  timer_in in_progress I c = fail I c
  timer_in _ I c = ([], c)

  unfoldable pub timer : Interlock W → Tcp W → List ℕ × Tcp W
  timer I c = timer_in c.state I c
