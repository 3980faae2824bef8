-- ===== src/Net/Ws.antt =====
-- `WsConnection` of net/ws/connection.cc: the HTTP handshake, and the packets that travel in WebSocket
-- frames behind it. The frames are those of the library wslay, the digest and the encoding of the
-- accept key those of nettle; these, and the answers of the operating system, are arguments.
pub mod Handshake
pub mod Upgrade
pub mod Early
use corba_cc.Base.{
  ℕ, zero, suc, ◌+◌, ◌-◌, ◌==◌, if◌then◌else◌, List, [], ◌∷◌, ◌++◌, Bool, true, false, not, ◌||◌,
  Option, none, some, maybe, length, take, drop, Result, ok, err, ◌>>=◌, Error, codes, find_text,
  bytes_eq, fd_already_set, connect_failed, send_failed, uninitialised,
}
use corba_cc.Giop.Types.{HostAndPort}
use corba_cc.Net.Tcp.{
  ConnectionState, idle, pending, in_progress, established, Connect, refused, connecting, connected,
  Sent, sent, would_block, broken_pipe, send_error, Received, octets, try_again, receive_error,
  Interlock, resume_all,
}
use corba_cc.Url.Printer.{decimal}

pub data WsConnectionState : Type 0 where
  http_server http_client ws : WsConnectionState

-- What `wslay_event_send` gives: 0, a positive number, or the negative one of an error.
pub data SendResult : Type 0 where
  all_sent more_to_send failed : SendResult

-- What `wslay_msg_rcv_callback` is called with.
pub data WsMessage : Type 0 where
  binary_frame : List ℕ → WsMessage
  connection_close : WsMessage
  other_frame : WsMessage

-- The functions of wslay on its context, without the log: an `init` that fails gives `none`, and
-- `event_send` gives the octets that its callback has sent.
pub record Wslay (S : Type 0) : Type 0 where
  pub server_init : Option S
  pub client_init : Option S
  pub queue_msg : List ℕ → S → S
  pub event_send : (ℕ → ℕ → Sent) → S → SendResult × List ℕ × S
  pub event_recv : Received → S → List WsMessage × S

-- `sha1` and `base64` of net/util/createAcceptKey.cc, which nettle computes.
pub record Nettle : Type 0 where
  pub sha1 : List ℕ → List ℕ
  pub base64 : List ℕ → List ℕ

unfoldable pub create_acceptkey : Nettle → List ℕ → List ℕ
create_acceptkey N client_key =
    N.base64 (N.sha1 (client_key ++ codes "258EAFA5-E914-47DA-95CA-C5AB0DC85B11"))

-- `random` is what /dev/urandom gives.
unfoldable pub create_clientkey : Nettle → List ℕ → List ℕ
create_clientkey N random = N.base64 random

-- `ctx` is `none` as long as no `init` of wslay has set it. `local` is `protocol->local`.
pub record Ws (S W : Type 0) : Type 0 where
  pub fd : Option ℕ
  pub state : ConnectionState
  pub wsstate : WsConnectionState
  pub reading : Bool
  pub writing : Bool
  pub timer_active : Bool
  pub headers : List ℕ
  pub client_key : List ℕ
  pub ctx : Option S
  pub send_buffer : List (List ℕ)
  pub local : HostAndPort
  pub waiting : W

abbrev pub crlf : List ℕ
crlf = 13 ∷ 10 ∷ []

-- The request of `httpClientSend`.
unfoldable pub http_request : HostAndPort → List ℕ → List ℕ
http_request local key =
    codes "GET / HTTP/1.1\r\nHost: "
    ++ (local.host
        ++ (b':'
            ∷ (decimal local.port
                ++ (codes "\r\nUpgrade: websocket\r\nConnection: Upgrade\r\nSec-WebSocket-Key: "
                    ++ (key ++ codes "\r\nSec-WebSocket-Version: 13\r\n\r\n")))))

-- The reply of `httpServerRcvd`.
unfoldable pub http_reply : List ℕ → List ℕ
http_reply key =
    codes
      "HTTP/1.1 101 Switching Protocols\r\nUpgrade: websocket\r\nConnection: Upgrade\r\nSec-WebSocket-Accept: "
    ++ (key ++ codes "\r\n\r\n")

-- `substr(start, find("\r\n", start) - start)`.
unfoldable pub rest_of_line : List ℕ → List ℕ
rest_of_line s = maybe (find_text crlf s) s (λ end. take end s)

-- The text behind a field's name, `none` where the name is not found.
unfoldable pub field_value : List ℕ → List ℕ → Option (List ℕ)
field_value name s =
    maybe (find_text name s) none (λ i. some (rest_of_line (drop (i + length name) s)))

abbrev pub has_text : List ℕ → List ℕ → Bool
has_text p s = maybe (find_text p s) false (λ i. true)

unfoldable pub queue_all : {S : Type 0} → Wslay S → List (List ℕ) → S → S
queue_all L [] s = s
queue_all L (p ∷ ps) s = queue_all L ps (L.queue_msg p s)

-- `if (r != 0) startWriteHandler()`
abbrev pub wants_write : SendResult → Bool → Bool
wants_write all_sent old = old
wants_write _ old = true

-- `if (r == 0) stopWriteHandler()`
abbrev still_writing : SendResult → Bool → Bool
still_writing all_sent old = false
still_writing _ old = old

-- The octets of a text that the system call took.
abbrev sent_part : Sent → List ℕ → List ℕ
sent_part (sent k) text = take k text
sent_part _ text = []

-- The packets that `wslay_msg_rcv_callback` hands to `ORB::socketRcvd`.
unfoldable pub delivered : List WsMessage → List (List ℕ)
delivered [] = []
delivered (binary_frame packet ∷ messages) = packet ∷ delivered messages
delivered (connection_close ∷ messages) = delivered messages
delivered (other_frame ∷ messages) = delivered messages

abbrev pub connected_state : ConnectionState → ConnectionState
connected_state in_progress = established
connected_state s = s

module _ {S W : Type 0} where
  unfoldable pub new_ws : WsConnectionState → HostAndPort → W → Ws S W
  new_ws initial local w = record {
    fd = none;
    state = idle;
    wsstate = initial;
    reading = false;
    writing = false;
    timer_active = false;
    headers = [];
    client_key = [];
    ctx = none;
    send_buffer = [];
    local = local;
    waiting = w;
  }

  -- `r != get.size()` throws.
  unfoldable pub sent_whole : Sent → List ℕ → Ws S W → Result (List ℕ × Ws S W)
  sent_whole (sent k) get c = if k == length get then ok (get, c) else err send_failed
  sent_whole _ get c = err send_failed

  -- `flushSendBuffer()`: the octets that go out, and the state behind it. A context that was not set
  -- cannot be used.
  unfoldable pub flush_packets :
      Wslay S → (ℕ → ℕ → Sent) → List (List ℕ) → Ws S W → Result (List ℕ × Ws S W)
  flush_packets L answers [] c = ok ([], c)
  flush_packets L answers (p ∷ ps) c = maybe c.ctx (err uninitialised) λ s.
      let (result, out, s') = L.event_send answers (queue_all L (p ∷ ps) s) in
      ok (out, record c { ctx = some s'; send_buffer = []; writing = wants_write result c.writing })

  unfoldable pub flush_send_buffer : Wslay S → (ℕ → ℕ → Sent) → Ws S W → Result (List ℕ × Ws S W)
  flush_send_buffer L answers c = flush_packets L answers c.send_buffer c

  unfoldable pub opened : ℕ → Ws S W → Ws S W
  opened fd c = record c { fd = some fd; timer_active = true }

  -- `up()`, by what `connect_to` gives. It throws when there is no socket.
  unfoldable pub connect : Connect → Ws S W → Option Error × Ws S W
  connect refused c = (some connect_failed, record c { state = pending })
  connect (connecting fd) c =
      (none, record (opened fd c) { state = in_progress; writing = true; reading = true })
  connect (connected fd) c = (none, record (opened fd c) { state = established; reading = true })

  unfoldable pub up : Connect → Ws S W → Option Error × Ws S W
  up answer c = maybe c.fd (connect answer c) (λ fd. (none, c))

  -- The `switch` of `send`, behind the queue: what it throws, the octets that go out and the state.
  unfoldable pub start :
      Wslay S
      → Connect
      → (ℕ → ℕ → Sent)
      → ConnectionState
      → Ws S W
      → Result (Option Error × List ℕ × Ws S W)
  start L answer answers idle c = let r = up answer c in ok (r.0, [], r.1)
  start L answer answers established c = do
    (out, c') ← flush_send_buffer L answers c
    ok (none, out, c')
  start L answer answers _ c = ok (none, [], c)

  unfoldable pub queue : List ℕ → Ws S W → Ws S W
  queue packet c = record c { send_buffer = c.send_buffer ++ (packet ∷ []) }

  unfoldable pub send :
      Wslay S → Connect → (ℕ → ℕ → Sent) → List ℕ → Ws S W → Result (Option Error × List ℕ × Ws S W)
  send L answer answers packet c = start L answer answers c.state (queue packet c)

  unfoldable pub accept : ℕ → Ws S W → Result (Ws S W)
  accept client c =
      maybe c.fd (ok (record c { fd = some client; reading = true; state = established }))
        (λ fd. err fd_already_set)

  -- `httpClientSend()`, by what the system call `send` gives for the request.
  unfoldable pub http_client_send :
      Nettle → List ℕ → (ℕ → ℕ → Sent) → Ws S W → Result (List ℕ × Ws S W)
  http_client_send N random answers c =
      let key = create_clientkey N random in
      let get = http_request c.local key in
      sent_whole (answers 0 (length get)) get (record c { client_key = key })

  -- `startWSMode()`
  unfoldable pub start_ws_mode : Wslay S → (ℕ → ℕ → Sent) → Ws S W → Result (List ℕ × Ws S W)
  start_ws_mode L answers c = flush_send_buffer L answers (record c { headers = []; wsstate = ws })

  -- What a call of `wslay_event_context_server_init` or `client_init` leaves in `ctx`.
  abbrev initialised : Option S → Ws S W → Ws S W
  initialised new c = record c { ctx = maybe new c.ctx some }

  -- `httpServerRcvd()` behind the `recv` of octets. The reply is sent once, whatever the system call
  -- takes of it.
  unfoldable pub http_server_rcvd :
      Wslay S → Nettle → (ℕ → ℕ → Sent) → List ℕ → Ws S W → Result (List ℕ × Ws S W)
  http_server_rcvd L N answers bytes c =
      let c1 = record c { headers = c.headers ++ bytes } in
      let wait : Result (List ℕ × Ws S W) = ok ([], c1) in
      if not (has_text (crlf ++ crlf) c1.headers)
      then wait
      else if not (has_text (codes "Upgrade: websocket\r\n") c1.headers)
          || not (has_text (codes "Connection: Upgrade\r\n") c1.headers)
      then wait
      else maybe (field_value (codes "Sec-WebSocket-Key: ") c1.headers) wait λ client_key.
        let reply = http_reply (create_acceptkey N client_key) in
        do
          (out, c2) ← start_ws_mode L (λ i. answers (suc i)) (initialised L.server_init c1)
          ok (sent_part (answers 0 (length reply)) reply ++ out, c2)

  -- `httpClientRcvd()` behind the `recv` of octets.
  unfoldable pub http_client_rcvd :
      Wslay S → Nettle → (ℕ → ℕ → Sent) → List ℕ → Ws S W → Result (List ℕ × Ws S W)
  http_client_rcvd L N answers bytes c =
      let c1 = record c { headers = c.headers ++ bytes } in
      let wait : Result (List ℕ × Ws S W) = ok ([], c1) in
      if not (has_text (crlf ++ crlf) c1.headers)
      then wait
      else maybe (field_value (codes "Sec-WebSocket-Accept: ") c1.headers) wait λ accept_key.
        if bytes_eq accept_key (create_acceptkey N c1.client_key)
        then start_ws_mode L answers (initialised L.client_init c1)
        else wait

  -- The handlers of the handshake, by what the socket holds; `recv` takes 8192 octets of it at most.
  unfoldable pub http_rcvd :
      (List ℕ → Ws S W → Result (List ℕ × Ws S W))
      → Received
      → Ws S W
      → Result ((List ℕ × List (List ℕ)) × Ws S W)
  http_rcvd handle (octets bytes) c = do (out, c') ← handle (take 8192 bytes) c; ok ((out, []), c')
  http_rcvd handle _ c = ok (([], []), c)

  -- `canRead()`: the octets that go out, the packets for the ORB, and the state behind it.
  unfoldable pub can_read_in :
      WsConnectionState
      → Wslay S
      → Nettle
      → (ℕ → ℕ → Sent)
      → Received
      → Ws S W
      → Result ((List ℕ × List (List ℕ)) × Ws S W)
  can_read_in http_server L N answers answer c = http_rcvd (http_server_rcvd L N answers) answer c
  can_read_in http_client L N answers answer c = http_rcvd (http_client_rcvd L N answers) answer c
  can_read_in ws L N answers answer c = maybe c.ctx (err uninitialised) λ s.
      let (messages, s') = L.event_recv answer s in
      ok (([], delivered messages), record c { ctx = some s' })

  unfoldable pub can_read :
      Wslay S
      → Nettle
      → (ℕ → ℕ → Sent)
      → Received
      → Ws S W
      → Result ((List ℕ × List (List ℕ)) × Ws S W)
  can_read L N answers answer c = can_read_in c.wsstate L N answers answer c

  unfoldable pub can_write_in :
      WsConnectionState
      → Wslay S
      → Nettle
      → List ℕ
      → (ℕ → ℕ → Sent)
      → Ws S W
      → Result (List ℕ × Ws S W)
  can_write_in http_server L N random answers c = ok ([], c)
  can_write_in http_client L N random answers c =
      http_client_send N random answers (record c { writing = false })
  can_write_in ws L N random answers c = maybe c.ctx (err uninitialised) λ s.
      let (result, out, s') = L.event_send answers s in
      ok (out, record c { ctx = some s'; writing = still_writing result c.writing })

  -- `canWrite()`
  unfoldable pub can_write :
      Wslay S → Nettle → List ℕ → (ℕ → ℕ → Sent) → Ws S W → Result (List ℕ × Ws S W)
  can_write L N random answers c =
      can_write_in c.wsstate L N random answers (record c { state = connected_state c.state })

  -- `timer()`: the calls that it resumes with TIMEOUT, and the state behind it.
  unfoldable pub timer_in : ConnectionState → Interlock W → Ws S W → List ℕ × Ws S W
  timer_in in_progress I c =
      let r = resume_all I (suc (I.size c.waiting)) c.waiting in
      (r.0, record c { reading = false; fd = none; state = idle; waiting = r.1 })
  timer_in _ I c = ([], c)

  unfoldable pub timer : Interlock W → Ws S W → List ℕ × Ws S W
  timer I c = timer_in c.state I c
