-- ===== src/Net/Ws/Upgrade.antt =====
-- The whole handshake of net/ws/connection.cc, from the client's `canWrite` to its `canRead`.
use corba_cc.Base.{
  ℕ, ◌^◌, ◌<◌, ◌≤◌, List, [], ◌∷◌, ◌≡◌, ◌≢◌, refl, ◌∙◌, false, some, length, take-all, append-nil,
  All, ok, bytes_eq_refl, arith, ==_refl,
}
use corba_cc.Giop.Types.{HostAndPort}
use corba_cc.Net.Tcp.{Sent, sent, octets}
use corba_cc.Net.Ws.{
  Ws, Wslay, SendResult, Nettle, http_server, http_client, ws, create_acceptkey, create_clientkey,
  http_request, http_reply, queue_all, flush_packets, flush_send_buffer, sent_whole,
  connected_state, wants_write, start_ws_mode, http_client_send, http_server_rcvd, http_client_rcvd,
  http_rcvd, can_read_in, can_read, can_write_in, can_write,
}
use corba_cc.Net.Ws.Handshake.{
  IsLower, request-key, request-upgrade, request-connection, request-end, reply-end, reply-key,
}

-- The system calls take all that they are offered.
abbrev pub Takes : (ℕ → ℕ → Sent) → Type 0
Takes answers = (i n : ℕ) → answers i n ≡ sent n

-- The octets of one line.
abbrev pub IsLine : List ℕ → Type 0
IsLine s = All (λ c. c ≢ 13) s

-- What `flushSendBuffer` makes of packets that wait for the end of the handshake.
abbrev frames :
    {S : Type 0} → Wslay S → (ℕ → ℕ → Sent) → S → List (List ℕ) → SendResult × List ℕ × S
frames L answers s packets = L.event_send answers (queue_all L packets s)

-- Packets given to `wslay_event_queue_msg`, the first one first, from a context to a context.
pub data Queued {S : Type 0} (L : Wslay S) : S → List (List ℕ) → S → Type 0 where
  no_more : (s : S) → Queued L s [] s
  next :
      (s s' : S) (p : List ℕ) (ps : List (List ℕ))
      → Queued L (L.queue_msg p s) ps s'
      → Queued L s (p ∷ ps) s'

queue_all-Queued :
    {S : Type 0} (L : Wslay S) (ps : List (List ℕ)) (s : S) → Queued L s ps (queue_all L ps s)
unfolding queue_all
queue_all-Queued L [] s = no_more s
queue_all-Queued L (p ∷ ps) s = next s _ p ps (queue_all-Queued L ps (L.queue_msg p s))

module _ {S W : Type 0} (N : Nettle) (answers : ℕ → ℕ → Sent) (takes : Takes answers) where
  http_client_send-whole :
      (L : Wslay S) (random : List ℕ) (c : Ws S W)
      → c.wsstate ≡ http_client
      → (c1 : Ws S W) × (can_write L N random answers c
          ≡ ok (http_request c.local (create_clientkey N random), c1))
        × (c1.client_key ≡ create_clientkey N random)
        × (c1.wsstate ≡ http_client)
        × (c1.headers ≡ c.headers)
        × (c1.ctx ≡ c.ctx)
        × (c1.send_buffer ≡ c.send_buffer)
  unfolding can_write can_write_in http_client_send sent_whole
  http_client_send-whole L random c mode =
      let get : List ℕ = http_request c.local (create_clientkey N random) in
      (
        record c {
          state = connected_state c.state;
          writing = false;
          client_key = create_clientkey N random;
        },
        rw (mode, takes 0 (length get), ==_refl (length get)) refl,
        refl,
        mode,
        refl,
        refl,
        refl,
      )

  server_reads :
      (L : Wslay S) (local : HostAndPort) (key : List ℕ) (d : Ws S W) (s : S)
      → IsLower local.host
      → local.port < 2 ^ 16
      → IsLine key
      → d.wsstate ≡ http_server
      → d.headers ≡ []
      → d.send_buffer ≡ []
      → L.server_init ≡ some s
      → length (http_request local key) ≤ 8192
      → can_read L N answers (octets (http_request local key)) d
        ≡ ok (
          (http_reply (create_acceptkey N key), []),
          record d { headers = []; wsstate = ws; ctx = some s },
        )
  unfolding can_read can_read_in http_rcvd http_server_rcvd start_ws_mode flush_send_buffer
      flush_packets
  server_reads L local key d s lower port line mode fresh idle init short =
      rw
        (
          mode,
          take-all 8192 (http_request local key) short,
          fresh,
          request-end local key lower port line,
          request-upgrade local key lower port line,
          request-connection local key lower port line,
          request-key local key lower port line,
          init,
          idle,
          takes 0 (length (http_reply (create_acceptkey N key))),
          take-all (length (http_reply (create_acceptkey N key)))
              (http_reply (create_acceptkey N key)) (omega arith),
          append-nil (http_reply (create_acceptkey N key)),
        )
        refl

  client_reads :
      (L : Wslay S) (s : S) (key : List ℕ) (c : Ws S W) (p : List ℕ) (ps : List (List ℕ))
      → IsLine (create_acceptkey N key)
      → c.wsstate ≡ http_client
      → c.client_key ≡ key
      → c.headers ≡ []
      → c.send_buffer ≡ p ∷ ps
      → L.client_init ≡ some s
      → length (http_reply (create_acceptkey N key)) ≤ 8192
      → (c2 : Ws S W) × (can_read L N answers (octets (http_reply (create_acceptkey N key))) c
          ≡ ok (((frames L answers s (p ∷ ps)).1, []), c2))
        × (c2.wsstate ≡ ws)
        × (c2.ctx ≡ some (frames L answers s (p ∷ ps)).2)
        × (c2.send_buffer ≡ [])
  unfolding can_read can_read_in http_rcvd http_client_rcvd start_ws_mode flush_send_buffer
      flush_packets
  client_reads L s key c p ps line mode keyed fresh waits init short =
      let host : HostAndPort = record { host = []; port = 0 } in
      let accept : List ℕ = create_acceptkey N key in
      (
        record c {
          headers = [];
          wsstate = ws;
          ctx = some (frames L answers s (p ∷ ps)).2;
          send_buffer = [];
          writing = wants_write (frames L answers s (p ∷ ps)).0 c.writing;
        },
        rw
            (
              mode,
              take-all 8192 (http_reply accept) short,
              fresh,
              reply-end host accept tt (omega arith) line,
              reply-key host accept tt (omega arith) line,
              keyed,
              bytes_eq_refl (create_acceptkey N key),
              init,
              waits,
            )
            refl,
        refl,
        refl,
        refl,
      )

  -- What each end does in the handshake, and where it stands behind it.
  pub record Upgraded (LC LS : Wslay S) (random : List ℕ) (sc ss : S) (p : List ℕ)
      (ps : List (List ℕ)) (c d : Ws S W) : Type 0 where
    pub request : List ℕ
    pub reply : List ℕ
    pub c1 : Ws S W
    pub d1 : Ws S W
    pub c2 : Ws S W
    pub asks : can_write LC N random answers c ≡ ok (request, c1)
    pub answers_it : can_read LS N answers (octets request) d ≡ ok ((reply, []), d1)
    pub queued : S
    pub in_order : Queued LC sc (p ∷ ps) queued
    pub goes_on :
        can_read LC N answers (octets reply) c1 ≡ ok (((LC.event_send answers queued).1, []), c2)
    pub server_mode : d1.wsstate ≡ ws
    pub server_ctx : d1.ctx ≡ some ss
    pub client_mode : c2.wsstate ≡ ws
    pub client_ctx : c2.ctx ≡ some (LC.event_send answers queued).2
    pub client_queue : c2.send_buffer ≡ []

  -- The handshake turns both ends of a WebSocket connection to frames: from the request that the
  -- client's `canWrite` sends, the server's `canRead` sends a reply and has a context of wslay;
  -- from that reply the client's `canRead` accepts the key, has a context too, and hands the
  -- packets that waited to wslay in their order, so that none waits any longer. The client is in
  -- HTTP_CLIENT and has packets, the server is in HTTP_SERVER and has none, neither has received
  -- headers, the system calls take all that they are offered, wslay gives both contexts, base64
  -- has no line ends, the local host name has no capital S and its port 16 bits, and the request
  -- and the reply have 8192 octets at most.
  pub can_read-Upgraded :
      (LC LS : Wslay S) (random : List ℕ) (sc ss : S) (p : List ℕ) (ps : List (List ℕ))
      (c d : Ws S W)
      → ((t : List ℕ) → IsLine (N.base64 t))
      → IsLower c.local.host
      → c.local.port < 2 ^ 16
      → c.wsstate ≡ http_client
      → c.headers ≡ []
      → c.send_buffer ≡ p ∷ ps
      → d.wsstate ≡ http_server
      → d.headers ≡ []
      → d.send_buffer ≡ []
      → LC.client_init ≡ some sc
      → LS.server_init ≡ some ss
      → length (http_request c.local (create_clientkey N random)) ≤ 8192
      → length (http_reply (create_acceptkey N (create_clientkey N random))) ≤ 8192
      → Upgraded LC LS random sc ss p ps c d
  unfolding create_acceptkey create_clientkey
  can_read-Upgraded LC LS random sc ss p ps c d line lower port cm ch cq dm dh dq ci si asked
        replied =
      let key : List ℕ = create_clientkey N random in
      let (c1, asks, keyed, mode, kept, unset, queued) = http_client_send-whole LC random c cm in
      let (c2, reads, m2, x2, q2) =
        client_reads LC sc key c1 p ps (line _) mode keyed (kept ∙ ch) (queued ∙ cq) ci replied in
      record {
        request = http_request c.local key;
        reply = http_reply (create_acceptkey N key);
        c1 = c1;
        d1 = record d { headers = []; wsstate = ws; ctx = some ss };
        c2 = c2;
        asks = asks;
        answers_it = server_reads LS c.local key d ss lower port (line _) dm dh dq si asked;
        queued = queue_all LC (p ∷ ps) sc;
        in_order = queue_all-Queued LC (p ∷ ps) sc;
        goes_on = reads;
        server_mode = refl;
        server_ctx = refl;
        client_mode = m2;
        client_ctx = x2;
        client_queue = q2;
      }
