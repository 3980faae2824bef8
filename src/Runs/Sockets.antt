-- ===== src/Runs/Sockets.antt =====
-- Runs of net/ws/connection.cc.
use corba_cc.Base.{
  ℕ, codes, List, [], ◌∷◌, ◌++◌, ◌≡◌, refl, arith, some, true, false, err, uninitialised,
}
use mathlib.Core.List.{flatten}
use corba_cc.Giop.Types.{HostAndPort}
use corba_cc.Net.Tcp.{Sent, sent, connecting, in_progress, established}
use corba_cc.Net.Ws.{
  Ws, Wslay, Nettle, all_sent, http_client, http_server, new_ws, send, can_write, start, up,
  connect, opened, queue, can_write_in, http_client_send, http_request, create_clientkey,
  create_acceptkey, http_reply, sent_whole,
}
use corba_cc.Url.Printer.{decimal, digits}
use corba_cc.Net.Ws.Upgrade.{Upgraded, can_read-Upgraded}
use corba_cc.Net.Ws.Early.{send-send}

-- Frames that are their payload, sent at once.
abbrev plain_frames : Wslay (List (List ℕ))
plain_frames = record {
  server_init = some [];
  client_init = some [];
  queue_msg = λ p s. s ++ (p ∷ []);
  event_send = λ answers s. (all_sent, flatten s, []);
  event_recv = λ answer s. ([], s);
}

abbrev one_letter : Nettle
one_letter = record { sha1 = λ t. t; base64 = λ t. b'Q' ∷ [] }

abbrev local_name : HostAndPort
local_name = record { host = codes "a.de"; port = 9003 }

abbrev takes_all : ℕ → ℕ → Sent
takes_all i n = sent n

-- A client with two packets that wait, and the server's side of the connection.
abbrev client : Ws (List (List ℕ)) ℕ
client = record (new_ws http_client local_name 0) { send_buffer = (1 ∷ 2 ∷ []) ∷ (3 ∷ []) ∷ [] }

abbrev server : Ws (List (List ℕ)) ℕ
server = new_ws http_server local_name 0

can_read-Upgraded_example :
    Upgraded one_letter takes_all
      (λ i n. refl)
      plain_frames
      plain_frames
      (3 ∷ [])
      []
      []
      (1 ∷ 2 ∷ [])
      ((3 ∷ []) ∷ [])
      client
      server
unfolding new_ws http_request http_reply decimal digits create_clientkey create_acceptkey
can_read-Upgraded_example =
    can_read-Upgraded one_letter takes_all (λ i n. refl) plain_frames plain_frames (3 ∷ []) [] []
      (1 ∷ 2 ∷ []) ((3 ∷ []) ∷ []) client server (λ t. (omega arith, tt)) (omega arith)
      (omega arith) refl refl refl refl refl refl refl refl (omega arith) (omega arith)

-- The connect is in progress, with a packet that waits; then the request is out.
abbrev opening : Ws (List (List ℕ)) ℕ
opening = record (new_ws http_client local_name 0) {
  fd = some 7;
  state = in_progress;
  reading = true;
  writing = true;
  timer_active = true;
  send_buffer = (1 ∷ []) ∷ [];
}

abbrev asking : Ws (List (List ℕ)) ℕ
asking = record opening { state = established; writing = false; client_key = b'Q' ∷ [] }

abbrev asked : List ℕ
asked = http_request local_name (b'Q' ∷ [])

send-send_example : send plain_frames (connecting 8) takes_all (2 ∷ []) asking ≡ err uninitialised
unfolding new_ws send start up connect opened queue can_write can_write_in http_client_send
    create_clientkey sent_whole http_request decimal digits
send-send_example =
    send-send plain_frames one_letter 7 (connecting 8) takes_all takes_all takes_all (3 ∷ [])
      (1 ∷ []) (2 ∷ []) asked local_name 0 opening asking refl refl
