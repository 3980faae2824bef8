-- ===== src/Net/Ws/Early.antt =====
-- A packet that net/ws/connection.cc is given before the handshake is over.
use corba_cc.Base.{
  ℕ, List, [], ◌∷◌, ◌++◌, ◌≡◌, refl, sym, ap, ◌∙◌, none, Result, ok, err, ◌>>=◌, uninitialised,
  send_failed, length, ◌==◌, Bool-cases, inl, inr, false, Error,
}
use corba_cc.Giop.Types.{HostAndPort}
use corba_cc.Net.Tcp.{
  established, Connect, connecting, Sent, sent, would_block, broken_pipe, send_error,
}
use corba_cc.Net.Ws.{
  Ws, Wslay, Nettle, http_client, new_ws, flush_packets, flush_send_buffer, opened, connect, up,
  start, queue, send, sent_whole, http_client_send, http_request, create_clientkey, can_write_in,
  can_write,
}

err-ok {ℓ} : {A : Type ℓ} (e : Error) (a : A) → ◌≡◌ {A = Result A} (err e) (ok a) → ⊥
err-ok e a h = cc

module _ {S W : Type 0} where
  flush_packets-early :
      (L : Wslay S) (answers : ℕ → ℕ → Sent) (xs : List (List ℕ)) (p : List ℕ) (c : Ws S W)
      → c.ctx ≡ none
      → flush_packets L answers (xs ++ (p ∷ [])) c ≡ err uninitialised
  unfolding flush_packets
  flush_packets-early L answers [] p c e = rw e refl
  flush_packets-early L answers (x ∷ xs) p c e = rw e refl

  pub send-early :
      (L : Wslay S) (answer : Connect) (answers : ℕ → ℕ → Sent) (packet : List ℕ) (c : Ws S W)
      → c.state ≡ established
      → c.ctx ≡ none
      → send L answer answers packet c ≡ err uninitialised
  unfolding send start flush_send_buffer queue
  send-early L answer answers packet c connected unset =
      ap (λ st. start L answer answers st (queue packet c)) connected
      ∙ ap (λ r. r >>= λ x. ok (none, x.0, x.1))
          (flush_packets-early L answers c.send_buffer packet (queue packet c) unset)

  sent_whole-keeps :
      (a : Sent) (get out : List ℕ) (c c2 : Ws S W) → sent_whole a get c ≡ ok (out, c2) → c2 ≡ c
  unfolding sent_whole
  sent_whole-keeps (sent k) get out c c2 h = elim (Bool-cases (k == length get)) [
    | inl e ↦
        let same : ◌≡◌ {A = Result (List ℕ × Ws S W)} (ok (get, c)) (ok (out, c2)) = rw e at h in cc
    | inr e ↦ absurd (err-ok send_failed (out, c2) (rw e at h))
  ]
  sent_whole-keeps would_block get out c c2 h = cc
  sent_whole-keeps broken_pipe get out c c2 h = cc
  sent_whole-keeps send_error get out c c2 h = cc

  -- A second packet that a new client's WebSocket connection is given when its request is out,
  -- but the handshake is not over, is handed to a context of wslay that was never set. The first
  -- packet has started the connect, which is in progress, and `canWrite` has sent the request.
  pub send-send :
      (L : Wslay S) (N : Nettle) (fd : ℕ) (answer : Connect) (a a1 a2 : ℕ → ℕ → Sent)
      (random first second out : List ℕ) (local : HostAndPort) (w : W) (c1 c2 : Ws S W)
      → send L (connecting fd) a first (new_ws http_client local w) ≡ ok (none, [], c1)
      → can_write L N random a1 c1 ≡ ok (out, c2)
      → send L answer a2 second c2 ≡ err uninitialised
  unfolding send start up connect opened queue new_ws can_write can_write_in http_client_send
  send-send L N fd answer a a1 a2 random first second out local w c1 c2 h h1 =
      let opening : Ws S W =
        (connect (connecting fd) (queue first (new_ws http_client local w))).1 in
      let e1 : c1 ≡ opening = cc in
      let key : List ℕ = create_clientkey N random in
      let get : List ℕ = http_request local key in
      let asked : Ws S W = record opening {
        state = established;
        writing = false;
        client_key = key;
      } in
      let written : sent_whole (a1 0 (length get)) get asked ≡ ok (out, c2) =
        sym (ap (λ c. can_write L N random a1 c) e1) ∙ h1 in
      let e2 : c2 ≡ asked = sent_whole-keeps (a1 0 (length get)) get out asked c2 written in
      send-early L answer a2 second c2 (ap (λ (c : Ws S W). c.state) e2)
        (ap (λ (c : Ws S W). c.ctx) e2)
