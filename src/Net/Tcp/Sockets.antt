-- ===== src/Net/Tcp/Sockets.antt =====
-- The states and the socket of a `TcpConnection` of net/tcp/connection.cc.
use corba_cc.Base.{
  ℕ, ◌≡◌, refl, List, [], ◌∷◌, Option, none, some, Bool, Bool-cases, inl, inr, ok, bind-eq-ok,
  subst,
}
use corba_cc.Cdr.Bytes.{ByteOrder}
use corba_cc.Net.Stream.{feed}
use corba_cc.Net.Tcp.{
  Tcp, ConnectionState, idle, pending, in_progress, established, Connect, Sent, Received, octets,
  try_again, receive_error, Interlock, up, opened, connecting, connected, refused, queue, send,
  accept, can_write, can_read, timer, fail, confirmed, lost, finish, flushed, flush, Ending,
  drained, stopped, broken, is_unconnected, accept_from, timer_in, up_from, start, confirm, connect,
  connecting, connected,
}
use corba_cc.Net.Tcp.Steps.{Step, Steps, sends, ups, accepts, writes, reads, times, stays, steps}

-- A connection has a socket when it is connecting or connected, and only then.
abbrev pub Agrees : ConnectionState → Option ℕ → Type 0
Agrees idle none = Unit
Agrees pending none = Unit
Agrees in_progress (some fd) = Unit
Agrees established (some fd) = Unit
Agrees _ _ = ⊥

module _ {W : Type 0} (there : ByteOrder) (I : Interlock W) where
  Agrees-established : (fd : Option ℕ) → Agrees in_progress fd → Agrees established fd
  Agrees-established (some fd) h = h
  Agrees-established none h = h

  connect-Agrees :
      (answer : Connect) (c : Tcp W)
      → c.fd ≡ none
      → (let c' = (connect answer c).1 in Agrees c'.state c'.fd)
  unfolding connect opened
  connect-Agrees refused c h = rw h tt
  connect-Agrees (connecting fd) c h = tt
  connect-Agrees (connected fd) c h = tt

  up_from-Agrees :
      (fd : Option ℕ) (answer : Connect) (c : Tcp W)
      → c.fd ≡ fd
      → Agrees c.state c.fd
      → (let c' = (up_from fd answer c).1 in Agrees c'.state c'.fd)
  unfolding up_from
  up_from-Agrees (some fd) answer c e h = h
  up_from-Agrees none answer c e h = connect-Agrees answer c e

  start-Agrees :
      (s : ConnectionState) (answer : Connect) (c : Tcp W)
      → Agrees c.state c.fd
      → (let c' = (start s answer c).1 in Agrees c'.state c'.fd)
  unfolding start up
  start-Agrees idle answer c h = up_from-Agrees c.fd answer c refl h
  start-Agrees pending answer c h = h
  start-Agrees in_progress answer c h = h
  start-Agrees established answer c h = h

  accept_from-Agrees :
      (fd : Option ℕ) (client : ℕ) (c c' : Tcp W)
      → accept_from fd client c ≡ ok c'
      → Agrees c'.state c'.fd
  unfolding accept_from
  accept_from-Agrees (some fd) client c c' h = cc
  accept_from-Agrees none client c c' h =
      let s : c'.state ≡ established = cc in let f : c'.fd ≡ some client = cc in rw (s, f) tt

  confirm-Agrees :
      (s : ConnectionState) (c : Tcp W)
      → c.state ≡ s
      → Agrees c.state c.fd
      → Agrees (confirm s c).state (confirm s c).fd
  unfolding confirm
  confirm-Agrees idle c e h = h
  confirm-Agrees pending c e h = h
  confirm-Agrees in_progress c e h = Agrees-established c.fd (subst (λ s. Agrees s c.fd) e h)
  confirm-Agrees established c e h = h

  finish-Agrees :
      (e : Ending) (c : Tcp W) → Agrees c.state c.fd → Agrees (finish e c).state (finish e c).fd
  unfolding finish lost
  finish-Agrees drained c h = h
  finish-Agrees stopped c h = h
  finish-Agrees broken c h = tt

  can_write-Agrees :
      (peer : Bool) (answers : ℕ → ℕ → Sent) (c : Tcp W)
      → Agrees c.state c.fd
      → (let c' = (can_write peer answers c).1 in Agrees c'.state c'.fd)
  unfolding can_write lost flushed
  can_write-Agrees peer answers c h = elim (Bool-cases (is_unconnected peer c.state)) [
    | inl un ↦ rw un tt
    | inr con ↦ rw con (finish-Agrees (flush answers c.send_buffer c.bytes_send).ending _ h)
  ]

  can_read-Agrees :
      (answer : Received) (c c' : Tcp W) (r : List (List ℕ) × List ℕ)
      → can_read there I answer c ≡ ok (r, c')
      → Agrees c.state c.fd
      → Agrees c'.state c'.fd
  unfolding can_read fail confirmed
  can_read-Agrees try_again c c' r e h =
      let s : c'.state ≡ c.state = cc in let f : c'.fd ≡ c.fd = cc in rw (s, f) h
  can_read-Agrees receive_error c c' r e h =
      let s : c'.state ≡ idle = cc in let f : c'.fd ≡ none = cc in rw (s, f) tt
  can_read-Agrees (octets []) c c' r e h =
      let s : c'.state ≡ (confirm c.state c).state = cc in
      let f : c'.fd ≡ (confirm c.state c).fd = cc in rw (s, f) (confirm-Agrees c.state c refl h)
  can_read-Agrees (octets (b ∷ bs)) c c' r e h =
      let (x, _, e') = bind-eq-ok (feed there c.stream (b ∷ bs)) _ _ e in
      let s : c'.state ≡ (confirm c.state c).state = cc in
      let f : c'.fd ≡ (confirm c.state c).fd = cc in rw (s, f) (confirm-Agrees c.state c refl h)

  timer_in-Agrees :
      (s : ConnectionState) (c : Tcp W)
      → Agrees c.state c.fd
      → (let c' = (timer_in s I c).1 in Agrees c'.state c'.fd)
  unfolding timer_in fail
  timer_in-Agrees idle c h = h
  timer_in-Agrees pending c h = h
  timer_in-Agrees in_progress c h = tt
  timer_in-Agrees established c h = h

  Step-Agrees :
      {c : Tcp W} {queued out : List ℕ} {c' : Tcp W}
      → Step there I c queued out c'
      → Agrees c.state c.fd
      → Agrees c'.state c'.fd
  unfolding send up accept timer queue
  Step-Agrees (sends answer packet c) h = start-Agrees c.state answer (queue packet c) h
  Step-Agrees (ups answer c) h = up_from-Agrees c.fd answer c refl h
  Step-Agrees (accepts client c c' a) h = accept_from-Agrees c.fd client c c' a
  Step-Agrees (writes peer answers c socket) h = can_write-Agrees peer answers c h
  Step-Agrees (reads answer c c' r a) h = can_read-Agrees answer c c' r a h
  Step-Agrees (times c) h = timer_in-Agrees c.state c h

  -- Through every sequence of calls and callbacks a TCP connection has a socket in the states
  -- INPROGRESS and ESTABLISHED, and has none in the states IDLE and PENDING, when that holds at
  -- first.
  pub Steps-Agrees :
      {c : Tcp W} {queued out : List ℕ} {c' : Tcp W}
      → Steps there I c queued out c'
      → Agrees c.state c.fd
      → Agrees c'.state c'.fd
  Steps-Agrees (stays c) h = h
  Steps-Agrees (steps c c1 c2 queued out queued' out' s t) h = Steps-Agrees t (Step-Agrees s h)
