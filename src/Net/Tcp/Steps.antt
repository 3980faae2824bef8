-- ===== src/Net/Tcp/Steps.antt =====
-- The steps that a `TcpConnection` takes: the calls of the ORB and the callbacks of the event loop.
use corba_cc.Base.{
  ℕ, ◌≡◌, refl, sym, ap, ◌∙◌, List, [], ◌∷◌, ◌++◌, append_assoc, append-nil, Option, none, some,
  Bool, ok, bind-eq-ok,
}
use corba_cc.Cdr.Bytes.{ByteOrder}
use corba_cc.Net.Stream.{feed}
use corba_cc.Net.Tcp.{
  Tcp, ConnectionState, idle, pending, in_progress, established, Connect, Sent, Received, octets,
  try_again, receive_error, Interlock, up, opened, connecting, connected, refused, queue, send,
  accept, can_write, can_read, timer, fail, confirmed, accept_from, timer_in, up_from, start,
  confirm, connect, connecting, connected,
}
use corba_cc.Net.Tcp.Sending.{
  backlog, HasPlace, IsSocket, can_write-backlog, can_write-HasPlace, queue-backlog, queue-HasPlace,
}

-- The octets that a step queues, and those that it sends.
pub data Step {W : Type 0} (there : ByteOrder) (I : Interlock W)
    : Tcp W → List ℕ → List ℕ → Tcp W → Type 0 where
  sends :
      (answer : Connect) (packet : List ℕ) (c : Tcp W)
      → Step there I c packet [] (send answer packet c).1
  ups : (answer : Connect) (c : Tcp W) → Step there I c [] [] (up answer c).1
  accepts : (client : ℕ) (c c' : Tcp W) → accept client c ≡ ok c' → Step there I c [] [] c'
  writes :
      (peer : Bool) (answers : ℕ → ℕ → Sent) (c : Tcp W)
      → IsSocket answers
      → Step there I c [] (can_write peer answers c).0 (can_write peer answers c).1
  reads :
      (answer : Received) (c c' : Tcp W) (r : List (List ℕ) × List ℕ)
      → can_read there I answer c ≡ ok (r, c')
      → Step there I c [] [] c'
  times : (c : Tcp W) → Step there I c [] [] (timer I c).1

pub data Steps {W : Type 0} (there : ByteOrder) (I : Interlock W)
    : Tcp W → List ℕ → List ℕ → Tcp W → Type 0 where
  stays : (c : Tcp W) → Steps there I c [] [] c
  steps :
      (c c1 c2 : Tcp W) (queued out queued' out' : List ℕ)
      → Step there I c queued out c1
      → Steps there I c1 queued' out' c2
      → Steps there I c (queued ++ queued') (out ++ out') c2

module _ {W : Type 0} (there : ByteOrder) (I : Interlock W) where
  -- The packets that wait are the same, and so is the position in the first.
  abbrev pub KeepsQueue : Tcp W → Tcp W → Type 0
  KeepsQueue c c' = (c'.send_buffer ≡ c.send_buffer) × (c'.bytes_send ≡ c.bytes_send)

  connect-KeepsQueue : (answer : Connect) (c : Tcp W) → KeepsQueue c (connect answer c).1
  unfolding connect opened
  connect-KeepsQueue refused c = (refl, refl)
  connect-KeepsQueue (connecting fd) c = (refl, refl)
  connect-KeepsQueue (connected fd) c = (refl, refl)

  up_from-KeepsQueue :
      (fd : Option ℕ) (answer : Connect) (c : Tcp W) → KeepsQueue c (up_from fd answer c).1
  unfolding up_from
  up_from-KeepsQueue (some fd) answer c = (refl, refl)
  up_from-KeepsQueue none answer c = connect-KeepsQueue answer c

  start-KeepsQueue :
      (s : ConnectionState) (answer : Connect) (c : Tcp W) → KeepsQueue c (start s answer c).1
  unfolding start up
  start-KeepsQueue idle answer c = up_from-KeepsQueue c.fd answer c
  start-KeepsQueue pending answer c = (refl, refl)
  start-KeepsQueue in_progress answer c = (refl, refl)
  start-KeepsQueue established answer c = (refl, refl)

  accept_from-KeepsQueue :
      (fd : Option ℕ) (client : ℕ) (c c' : Tcp W)
      → accept_from fd client c ≡ ok c'
      → KeepsQueue c c'
  unfolding accept_from
  accept_from-KeepsQueue (some fd) client c c' h = cc
  accept_from-KeepsQueue none client c c' h = (cc, cc)

  confirm-KeepsQueue : (s : ConnectionState) (c : Tcp W) → KeepsQueue c (confirm s c)
  unfolding confirm
  confirm-KeepsQueue idle c = (refl, refl)
  confirm-KeepsQueue pending c = (refl, refl)
  confirm-KeepsQueue in_progress c = (refl, refl)
  confirm-KeepsQueue established c = (refl, refl)

  can_read-KeepsQueue :
      (answer : Received) (c c' : Tcp W) (r : List (List ℕ) × List ℕ)
      → can_read there I answer c ≡ ok (r, c')
      → KeepsQueue c c'
  unfolding can_read fail confirmed
  can_read-KeepsQueue try_again c c' r h = (cc, cc)
  can_read-KeepsQueue receive_error c c' r h = (cc, cc)
  can_read-KeepsQueue (octets []) c c' r h = let k = confirm-KeepsQueue c.state c in (cc, cc)
  can_read-KeepsQueue (octets (b ∷ bs)) c c' r h =
      let k = confirm-KeepsQueue c.state c in
      let (x, e, h') = bind-eq-ok (feed there c.stream (b ∷ bs)) _ _ h in (cc, cc)

  timer_in-KeepsQueue : (s : ConnectionState) (c : Tcp W) → KeepsQueue c (timer_in s I c).1
  unfolding timer_in fail
  timer_in-KeepsQueue idle c = (refl, refl)
  timer_in-KeepsQueue pending c = (refl, refl)
  timer_in-KeepsQueue in_progress c = (refl, refl)
  timer_in-KeepsQueue established c = (refl, refl)

  KeepsQueue-backlog :
      (c c' : Tcp W) → KeepsQueue c c' → HasPlace c → (backlog c' ≡ backlog c) × HasPlace c'
  KeepsQueue-backlog c c' (e, f) h = rw (e, f) (refl, h)

  -- One step sends and keeps what was there and what it queued.
  Step-backlog :
      {c : Tcp W} {queued out : List ℕ} {c' : Tcp W}
      → Step there I c queued out c'
      → HasPlace c
      → (out ++ backlog c' ≡ backlog c ++ queued) × HasPlace c'
  unfolding send up accept timer
  Step-backlog (sends answer packet c) h =
      let (e, k) =
        KeepsQueue-backlog (queue packet c) (send answer packet c).1
          (start-KeepsQueue c.state answer (queue packet c)) (queue-HasPlace packet c h) in
      (e ∙ queue-backlog packet c h, k)
  Step-backlog (ups answer c) h =
      let (e, k) = KeepsQueue-backlog c (up answer c).1 (up_from-KeepsQueue c.fd answer c) h in
      (e ∙ sym (append-nil (backlog c)), k)
  Step-backlog (accepts client c c' a) h =
      let (e, k) = KeepsQueue-backlog c c' (accept_from-KeepsQueue c.fd client c c' a) h in
      (e ∙ sym (append-nil (backlog c)), k)
  Step-backlog (writes peer answers c socket) h = (
    can_write-backlog peer answers c ∙ sym (append-nil (backlog c)),
    can_write-HasPlace peer answers c socket h,
  )
  Step-backlog (reads answer c c' r a) h =
      let (e, k) = KeepsQueue-backlog c c' (can_read-KeepsQueue answer c c' r a) h in
      (e ∙ sym (append-nil (backlog c)), k)
  Step-backlog (times c) h =
      let (e, k) = KeepsQueue-backlog c (timer I c).1 (timer_in-KeepsQueue c.state c) h in
      (e ∙ sym (append-nil (backlog c)), k)

  -- Through every sequence of calls of `send`, `up` and `accept` and of callbacks for reading,
  -- writing and the timer, the octets handed to the operating system, followed by those that the
  -- connection still keeps, are the octets that it kept at first followed by those that were sent
  -- since; and the position in the first packet stays inside it. The position is inside it at
  -- first, and a socket never takes more octets than it is offered.
  pub Steps-backlog :
      {c : Tcp W} {queued out : List ℕ} {c' : Tcp W}
      → Steps there I c queued out c'
      → HasPlace c
      → (out ++ backlog c' ≡ backlog c ++ queued) × HasPlace c'
  Steps-backlog (stays c) h = (sym (append-nil (backlog c)), h)
  Steps-backlog (steps c c1 c2 queued out queued' out' s t) h =
      let (e1, h1) = Step-backlog s h in
      let (e2, h2) = Steps-backlog t h1 in
      (
        append_assoc out out' (backlog c2)
            ∙ ap (◌++◌ out) e2
            ∙ sym (append_assoc out (backlog c1) queued')
            ∙ ap (λ xs. xs ++ queued') e1
            ∙ append_assoc (backlog c) queued queued',
        h2,
      )
