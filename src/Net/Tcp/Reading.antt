-- ===== src/Net/Tcp/Reading.antt =====
-- `TcpConnection::canRead` of net/tcp/connection.cc, receive after receive.
use corba_cc.Base.{
  ℕ, ◌≡◌, ◌≢◌, refl, sym, subst, ap, ◌∙◌, List, [], ◌∷◌, ◌++◌, All, Result, ok, ◌>>=◌, bind-eq-ok,
}
use mathlib.Core.List.{flatten}
use corba_cc.Cdr.Bytes.{ByteOrder}
use corba_cc.Net.Stream.{Stream, new_stream, pending, feed, run}
use corba_cc.Net.Stream.Chunks.{Frames}
use corba_cc.Cdr.Bytes.Laws.{IsByte}
use corba_cc.Net.Stream.Messages.{Messages, Handed, Messages-Frames}
use corba_cc.Net.Stream.Progress.{run-Frames}
use corba_cc.Net.Tcp.{Tcp, ConnectionState, octets, Interlock, can_read, confirmed, confirm}

module _ {W : Type 0} (there : ByteOrder) (I : Interlock W) where
  -- The messages that the ORB gets while the socket receives the chunks.
  unfoldable pub can_reads : List (List ℕ) → Tcp W → Result (List (List ℕ) × Tcp W)
  can_reads [] c = ok ([], c)
  can_reads (chunk ∷ chunks) c = do
    (r, c1) ← can_read there I (octets chunk) c
    (ms, c2) ← can_reads chunks c1
    ok (r.0 ++ ms, c2)

  confirm-stream : (s : ConnectionState) (c : Tcp W) → (confirm s c).stream ≡ c.stream
  unfolding confirm
  confirm-stream ConnectionState.idle c = refl
  confirm-stream ConnectionState.pending c = refl
  confirm-stream ConnectionState.in_progress c = refl
  confirm-stream ConnectionState.established c = refl

  can_reads-run :
      (chunks ms : List (List ℕ)) (s : Stream) (c : Tcp W)
      → All (λ chunk. chunk ≢ []) chunks
      → run there c.stream chunks ≡ ok (ms, s)
      → (c' : Tcp W) × (can_reads chunks c ≡ ok (ms, c')) × (c'.stream ≡ s)
  unfolding can_reads run can_read
  can_reads-run [] ms s c h e = (c, cc, cc)
  can_reads-run ([] ∷ chunks) ms s c h e = absurd (h.0 refl)
  can_reads-run ((b ∷ bs) ∷ chunks) ms s c h e =
      let (x, first, e1) = bind-eq-ok (feed there c.stream (b ∷ bs)) _ _ e in
      let (y, later, e2) = bind-eq-ok (run there x.1 chunks) _ _ e1 in
      let c1 = record (confirmed c) { stream = x.1 } in
      let (c', reads, same) = can_reads-run chunks y.0 y.1 c1 h.1 later in
      let all : x.0 ++ y.0 ≡ ms = cc in
      let last : y.1 ≡ s = cc in (c', rw (first, reads, all) refl, same ∙ last)

  -- The same by the framing that `message()` works with.
  can_reads-Frames :
      (n : ℕ) (chunks ms : List (List ℕ)) (rest : List ℕ) (c : Tcp W)
      → c.stream ≡ new_stream n
      → All (λ chunk. chunk ≢ []) chunks
      → Frames there (flatten chunks) ms rest
      → (c' : Tcp W) × (can_reads chunks c ≡ ok (ms, c')) × (pending c'.stream ≡ rest)
  can_reads-Frames n chunks ms rest c new full framed =
      let (s, e, left) = run-Frames there n chunks ms rest framed in
      let (c', r, same) = can_reads-run chunks ms s c full (rw new e) in
      (c', r, ap pending same ∙ left)

  -- The octets that a TCP connection with a new stream receives are whole GIOP messages, by the
  -- sizes in their headers, and the beginning of one. However the receives cut them into pieces
  -- that are not empty, no receive throws, the ORB is handed the messages in their order, each of
  -- them whole, and what was not handed out stays in the stream: the beginning of the last
  -- message, and before it at most one whole message, if the octets that stay are fewer than 16,
  -- since `message()` does not look at fewer. The octets are below 256.
  pub can_reads-Messages :
      (n : ℕ) (chunks ms : List (List ℕ)) (rest : List ℕ) (c : Tcp W)
      → c.stream ≡ new_stream n
      → All (λ chunk. chunk ≢ []) chunks
      → All IsByte (flatten chunks)
      → Messages (flatten chunks) ms rest
      → (handed : List (List ℕ)) × (c' : Tcp W) × (can_reads chunks c ≡ ok (handed, c'))
        × Handed ms rest handed (pending c'.stream)
  can_reads-Messages n chunks ms rest c new full bytes framed =
      let (handed, left, frames, k) = Messages-Frames there framed bytes in
      let (c', reads, at) = can_reads-Frames n chunks handed left c new full frames in
      (handed, c', reads, subst (Handed ms rest handed) (sym at) k)
