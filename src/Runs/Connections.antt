-- ===== src/Runs/Connections.antt =====
-- Runs of net/stream2packet.cc and net/tcp/connection.cc.
use corba_cc.Base.{
  Result, subst, append-nil, ℕ, ◌≡◌, refl, List, [], ◌∷◌, ◌++◌, arith, Option, some, none, true,
  length, ok, if◌then◌else◌, ◌==◌, ==_refl, Bool-cases, inl, inr,
}
use mathlib.Core.List.{flatten}
use corba_cc.Cdr.Bytes.{little}
use corba_cc.Net.Stream.{Stream, new_stream, pending, run, message}
use corba_cc.Net.Stream.Framing.{Matches}
use corba_cc.Net.Stream.First.{First, message-First}
use corba_cc.Net.Stream.Messages.{Messages, whole, begun, in_header, laid_out, Handed, run-Messages}
use corba_cc.Net.Tcp.{
  Tcp, connecting, Sent, sent, Interlock, new_tcp, send, can_write, can_read, receive_error,
}
use corba_cc.Net.Tcp.Sending.{backlog, HasPlace, IsSocket}
use corba_cc.Net.Tcp.Steps.{Steps, sends, writes, stays, steps, Steps-backlog}
use corba_cc.Net.Tcp.Sockets.{Agrees, Steps-Agrees}
use corba_cc.Net.Tcp.Waiting.{IsInterlock, Broken, can_read-Broken}
use corba_cc.Net.Tcp.Reading.{can_reads, can_reads-Messages}

-- A reply with a body of four octets, and a message without a body.
abbrev reply : List ℕ
reply = b'G' ∷ b'I' ∷ b'O' ∷ b'P' ∷ 1 ∷ 2 ∷ 0 ∷ 1 ∷ 0 ∷ 0 ∷ 0 ∷ 4 ∷ 5 ∷ 6 ∷ 7 ∷ 8 ∷ []

abbrev close_connection : List ℕ
close_connection = b'G' ∷ b'I' ∷ b'O' ∷ b'P' ∷ 1 ∷ 2 ∷ 1 ∷ 5 ∷ 0 ∷ 0 ∷ 0 ∷ 0 ∷ []

-- They arrive in three pieces.
abbrev pieces : List (List ℕ)
pieces =
    (b'G' ∷ b'I' ∷ b'O' ∷ [])
    ∷ (b'P' ∷ 1 ∷ 2 ∷ 0 ∷ 1 ∷ 0 ∷ 0 ∷ 0 ∷ 4 ∷ 5 ∷ 6 ∷ 7 ∷ [])
    ∷ (8 ∷ close_connection)
    ∷ []

pieces-Messages : Messages (flatten pieces) (reply ∷ close_connection ∷ []) []
unfolding flatten
pieces-Messages =
    whole reply close_connection [] (close_connection ∷ [])
      (laid_out 1 2 0 1 0 0 0 4 (5 ∷ 6 ∷ 7 ∷ 8 ∷ []) (omega arith))
      (whole close_connection [] [] [] (laid_out 1 2 1 5 0 0 0 0 [] (omega arith))
        (begun [] (in_header [] (omega arith))))

run-Messages_example :
    (handed : List (List ℕ)) × (s : Stream) × (run little (new_stream 8) pieces ≡ ok (handed, s))
    × Handed (reply ∷ close_connection ∷ []) [] handed (pending s)
unfolding flatten
run-Messages_example =
    run-Messages little 8 pieces (reply ∷ close_connection ∷ []) [] (omega arith) pieces-Messages

abbrev rest : List ℕ
rest = b'G' ∷ b'I' ∷ []

-- Eight octets have been handed out, and a message is there.
abbrev moved : Stream
moved = record {
  receive_buffer_size = 64;
  data_ = 0 ∷ 0 ∷ 0 ∷ 0 ∷ 0 ∷ 0 ∷ 0 ∷ 0 ∷ (reply ++ rest);
  reserved = 64;
  offset = 8;
  message_size = 0;
}

message-First_example :
    (f : Result (Option (List ℕ × List ℕ))) × First (pending moved) f
    × Matches little moved (message little moved) f
message-First_example =
    message-First little moved (record { inside = omega arith; cached = inl refl }) (omega arith)

-- Coroutines that wait in a list.
abbrev first_of : List ℕ → Option ℕ
first_of [] = none
first_of (i ∷ is) = some i

abbrev without : ℕ → List ℕ → List ℕ
without i [] = []
without i (j ∷ js) = if j == i then js else j ∷ without i js

abbrev list_interlock : Interlock (List ℕ)
list_interlock = record { size = length; first = first_of; resume = without }

list_interlock-IsInterlock : IsInterlock list_interlock (λ w. w)
list_interlock-IsInterlock = record { empty = is_empty; takes = takes_out; counts = λ w. refl }
  where
    is_empty : (w : List ℕ) → first_of w ≡ none → w ≡ []
    is_empty [] h = refl
    is_empty (i ∷ is) h = cc

    takes_out : (w : List ℕ) (i : ℕ) → first_of w ≡ some i → w ≡ i ∷ without i w
    takes_out [] i h = cc
    takes_out (j ∷ js) i h = let same : j ≡ i = cc in rw (← same, ==_refl j) refl

abbrev closed_connection : Tcp (List ℕ)
closed_connection = new_tcp (new_stream 8) (4 ∷ 6 ∷ [])

can_reads-Messages_example :
    (handed : List (List ℕ)) × (c : Tcp (List ℕ)) × (can_reads little list_interlock pieces
        closed_connection
      ≡ ok (handed, c))
    × Handed (reply ∷ close_connection ∷ []) [] handed (pending c.stream)
unfolding new_tcp flatten
can_reads-Messages_example =
    can_reads-Messages little list_interlock 8 pieces (reply ∷ close_connection ∷ []) []
      closed_connection refl ((λ e. cc), ((λ e. cc), ((λ e. cc), tt))) (omega arith) pieces-Messages

-- A socket that takes one octet at a time.
abbrev one_octet : ℕ → ℕ → Sent
one_octet i n = if n == 0 then sent 0 else sent 1

one_octet-IsSocket : IsSocket one_octet
one_octet-IsSocket i n k h = elim (Bool-cases (n == 0)) [
  | inl e ↦ let e' = rw e at h in omega (arith, sent_injective e')
  | inr e ↦ let e' = rw e at h in ground (arith, sent_injective e')
]
  where
    sent_injective : {m l : ℕ} → sent m ≡ sent l → m ≡ l
    sent_injective h = cc

abbrev queued_connection : Tcp (List ℕ)
queued_connection = (send (connecting 5) (1 ∷ 2 ∷ 3 ∷ []) closed_connection).1

abbrev written_connection : Tcp (List ℕ)
written_connection = (can_write true one_octet queued_connection).1

abbrev octets_out : List ℕ
octets_out = (can_write true one_octet queued_connection).0

life : Steps little list_interlock closed_connection (1 ∷ 2 ∷ 3 ∷ []) octets_out written_connection
life =
    subst
      (λ out. Steps little list_interlock closed_connection (1 ∷ 2 ∷ 3 ∷ []) out written_connection)
      (append-nil octets_out)
      (steps closed_connection queued_connection written_connection (1 ∷ 2 ∷ 3 ∷ []) [] []
        (octets_out ++ []) (sends (connecting 5) (1 ∷ 2 ∷ 3 ∷ []) closed_connection)
        (steps queued_connection written_connection written_connection [] octets_out [] []
          (writes true one_octet queued_connection one_octet-IsSocket) (stays written_connection)))

Steps-backlog_example :
    (octets_out ++ backlog written_connection ≡ backlog closed_connection ++ (1 ∷ 2 ∷ 3 ∷ []))
    × HasPlace written_connection
unfolding new_tcp
Steps-backlog_example = Steps-backlog little list_interlock life refl

Steps-Agrees_example : Agrees written_connection.state written_connection.fd
unfolding new_tcp
Steps-Agrees_example = Steps-Agrees little list_interlock life tt

can_read-Broken_example :
    (resumed : List ℕ) × (c : Tcp (List ℕ)) × (can_read little list_interlock receive_error
        queued_connection
      ≡ ok (([], resumed), c))
    × Broken (λ w. w) queued_connection c resumed
can_read-Broken_example =
    can_read-Broken list_interlock (λ w. w) list_interlock-IsInterlock little queued_connection
