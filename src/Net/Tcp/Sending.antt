-- ===== src/Net/Tcp/Sending.antt =====
-- `TcpConnection::canWrite` of net/tcp/connection.cc: the octets that go out, and those that
-- stay.
use corba_cc.Base.{
  ℕ, suc, ◌-◌, ◌≤◌, ◌≡◌, refl, sym, ap, ◌∙◌, List, [], ◌∷◌, ◌++◌, append_assoc, append-nil, length,
  take, drop, take-append-drop, drop-drop, take-all, length-drop, Bool, false, Bool-cases, inl, inr,
  ◌==◌, ==_iff, arith,
}
use mathlib.Core.List.{flatten}
use corba_cc.Net.Tcp.{
  Tcp, Sent, sent, would_block, broken_pipe, send_error, Flush, Ending, ended, drained, stopped,
  broken, flush_front, flush, finish, flushed, lost, is_unconnected, can_write, queue,
}

-- The octets that are still to go out: `n` of the first packet are out.
abbrev pub unsent : List (List ℕ) → ℕ → List ℕ
unsent [] n = []
unsent (p ∷ ps) n = drop n p ++ flatten ps

unsent_zero : (ps : List (List ℕ)) → unsent ps 0 ≡ flatten ps
unfolding flatten
unsent_zero [] = refl
unsent_zero (p ∷ ps) = refl

flush_front-unsent :
    (a : Sent) (next : Flush) (p : List ℕ) (ps : List (List ℕ)) (n : ℕ)
    → next.out ++ unsent next.rest next.bytes_send ≡ flatten ps
    → let f = flush_front a next p ps n in f.out ++ unsent f.rest f.bytes_send ≡ unsent (p ∷ ps) n
unfolding flush_front ended
flush_front-unsent (sent k) next p ps n h = elim (Bool-cases (k == length p - n)) [
  | inl all ↦
      let e : k ≡ length p - n = (==_iff k (length p - n)).0 all in
      let whole : take k (drop n p) ≡ drop n p =
        take-all k (drop n p) (omega (arith, length-drop n p)) in
      rw (all, whole, append_assoc (drop n p) next.out (unsent next.rest next.bytes_send), h) refl
  | inr part ↦
      rw
        (
          part,
          append-nil (take k (drop n p)),
          ← drop-drop n k p,
          ← append_assoc (take k (drop n p)) (drop k (drop n p)) (flatten ps),
          take-append-drop k (drop n p),
        )
        refl
]
flush_front-unsent would_block next p ps n h = refl
flush_front-unsent broken_pipe next p ps n h = refl
flush_front-unsent send_error next p ps n h = refl

pub flush-unsent :
    (answers : ℕ → ℕ → Sent) (ps : List (List ℕ)) (n : ℕ)
    → let f = flush answers ps n in f.out ++ unsent f.rest f.bytes_send ≡ unsent ps n
unfolding flush ended
flush-unsent answers [] n = refl
flush-unsent answers (p ∷ ps) n =
    flush_front-unsent (answers 0 (length p - n)) (flush (λ i. answers (suc i)) ps 0) p ps n
      (flush-unsent (λ i. answers (suc i)) ps 0 ∙ unsent_zero ps)

module _ {W : Type 0} where
  abbrev pub backlog : Tcp W → List ℕ
  backlog c = unsent c.send_buffer c.bytes_send

  finish-backlog : (e : Ending) (c : Tcp W) → backlog (finish e c) ≡ backlog c
  unfolding finish lost
  finish-backlog drained c = refl
  finish-backlog stopped c = refl
  finish-backlog broken c = refl

  flushed-backlog : (f : Flush) (c : Tcp W) → backlog (flushed f c) ≡ unsent f.rest f.bytes_send
  unfolding flushed
  flushed-backlog f c =
      finish-backlog f.ending (record c { send_buffer = f.rest; bytes_send = f.bytes_send })

  -- The octets that one `canWrite` hands to the operating system, followed by those that the
  -- connection keeps, are the octets that were queued, whatever the system calls answer.
  pub can_write-backlog :
      (peer : Bool) (answers : ℕ → ℕ → Sent) (c : Tcp W)
      → let r = can_write peer answers c in r.0 ++ backlog r.1 ≡ backlog c
  unfolding can_write lost
  can_write-backlog peer answers c = elim (Bool-cases (is_unconnected peer c.state)) [
    | inl un ↦ rw un refl
    | inr con ↦
        let f = flush answers c.send_buffer c.bytes_send in
        rw (con, flushed-backlog f (record c { writing = false }))
          (flush-unsent answers c.send_buffer c.bytes_send)
  ]

-- Where the position in the packet in front can be.
abbrev pub IsPlaced : List (List ℕ) → ℕ → Type 0
IsPlaced [] n = n ≡ 0
IsPlaced (p ∷ ps) n = n ≤ length p

-- A socket takes no more octets than it is offered.
abbrev pub IsSocket : (ℕ → ℕ → Sent) → Type 0
IsSocket answers = (i n k : ℕ) → answers i n ≡ sent k → k ≤ n

IsPlaced-zero : (ps : List (List ℕ)) → IsPlaced ps 0
IsPlaced-zero [] = refl
IsPlaced-zero (p ∷ ps) = omega arith

flush_front-IsPlaced :
    (a : Sent) (next : Flush) (p : List ℕ) (ps : List (List ℕ)) (n : ℕ)
    → ((k : ℕ) → a ≡ sent k → k ≤ length p - n)
    → IsPlaced next.rest next.bytes_send
    → n ≤ length p
    → let f = flush_front a next p ps n in IsPlaced f.rest f.bytes_send
unfolding flush_front ended
flush_front-IsPlaced (sent k) next p ps n bound h at = elim (Bool-cases (k == length p - n)) [
  | inl all ↦ rw all h
  | inr part ↦ let below = bound k refl in rw part (omega arith)
]
flush_front-IsPlaced would_block next p ps n bound h at = at
flush_front-IsPlaced broken_pipe next p ps n bound h at = at
flush_front-IsPlaced send_error next p ps n bound h at = at

flush-IsPlaced :
    (answers : ℕ → ℕ → Sent) (ps : List (List ℕ)) (n : ℕ)
    → IsSocket answers
    → IsPlaced ps n
    → let f = flush answers ps n in IsPlaced f.rest f.bytes_send
unfolding flush ended
flush-IsPlaced answers [] n socket h = h
flush-IsPlaced answers (p ∷ ps) n socket h =
    flush_front-IsPlaced (answers 0 (length p - n)) (flush (λ i. answers (suc i)) ps 0) p ps n
      (socket 0 (length p - n))
      (flush-IsPlaced (λ i. answers (suc i)) ps 0 (λ i. socket (suc i)) (IsPlaced-zero ps)) h

flatten-snoc :
    (ps : List (List ℕ)) (packet : List ℕ) → flatten (ps ++ (packet ∷ [])) ≡ flatten ps ++ packet
unfolding flatten
flatten-snoc [] packet = append-nil packet
flatten-snoc (p ∷ ps) packet =
    ap (◌++◌ p) (flatten-snoc ps packet) ∙ sym (append_assoc p (flatten ps) packet)

unsent-append :
    (ps : List (List ℕ)) (n : ℕ) (packet : List ℕ)
    → IsPlaced ps n
    → unsent (ps ++ (packet ∷ [])) n ≡ unsent ps n ++ packet
unfolding flatten
unsent-append [] n packet h = rw h (append-nil packet)
unsent-append (p ∷ ps) n packet h =
    rw (flatten-snoc ps packet) (sym (append_assoc (drop n p) (flatten ps) packet))

IsPlaced-append :
    (ps : List (List ℕ)) (n : ℕ) (packet : List ℕ)
    → IsPlaced ps n
    → IsPlaced (ps ++ (packet ∷ [])) n
IsPlaced-append [] n packet h = omega arith
IsPlaced-append (p ∷ ps) n packet h = h

module _ {W : Type 0} where
  abbrev pub HasPlace : Tcp W → Type 0
  HasPlace c = IsPlaced c.send_buffer c.bytes_send

  pub queue-backlog :
      (packet : List ℕ) (c : Tcp W) → HasPlace c → backlog (queue packet c) ≡ backlog c ++ packet
  unfolding queue
  queue-backlog packet c h = unsent-append c.send_buffer c.bytes_send packet h

  pub queue-HasPlace : (packet : List ℕ) (c : Tcp W) → HasPlace c → HasPlace (queue packet c)
  unfolding queue
  queue-HasPlace packet c h = IsPlaced-append c.send_buffer c.bytes_send packet h

  finish-HasPlace : (e : Ending) (c : Tcp W) → HasPlace c → HasPlace (finish e c)
  unfolding finish lost
  finish-HasPlace drained c h = h
  finish-HasPlace stopped c h = h
  finish-HasPlace broken c h = h

  pub can_write-HasPlace :
      (peer : Bool) (answers : ℕ → ℕ → Sent) (c : Tcp W)
      → IsSocket answers
      → HasPlace c
      → HasPlace (can_write peer answers c).1
  unfolding can_write lost flushed
  can_write-HasPlace peer answers c socket h = elim (Bool-cases (is_unconnected peer c.state)) [
    | inl un ↦ rw un h
    | inr con ↦
        let f = flush answers c.send_buffer c.bytes_send in
        rw con
          (finish-HasPlace f.ending _ (flush-IsPlaced answers c.send_buffer c.bytes_send socket h))
  ]
