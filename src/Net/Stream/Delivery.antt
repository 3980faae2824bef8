-- ===== src/Net/Stream/Delivery.antt =====
-- The loop of `TcpConnection::canRead` over net/stream2packet.cc, against the framing of the stream.
use corba_cc.Base.{
  ℕ, zero, suc, ◌<◌, ◌≡◌, refl, ap, ◌∙◌, List, [], ◌∷◌, ◌++◌, append_assoc, append-nil, Option,
  none, some, length, Result, ok, err, ◌>>=◌, arith, Bool-cases, ltb, drop-append_le, ◌-◌, inl, inr,
}
use mathlib.Core.List.{flatten}
use corba_cc.Cdr.Bytes.{ByteOrder}
use corba_cc.Net.Stream.{Stream, pending, buffer, received, message, drain, feed, run, deliver}
use corba_cc.Net.Stream.Framing.{front, IsCached, Matches, message-Matches}
use corba_cc.Net.Stream.Chunks.{
  Frames, done, more, front-shrinks, Frames-append, Frames-rest, received-IsCached,
}

module _ (there : ByteOrder) where
  -- What the loop has delivered when it ends.
  abbrev pub Delivers : List ℕ → Result (List (List ℕ) × Stream) → Type 0
  Delivers p (ok (ms, s)) = Frames there p ms (pending s) × IsCached there s
  Delivers p (err e) = Unit

  drain-step :
      (p : List ℕ) (m : List ℕ) (p' : List ℕ) (r : Result (List (List ℕ) × Stream))
      → front there p ≡ ok (some (m, p'))
      → Delivers p' r
      → Delivers p (r >>= λ x. ok (m ∷ x.0, x.1))
  drain-step p m p' (ok (ms, s)) e (f, c) = (more p m p' (pending s) ms e f, c)
  drain-step p m p' (err x) e d = tt

  round-Delivers :
      (next : Stream → Result (List (List ℕ) × Stream)) (s : Stream)
      (r : Result (Option (List ℕ) × Stream)) (f : Result (Option (List ℕ × List ℕ)))
      → front there (pending s) ≡ f
      → Matches there s r f
      → ((s1 : Stream)
          → IsCached there s1
          → length (pending s1) < length (pending s)
          → Delivers (pending s1) (next s1))
      → Delivers (pending s) (r >>= deliver next)
  round-Delivers next s (ok (none, s1)) (ok none) e (c, same) later =
      (rw same (done (pending s) e), c)
  round-Delivers next s (ok (some m, s1)) (ok (some (m', p'))) e (em, c, rest) later =
      let found : front there (pending s) ≡ ok (some (m, pending s1)) = rw (em, rest) e in
      drain-step (pending s) m (pending s1) (next s1) found
        (later s1 c (front-shrinks there (pending s) m (pending s1) found).0)
  round-Delivers next s (ok (none, s1)) (ok (some x)) e h later = elim h [ ]
  round-Delivers next s (ok (none, s1)) (err x) e h later = elim h [ ]
  round-Delivers next s (ok (some m, s1)) (ok none) e h later = elim h [ ]
  round-Delivers next s (ok (some m, s1)) (err x) e h later = elim h [ ]
  round-Delivers next s (err x) f e h later = tt

  -- With more fuel than octets the loop ends because no message is complete.
  drain-Delivers :
      (fuel : ℕ) (s : Stream)
      → IsCached there s
      → length (pending s) < fuel
      → Delivers (pending s) (drain fuel there s)
  unfolding drain
  drain-Delivers zero s c h = absurd (omega arith)
  drain-Delivers (suc fuel) s c h =
      round-Delivers (drain fuel there) s (message there s) (front there (pending s)) refl
        (message-Matches there s c) (λ s1 c1 h1. drain-Delivers fuel s1 c1 (omega arith))

  buffer-IsCached : (s : Stream) → IsCached there s → IsCached there (buffer s)
  unfolding buffer
  buffer-IsCached s c =
      elim (Bool-cases (ltb (s.reserved - length s.data_) s.receive_buffer_size)) [
        | inl e ↦ rw e (record { inside = c.inside; cached = c.cached })
        | inr e ↦ rw e c
      ]

  pending-received :
      (bs : List ℕ) (s : Stream) → IsCached there s → pending (received bs s) ≡ pending s ++ bs
  unfolding received
  pending-received bs s c = drop-append_le s.offset s.data_ bs c.inside

  pending-buffer : (s : Stream) → pending (buffer s) ≡ pending s
  unfolding buffer
  pending-buffer s = elim (Bool-cases (ltb (s.reserved - length s.data_) s.receive_buffer_size)) [
    | inl e ↦ rw e
    | inr e ↦ rw e
  ]

  pub fed-IsCached :
      (bs : List ℕ) (s : Stream) → IsCached there s → IsCached there (received bs (buffer s))
  fed-IsCached bs s c = received-IsCached there bs (buffer s) (buffer-IsCached s c)

  pub pending-fed :
      (bs : List ℕ) (s : Stream)
      → IsCached there s
      → pending (received bs (buffer s)) ≡ pending s ++ bs
  pending-fed bs s c =
      pending-received bs (buffer s) (buffer-IsCached s c) ∙ ap (λ xs. xs ++ bs) (pending-buffer s)

  pub feed-Delivers :
      (bs : List ℕ) (s : Stream) → IsCached there s → Delivers (pending s ++ bs) (feed there s bs)
  unfolding feed
  feed-Delivers bs s c =
      rw (← pending-fed bs s c)
        (drain-Delivers _ (received bs (buffer s)) (fed-IsCached bs s c) (omega arith))

  run-step :
      (p q : List ℕ) (r : Result (List (List ℕ) × Stream)) (chunks : List (List ℕ))
      → Delivers p r
      → ((s1 : Stream)
          → IsCached there s1
          → front there (pending s1) ≡ ok none
          → Delivers (pending s1 ++ q) (run there s1 chunks))
      → Delivers (p ++ q) (r >>= λ x. run there x.1 chunks >>= λ y. ok (x.0 ++ y.0, y.1))
  run-step p q (ok (ms, s1)) chunks (f, c) later =
      joined (run there s1 chunks) (later s1 c (Frames-rest there f))
    where
      joined :
          (r : Result (List (List ℕ) × Stream))
          → Delivers (pending s1 ++ q) r
          → Delivers (p ++ q) (r >>= λ y. ok (ms ++ y.0, y.1))
      joined (ok (ns, s2)) (g, c2) = (Frames-append there q f g, c2)
      joined (err x) d = tt
  run-step p q (err x) chunks d later = tt

  -- However the stream is cut into pieces, what `run` delivers is the framing of the whole.
  pub run-Delivers :
      (chunks : List (List ℕ)) (s : Stream)
      → IsCached there s
      → front there (pending s) ≡ ok none
      → Delivers (pending s ++ flatten chunks) (run there s chunks)
  unfolding run flatten
  run-Delivers [] s c e = (rw (append-nil (pending s)) (done (pending s) e), c)
  run-Delivers (bs ∷ chunks) s c e = rw (← append_assoc (pending s) bs (flatten chunks)) (
      run-step (pending s ++ bs) (flatten chunks) (feed there s bs) chunks (feed-Delivers bs s c)
        (λ s1 c1 e1. run-Delivers chunks s1 c1 e1))
