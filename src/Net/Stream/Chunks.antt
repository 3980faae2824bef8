-- ===== src/Net/Stream/Chunks.antt =====
-- The framing of octets that arrive in pieces, for net/stream2packet.cc.
use corba_cc.Base.{
  subst, ℕ, ◌≤◌, ◌<◌, ◌≡◌, refl, sym, ap, ◌∙◌, inl, inr, List, [], ◌∷◌, ◌++◌, append_assoc, none,
  some, length, take, drop, ltb, ok, arith, bind-eq-ok, Bool-cases, length-drop, length-append,
  take-append_le, drop-append_le, take-append-drop, le→ltb,
}
use mathlib.Core.List.{flatten}
use corba_cc.Cdr.Bytes.{ByteOrder}
use corba_cc.Net.Stream.{Stream, pending, received, scan_size}
use corba_cc.Net.Stream.Framing.{front, IsCached, scan_size-ge, scan_size-append}

-- The messages that are found one behind the other, and what is left when none is found.
pub data Frames (there : ByteOrder) : List ℕ → List (List ℕ) → List ℕ → Type 0 where
  done : (p : List ℕ) → front there p ≡ ok none → Frames there p [] p
  more :
      (p m p' rest : List ℕ) (ms : List (List ℕ))
      → front there p ≡ ok (some (m, p'))
      → Frames there p' ms rest
      → Frames there p (m ∷ ms) rest

module _ (there : ByteOrder) where
  front-inv :
      (p m r : List ℕ)
      → front there p ≡ ok (some (m, r))
      → (n : ℕ) × (16 ≤ length p)
        × (scan_size there p ≡ ok n)
        × (n ≤ length p)
        × (m ≡ take n p)
        × (r ≡ drop n p)
  unfolding front
  front-inv p m r h = elim (Bool-cases (ltb (length p) 16)) [
    | inl short ↦ cc (rw short at h)
    | inr long ↦
        let (n, found, e) = bind-eq-ok (scan_size there p) _ (some (m, r)) (rw long at h) in
        (n, ground arith, found, ground arith, ground arith, ground arith)
  ]

  pub front-intro :
      (p : List ℕ) (n : ℕ)
      → 16 ≤ length p
      → scan_size there p ≡ ok n
      → n ≤ length p
      → front there p ≡ ok (some (take n p, drop n p))
  unfolding front
  front-intro p n long found enough =
      rw (le→ltb (length p) 16 long, found, le→ltb (length p) n enough)

  -- A complete message stays the first one when more octets have arrived.
  pub front-append :
      (p m r q : List ℕ)
      → front there p ≡ ok (some (m, r))
      → front there (p ++ q) ≡ ok (some (m, r ++ q))
  front-append p m r q h =
      let (n, long, found, enough, em, er) = front-inv p m r h in
      front-intro (p ++ q) n (omega (arith, length-append p q)) (scan_size-append there p q n found)
        (omega (arith, length-append p q))
      ∙ rw (take-append_le n p q enough, drop-append_le n p q enough, em, er)

  pub front-shrinks :
      (p m r : List ℕ) → front there p ≡ ok (some (m, r)) → (length r < length p) × (p ≡ m ++ r)
  front-shrinks p m r h =
      let (n, long, found, enough, em, er) = front-inv p m r h in
      (
        omega (arith, scan_size-ge there p n found, ap length er, length-drop n p),
        rw (em, er) (sym (take-append-drop n p)),
      )

  -- Framing may be interrupted anywhere.
  pub Frames-append :
      (q : List ℕ) {p r r' : List ℕ} {ms ns : List (List ℕ)}
      → Frames there p ms r
      → Frames there (r ++ q) ns r'
      → Frames there (p ++ q) (ms ++ ns) r'
  Frames-append q (done p e) g = g
  Frames-append q (more p m p' rest ms e f) g =
      more (p ++ q) m (p' ++ q) _ _ (front-append p m p' q e) (Frames-append q f g)

  -- It has one outcome.
  pub Frames-functional :
      {p r r' : List ℕ} {ms ns : List (List ℕ)}
      → Frames there p ms r
      → Frames there p ns r'
      → (ms ≡ ns) × (r ≡ r')
  Frames-functional (done p e) (done _ e') = (refl, refl)
  Frames-functional (done p e) (more _ m p' rest ms e' f) = absurd (cc (e, e'))
  Frames-functional (more p m p' rest ms e f) (done _ e') = absurd (cc (e, e'))
  Frames-functional (more p m p' rest ms e f) (more _ m' p'' rest' ns e' f') =
      let same : p'' ≡ p' = cc in
      let (tails, rests) = Frames-functional f (subst (λ q. Frames there q ns rest') same f') in
      (cc, rests)

  -- The messages into which octets are framed and the octets that are left are together the
  -- octets given, in their order: none is lost, repeated or moved.
  pub Frames-octets :
      {p r : List ℕ} {ms : List (List ℕ)} → Frames there p ms r → flatten ms ++ r ≡ p
  unfolding flatten
  Frames-octets (done p e) = refl
  Frames-octets (more p m p' rest ms e f) =
      append_assoc m (flatten ms) rest
      ∙ ap (◌++◌ m) (Frames-octets f)
      ∙ sym (front-shrinks p m p' e).1

  pub Frames-rest :
      {p r : List ℕ} {ms : List (List ℕ)} → Frames there p ms r → front there r ≡ ok none
  Frames-rest (done p e) = e
  Frames-rest (more p m p' rest ms e f) = Frames-rest f

  pub received-IsCached :
      (bs : List ℕ) (s : Stream) → IsCached there s → IsCached there (received bs s)
  unfolding received
  received-IsCached bs s c = record {
    inside = omega (arith, c.inside, length-append s.data_ bs);
    cached = elim c.cached [
      | inl z ↦ inl z
      | inr (long, found) ↦ rw (drop-append_le s.offset s.data_ bs c.inside) (
          inr (
            omega (arith, length-append (pending s) bs),
            scan_size-append there (pending s) bs s.message_size found,
          ))
    ];
  }
