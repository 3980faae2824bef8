-- ===== src/Net/Stream/Progress.antt =====
-- The loop over net/stream2packet.cc on well framed streams.
use corba_cc.Base.{
  ℕ, zero, suc, ◌+◌, ◌≤◌, ◌<◌, ◌≡◌, refl, sym, ◌∙◌, subst, List, [], ◌∷◌, ◌++◌, append_assoc,
  Option, none, some, length, Result, ok, err, ◌>>=◌, arith, bind-eq-ok, take, take-append_le,
  length-append, Bool-cases, inl, inr, ltb, le→ltb,
}
use mathlib.Core.List.{flatten}
use corba_cc.Cdr.Bytes.{ByteOrder}
use corba_cc.Cdr.Decoder.{new_decoder}
use corba_cc.Giop.Decoder.{GiopDecoder, magic, new_giop_decoder, scan_giop_header}
use corba_cc.Giop.Decoder.Scan.{Scanned, too_small, no_magic, header, scan_giop_header-Scanned}
use corba_cc.Net.Stream.{
  Stream, new_stream, pending, buffer, received, scan_size, message, drain, deliver, feed, run,
}
use corba_cc.Net.Stream.Framing.{front, split_at, IsCached, Matches, message-Matches}
use corba_cc.Net.Stream.Chunks.{Frames, done, more, front-shrinks, front-append, Frames-functional}
use corba_cc.Net.Stream.Delivery.{Delivers, fed-IsCached, pending-fed, feed-Delivers, run-Delivers}

module _ (there : ByteOrder) where
  scan_size-ok :
      (p : List ℕ) (g : GiopDecoder)
      → scan_giop_header there (new_giop_decoder (new_decoder p) none) ≡ ok g
      → scan_size there p ≡ ok (g.message_length + 12)
  unfolding scan_size
  scan_size-ok p g e = rw e

  -- Octets that begin with the magic word give a size.
  scan_size-total :
      (p : List ℕ) → 16 ≤ length p → take 4 p ≡ magic → (n : ℕ) × (scan_size there p ≡ ok n)
  unfolding new_giop_decoder new_decoder
  scan_size-total p long word =
      by _ refl (scan_giop_header-Scanned there (new_giop_decoder (new_decoder p) none))
    where
      by :
          (r : Result GiopDecoder)
          → scan_giop_header there (new_giop_decoder (new_decoder p) none) ≡ r
          → Scanned (new_giop_decoder (new_decoder p) none) r
          → (n : ℕ) × (scan_size there p ≡ ok n)
      by _ e (too_small short) = absurd (omega arith)
      by _ e (no_magic _ differs) = absurd (differs word)
      by _ e (header g _ _ _ _) = (g.message_length + 12, scan_size-ok p g e)

  -- A stream that can be framed begins with the magic word, once 16 octets of it are there.
  scan_size-magic : (p : List ℕ) (n : ℕ) → scan_size there p ≡ ok n → take 4 p ≡ magic
  unfolding scan_size new_giop_decoder new_decoder
  scan_size-magic p n h =
      let (g, e, _) =
        bind-eq-ok (scan_giop_header there (new_giop_decoder (new_decoder p) none)) _ n h in
      by _ e (scan_giop_header-Scanned there (new_giop_decoder (new_decoder p) none))
    where
      by :
          {g : GiopDecoder} (r : Result GiopDecoder)
          → r ≡ ok g
          → Scanned (new_giop_decoder (new_decoder p) none) r
          → take 4 p ≡ magic
      by _ e (too_small short) = cc
      by _ e (no_magic _ differs) = cc
      by _ e (header g _ word _ _) = word

  abbrev pub IsOk : {A : Type 0} → Result A → Type 0
  IsOk (ok a) = Unit
  IsOk (err e) = ⊥

  IsOk-bind :
      {A B : Type 0} (m : Result A) (f : A → Result B) → IsOk (m >>= f) → (a : A) × (m ≡ ok a)
  IsOk-bind (ok a) f h = (a, refl)
  IsOk-bind (err e) f h = elim h [ ]

  IsOk-map : {A B : Type 0} (m : Result A) (g : A → B) → IsOk m → IsOk (m >>= λ a. ok (g a))
  IsOk-map (ok a) g h = tt
  IsOk-map (err e) g h = h

  -- The first octets of a stream that can be framed can be framed.
  front-IsOk : (p q : List ℕ) → IsOk (front there (p ++ q)) → IsOk (front there p)
  unfolding front
  front-IsOk p q h = elim (Bool-cases (ltb (length p) 16)) [
    | inl short ↦ rw short tt
    | inr enough ↦
        let long : 16 ≤ length p = ground arith in
        let h' : IsOk (scan_size there (p ++ q) >>= λ n. ok (split_at n (p ++ q))) =
          rw (le→ltb (length (p ++ q)) 16 (omega (arith, length-append p q))) at h in
        let (n, found) = IsOk-bind (scan_size there (p ++ q)) _ h' in
        let word : take 4 p ≡ magic =
          sym (take-append_le 4 p q (omega arith)) ∙ scan_size-magic (p ++ q) n found in
        let (k, e) = scan_size-total p long word in rw (enough, e) tt
  ]

  Frames-IsOk : {p r : List ℕ} {ms : List (List ℕ)} → Frames there p ms r → IsOk (front there p)
  Frames-IsOk (done p e) = rw e tt
  Frames-IsOk (more p m p' rest ms e f) = rw e tt

  Frames-inv :
      (m p' : List ℕ) {p r : List ℕ} {ms : List (List ℕ)}
      → Frames there p ms r
      → front there p ≡ ok (some (m, p'))
      → (ns : List (List ℕ)) × Frames there p' ns r
  Frames-inv m p' (done p e) h = cc (e, h)
  Frames-inv m p' (more p m' p'' rest ms e f) h =
      let same : p'' ≡ p' = cc in (ms, subst (λ q. Frames there q ms rest) same f)

  round-IsOk :
      (next : Stream → Result (List (List ℕ) × Stream)) (s : Stream)
      (r : Result (Option (List ℕ) × Stream)) (f : Result (Option (List ℕ × List ℕ)))
      → front there (pending s) ≡ f
      → Matches there s r f
      → IsOk f
      → ((m : List ℕ) (s1 : Stream)
          → IsCached there s1
          → front there (pending s) ≡ ok (some (m, pending s1))
          → IsOk (next s1))
      → IsOk (r >>= deliver next)
  round-IsOk next s (ok (none, s1)) (ok none) e c k later = tt
  round-IsOk next s (ok (some m, s1)) (ok (some (m', p'))) e (em, c, rest) k later =
      IsOk-map (next s1) _ (later m s1 c (rw (em, rest) e))
  round-IsOk next s (ok (none, s1)) (ok (some x)) e h k later = elim h [ ]
  round-IsOk next s (ok (none, s1)) (err x) e h k later = elim h [ ]
  round-IsOk next s (ok (some m, s1)) (ok none) e h k later = elim h [ ]
  round-IsOk next s (ok (some m, s1)) (err x) e h k later = elim h [ ]
  round-IsOk next s (err x) (ok none) e h k later = h
  round-IsOk next s (err x) (ok (some y)) e h k later = h
  round-IsOk next s (err x) (err y) e h k later = k

  drain-IsOk :
      (fuel : ℕ) (s : Stream) (q r : List ℕ) (ms : List (List ℕ))
      → IsCached there s
      → length (pending s) < fuel
      → Frames there (pending s ++ q) ms r
      → IsOk (drain fuel there s)
  unfolding drain
  drain-IsOk zero s q r ms c h f = absurd (omega arith)
  drain-IsOk (suc fuel) s q r ms c h f =
      round-IsOk (drain fuel there) s (message there s) (front there (pending s)) refl
        (message-Matches there s c) (front-IsOk (pending s) q (Frames-IsOk f))
        λ m s1 c1 found.
          let shorter = (front-shrinks there (pending s) m (pending s1) found).0 in
          let (ns, g) =
            Frames-inv m (pending s1 ++ q) f
              (front-append there (pending s) m (pending s1) q found) in
          drain-IsOk fuel s1 q r ns c1 (omega arith) g

  feed-IsOk :
      (bs : List ℕ) (s : Stream) (q r : List ℕ) (ms : List (List ℕ))
      → IsCached there s
      → Frames there ((pending s ++ bs) ++ q) ms r
      → IsOk (feed there s bs)
  unfolding feed
  feed-IsOk bs s q r ms c f =
      drain-IsOk _ (received bs (buffer s)) q r ms (fed-IsCached there bs s c) (omega arith)
        (rw (pending-fed there bs s c) f)

  -- The framing of the first octets is the beginning of the framing of all.
  Frames-suffix :
      (q : List ℕ) {p r r' : List ℕ} {ms ns : List (List ℕ)}
      → Frames there p ms r
      → Frames there (p ++ q) ns r'
      → (ks : List (List ℕ)) × Frames there (r ++ q) ks r'
  Frames-suffix q {ns = ns} (done p e) g = (ns, g)
  Frames-suffix q (more p m p' rest ms e f) g =
      let (ks, g') = Frames-inv m (p' ++ q) g (front-append there p m p' q e) in
      Frames-suffix q f g'

  run-rest-IsOk :
      (p q : List ℕ) (feeds : Result (List (List ℕ) × Stream)) (chunks ms : List (List ℕ))
      (r : List ℕ)
      → Delivers there p feeds
      → IsOk feeds
      → Frames there (p ++ q) ms r
      → ((s1 : Stream) (ks : List (List ℕ))
          → IsCached there s1
          → Frames there (pending s1 ++ q) ks r
          → IsOk (run there s1 chunks))
      → IsOk {A = List (List ℕ) × Stream}
          (feeds >>= λ x. run there x.1 chunks >>= λ y. ok (x.0 ++ y.0, y.1))
  run-rest-IsOk p q (ok (ms1, s1)) chunks ms r (f, c) h g later =
      let (ks, g') = Frames-suffix q f g in IsOk-map (run there s1 chunks) _ (later s1 ks c g')
  run-rest-IsOk p q (err x) chunks ms r d h g later = h

  run-IsOk :
      (chunks : List (List ℕ)) (s : Stream) (ms : List (List ℕ)) (r : List ℕ)
      → IsCached there s
      → Frames there (pending s ++ flatten chunks) ms r
      → IsOk (run there s chunks)
  unfolding run flatten
  run-IsOk [] s ms r c f = tt
  run-IsOk (bs ∷ chunks) s ms r c f =
      let g : Frames there ((pending s ++ bs) ++ flatten chunks) ms r =
        rw (append_assoc (pending s) bs (flatten chunks)) f in
      run-rest-IsOk (pending s ++ bs) (flatten chunks) (feed there s bs) chunks ms r
        (feed-Delivers there bs s c) (feed-IsOk bs s (flatten chunks) r ms c g) g
        (λ s1 ks c1 g1. run-IsOk chunks s1 ks r c1 g1)

new_stream-IsCached : (there : ByteOrder) (n : ℕ) → IsCached there (new_stream n)
unfolding new_stream
new_stream-IsCached there n = record { inside = omega arith; cached = inl refl }

outcome :
    (there : ByteOrder) (p : List ℕ) (ms : List (List ℕ)) (r : List ℕ)
    (res : Result (List (List ℕ) × Stream))
    → Frames there p ms r
    → IsOk there res
    → Delivers there p res
    → (s : Stream) × (res ≡ ok (ms, s)) × (pending s ≡ r)
outcome there p ms r (ok (ns, s)) f h (g, c) =
    let (same_messages, same_rest) = Frames-functional there g f in (s, cc, same_rest)
outcome there p ms r (err x) f h d = elim h [ ]

-- A new `IIOPStream2Packet` that receives octets in any pieces hands out exactly the messages
-- into which all the octets are framed, throws nothing, and keeps the octets of the incomplete
-- last message. It holds for all octets that can be framed.
pub run-Frames :
    (there : ByteOrder) (n : ℕ) (chunks ms : List (List ℕ)) (r : List ℕ)
    → Frames there (flatten chunks) ms r
    → (s : Stream) × (run there (new_stream n) chunks ≡ ok (ms, s)) × (pending s ≡ r)
unfolding new_stream
run-Frames there n chunks ms r f =
    let c = new_stream-IsCached there n in
    let e : front there [] ≡ ok none = unfold front in refl in
    outcome there (flatten chunks) ms r (run there (new_stream n) chunks) f
      (run-IsOk there chunks (new_stream n) ms r c f) (run-Delivers there chunks (new_stream n) c e)
