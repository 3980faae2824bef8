-- ===== src/Net/Stream/Messages.antt =====
-- The messages of GIOP in a sequence of octets, by the layout of their headers, and what
-- net/stream2packet.cc makes of them.
use corba_cc.Base.{
  ℕ, ◌+◌, ◌*◌, ◌%◌, ◌==◌, ◌≤◌, ◌<◌, ◌≡◌, refl, sym, ap, ◌∙◌, ◌⊎◌, inl, inr, List, [], ◌∷◌, ◌++◌,
  append_assoc, none, some, false, Bool-cases, length, length-append, take-append, drop-append, All,
  ltb, lt→ltb, le→ltb, if◌then◌else◌, bytes_eq, ok, arith, subst,
}
use mathlib.Core.List.{flatten}
use native.Mathlib.Decide.{dec_lt}
use corba_cc.Cdr.Bytes.{ByteOrder, little, big, load, from_le}
use corba_cc.Cdr.Bytes.Laws.{IsByte, swap_load}
use corba_cc.Cdr.Decoder.{
  new_decoder, from_native, read_octet, at_offset, set_little_endian, read_ulong, read_word, ptr,
  fetch, skip, align,
}
use corba_cc.Cdr.Encoder.{align_to}
use corba_cc.Giop.Decoder.{new_giop_decoder, scan_giop_header, scan_header_fields}
use corba_cc.Net.Stream.{Stream, new_stream, pending, run, scan_size}
use corba_cc.Net.Stream.Framing.{front}
use corba_cc.Net.Stream.Chunks.{Frames, done, more, front-intro}
use corba_cc.Net.Stream.Progress.{run-Frames}

-- The four octets of the size, in the byte order that the lowest bit of the flags gives.
abbrev pub body_size : ℕ → ℕ → ℕ → ℕ → ℕ → ℕ
body_size flags a b c d =
    if flags % 2 == 1
    then a + 256 * (b + 256 * (c + 256 * d))
    else d + 256 * (c + 256 * (b + 256 * a))

-- A header of twelve octets, and what follows it.
abbrev pub headed : ℕ → ℕ → ℕ → ℕ → ℕ → ℕ → ℕ → ℕ → List ℕ → List ℕ
headed major minor flags type a b c d rest =
    b'G' ∷ b'I' ∷ b'O' ∷ b'P' ∷ major ∷ minor ∷ flags ∷ type ∷ a ∷ b ∷ c ∷ d ∷ rest

-- A whole message has a body of the size that its header says.
pub data IsMessage : List ℕ → Type 0 where
  laid_out :
      (major minor flags type a b c d : ℕ) (body : List ℕ)
      → length body ≡ body_size flags a b c d
      → IsMessage (headed major minor flags type a b c d body)

-- The beginning of a message: less than a header, or less of the body than the header says.
pub data IsBegun : List ℕ → Type 0 where
  in_header : (p : List ℕ) → length p < 12 → IsBegun p
  in_body :
      (major minor flags type a b c d : ℕ) (body : List ℕ)
      → length body < body_size flags a b c d
      → IsBegun (headed major minor flags type a b c d body)

-- Whole messages, and the beginning of one.
pub data Messages : List ℕ → List (List ℕ) → List ℕ → Type 0 where
  begun : (r : List ℕ) → IsBegun r → Messages r [] r
  whole :
      (m p r : List ℕ) (ms : List (List ℕ))
      → IsMessage m
      → Messages p ms r
      → Messages (m ++ p) (m ∷ ms) r

Messages-octets : {p r : List ℕ} {ms : List (List ℕ)} → Messages p ms r → p ≡ flatten ms ++ r
unfolding flatten
Messages-octets (begun r h) = refl
Messages-octets (whole m p r ms h f) =
    ap (◌++◌ m) (Messages-octets f) ∙ sym (append_assoc m (flatten ms) r)

little_word :
    (there : ByteOrder) (a b c d : ℕ)
    → All IsByte (a ∷ b ∷ c ∷ d ∷ [])
    → from_native there (some little) (a ∷ b ∷ c ∷ d ∷ []) ≡ a + 256 * (b + 256 * (c + 256 * d))
unfolding from_native
little_word there a b c d bytes =
    swap_load there little (a ∷ b ∷ c ∷ d ∷ []) bytes ∙ (unfold load from_le in omega arith)

big_word :
    (there : ByteOrder) (a b c d : ℕ)
    → All IsByte (a ∷ b ∷ c ∷ d ∷ [])
    → from_native there (some big) (a ∷ b ∷ c ∷ d ∷ []) ≡ d + 256 * (c + 256 * (b + 256 * a))
unfolding from_native
big_word there a b c d bytes =
    swap_load there big (a ∷ b ∷ c ∷ d ∷ []) bytes ∙ (unfold load from_le in omega arith)

-- The scan of a header finds the size of the message.
pub scan_size-headed :
    (there : ByteOrder) (major minor flags type a b c d : ℕ) (rest : List ℕ)
    → All IsByte (a ∷ b ∷ c ∷ d ∷ [])
    → 4 ≤ length rest
    → scan_size there (headed major minor flags type a b c d rest)
      ≡ ok (body_size flags a b c d + 12)
unfolding scan_size scan_giop_header scan_header_fields new_decoder new_giop_decoder read_octet
    at_offset set_little_endian read_ulong read_word ptr fetch skip align align_to bytes_eq
scan_size-headed there major minor flags type a b c d rest bytes long =
    let enough : ltb (length (headed major minor flags type a b c d rest)) 16 ≡ false =
      le→ltb _ 16 (omega arith) in
    let near : ltb (length (headed major minor flags type a b c d rest)) 12 ≡ false =
      le→ltb _ 12 (omega arith) in
    elim (Bool-cases (flags % 2 == 1)) [
      | inl e ↦ rw (enough, near, e) (ap (λ n. ok (n + 12)) (little_word there a b c d bytes))
      | inr e ↦ rw (enough, near, e) (ap (λ n. ok (n + 12)) (big_word there a b c d bytes))
    ]

-- The octets that `message()` keeps back of whole messages: of none, or of so few octets that it does
-- not scan them.
pub record Handed (ms : List (List ℕ)) (rest : List ℕ) (handed : List (List ℕ)) (left : List ℕ)
    : Type 0 where
  pub back : List (List ℕ)
  pub in_order : ms ≡ handed ++ back
  pub left_eq : left ≡ flatten back ++ rest
  pub few : (back ≡ []) ⊎ (length left < 16)

size_bytes :
    {major minor flags type a b c d : ℕ} (rest : List ℕ)
    → All IsByte (headed major minor flags type a b c d rest)
    → All IsByte (a ∷ b ∷ c ∷ d ∷ [])
size_bytes rest h = let s = h.1.1.1.1.1.1.1.1 in (s.0, (s.1.0, (s.1.1.0, (s.1.1.1.0, tt))))

All-back : (m p : List ℕ) → All IsByte (m ++ p) → All IsByte p
All-back [] p h = h
All-back (x ∷ m) p h = All-back m p h.1

module _ (there : ByteOrder) where
  pub front-few : (p : List ℕ) → length p < 16 → front there p ≡ ok none
  unfolding front
  front-few p h = rw (lt→ltb (length p) 16 h) refl

  pub front-begun : (p : List ℕ) → IsBegun p → All IsByte p → front there p ≡ ok none
  unfolding front
  front-begun p (in_header _ h) bytes = front-few p (omega arith)
  front-begun _ (in_body major minor flags type a b c d body h) bytes =
      let p : List ℕ = headed major minor flags type a b c d body in
      elim (dec_lt (length p) 16) [
        | yes short ↦ front-few p short
        | no long ↦
            rw
              (
                le→ltb (length p) 16 (omega arith),
                scan_size-headed there major minor flags type a b c d body (size_bytes body bytes)
                    (omega arith),
                lt→ltb (length p) (body_size flags a b c d + 12) (omega arith),
              )
              refl
      ]

  pub front-whole :
      (m p : List ℕ)
      → IsMessage m
      → All IsByte (m ++ p)
      → 16 ≤ length (m ++ p)
      → front there (m ++ p) ≡ ok (some (m, p))
  front-whole _ p (laid_out major minor flags type a b c d body h) bytes long =
      let m : List ℕ = headed major minor flags type a b c d body in
      let size : body_size flags a b c d + 12 ≡ length m = omega (arith, h) in
      let found : scan_size there (m ++ p) ≡ ok (length m) =
        scan_size-headed there major minor flags type a b c d (body ++ p)
          (size_bytes (body ++ p) bytes) (omega arith)
        ∙ ap ok size in
      front-intro there (m ++ p) (length m) long found (omega (arith, length-append m p))
      ∙ ap (λ x. ok (some x)) (rw (take-append m p, drop-append m p) refl)

  pub Messages-Frames :
      {p r : List ℕ} {ms : List (List ℕ)}
      → Messages p ms r
      → All IsByte p
      → (handed : List (List ℕ)) × (left : List ℕ) × Frames there p handed left
        × Handed ms r handed left
  unfolding flatten
  Messages-Frames (begun r h) bytes = (
    [],
    r,
    done r (front-begun r h bytes),
    record { back = []; in_order = refl; left_eq = refl; few = inl refl },
  )
  Messages-Frames (whole m p r ms h f) bytes = elim (dec_lt (length (m ++ p)) 16) [
    | yes short ↦ (
      [],
      m ++ p,
      done (m ++ p) (front-few (m ++ p) short),
      record {
        back = m ∷ ms;
        in_order = refl;
        left_eq = Messages-octets (whole m p r ms h f);
        few = inr short;
      },
    )
    | no long ↦
        let (handed, left, frames, k) = Messages-Frames f (All-back m p bytes) in
        (
          m ∷ handed,
          left,
          more (m ++ p) m p left handed (front-whole m p h bytes (omega arith)) frames,
          record {
            back = k.back;
            in_order = ap (◌∷◌ m) k.in_order;
            left_eq = k.left_eq;
            few = k.few;
          },
        )
  ]

  -- A new `IIOPStream2Packet` receives, in any pieces, octets that are whole GIOP messages, by
  -- the sizes in their headers, and the beginning of one. It throws nothing, hands out the
  -- messages in their order, and keeps the beginning of the last message, and before it at most
  -- one whole message, if the octets that it keeps are fewer than 16. The octets are below 256.
  pub run-Messages :
      (n : ℕ) (chunks ms : List (List ℕ)) (rest : List ℕ)
      → All IsByte (flatten chunks)
      → Messages (flatten chunks) ms rest
      → (handed : List (List ℕ)) × (s : Stream) × (run there (new_stream n) chunks ≡ ok (handed, s))
        × Handed ms rest handed (pending s)
  run-Messages n chunks ms rest bytes framed =
      let (handed, left, frames, k) = Messages-Frames framed bytes in
      let (s, ran, at) = run-Frames there n chunks handed left frames in
      (handed, s, ran, subst (Handed ms rest handed) (sym at) k)
