-- ===== src/Net/Stream/First.antt =====
-- The first message of pending octets, by the layout of its header, and `message()` of
-- net/stream2packet.cc.
use corba_cc.Base.{
  ℕ, ◌≤◌, ◌<◌, ◌≡◌, ◌≢◌, refl, sym, ap, ◌∙◌, inl, inr, List, [], ◌∷◌, ◌++◌, Option, none, some,
  Bool-cases, length, take, drop, take-append-drop, length-take, All, le→ltb, bytes_eq,
  bytes_eq_sound, bytes_eq_refl, Result, ok, err, missing_header, arith, subst, codes,
}
use native.Mathlib.Decide.{dec_lt}
use corba_cc.Cdr.Bytes.{ByteOrder}
use corba_cc.Cdr.Bytes.Laws.{IsByte}
use corba_cc.Cdr.Decoder.{new_decoder}
use corba_cc.Giop.Decoder.{magic, new_giop_decoder}
use corba_cc.Giop.Decoder.Scan.{scan_giop_header-no_magic}
use corba_cc.Net.Stream.{Stream, pending, scan_size, message}
use corba_cc.Net.Stream.Framing.{front, IsCached, Matches, message-Matches}
use corba_cc.Net.Stream.Messages.{
  headed, body_size, IsMessage, laid_out, IsBegun, in_body, front-few, front-begun, front-whole,
}

-- What is at the front of some octets: fewer than are looked at, the beginning of a message, a whole
-- one and what follows it, or something else than a message.
pub data First : List ℕ → Result (Option (List ℕ × List ℕ)) → Type 0 where
  few : (p : List ℕ) → length p < 16 → First p (ok none)
  begun : (p : List ℕ) → 16 ≤ length p → IsBegun p → First p (ok none)
  whole :
      (m rest : List ℕ)
      → 16 ≤ length (m ++ rest)
      → IsMessage m
      → First (m ++ rest) (ok (some (m, rest)))
  foreign : (p : List ℕ) → 16 ≤ length p → take 4 p ≢ codes "GIOP" → First p (err missing_header)

four : (p : List ℕ) → 4 ≤ length p → (a b c d : ℕ) × (rest : List ℕ) × (p ≡ a ∷ b ∷ c ∷ d ∷ rest)
four [] h = absurd (omega arith)
four (a ∷ []) h = absurd (omega arith)
four (a ∷ b ∷ []) h = absurd (omega arith)
four (a ∷ b ∷ c ∷ []) h = absurd (omega arith)
four (a ∷ b ∷ c ∷ d ∷ rest) h = (a, b, c, d, rest, refl)

module _ (there : ByteOrder) where
  abbrev Known : List ℕ → Type 0
  Known p = (f : Result (Option (List ℕ × List ℕ))) × First p f × (front there p ≡ f)

  headed-Known :
      (major minor flags type a b c d : ℕ) (body : List ℕ)
      → All IsByte (headed major minor flags type a b c d body)
      → 16 ≤ length (headed major minor flags type a b c d body)
      → Known (headed major minor flags type a b c d body)
  headed-Known major minor flags type a b c d body bytes long =
      let size : ℕ = body_size flags a b c d in
      elim (dec_lt (length body) size) [
        | yes less ↦
            let b = in_body major minor flags type a b c d body less in
            (ok none, begun _ long b, front-begun there _ b bytes)
        | no enough ↦
            let m : List ℕ = headed major minor flags type a b c d (take size body) in
            let parts : m ++ drop size body ≡ headed major minor flags type a b c d body =
              ap (headed major minor flags type a b c d) (take-append-drop size body) in
            let is : IsMessage m =
              laid_out major minor flags type a b c d (take size body)
                (omega (arith, length-take size body)) in
            let enough_octets : 16 ≤ length (m ++ drop size body) =
              subst (λ x. 16 ≤ length x) (sym parts) long in
            subst Known parts (
              ok (some (m, drop size body)),
              whole m (drop size body) enough_octets is,
              front-whole there m (drop size body) is (subst (All IsByte) (sym parts) bytes)
                  enough_octets,
            )
      ]

  long-Known : (p : List ℕ) → All IsByte p → 16 ≤ length p → Known p
  unfolding front scan_size new_decoder new_giop_decoder
  long-Known p bytes long = elim (Bool-cases (bytes_eq (take 4 p) magic)) [
    | inl same ↦
        let (g, i, o, q, r, e) = four p (omega arith) in
        let (major, minor, flags, type, s, e1) = four r (omega (arith, ap length e)) in
        let (a, b, c, d, body, e2) = four s (omega (arith, ap length e, ap length e1)) in
        let tail : List ℕ = major ∷ minor ∷ flags ∷ type ∷ a ∷ b ∷ c ∷ d ∷ body in
        let behind : r ≡ tail = e1 ∙ ap (λ x. major ∷ minor ∷ flags ∷ type ∷ x) e2 in
        let word : g ∷ i ∷ o ∷ q ∷ [] ≡ magic =
          sym (ap (take 4) e) ∙ bytes_eq_sound (take 4 p) magic same in
        let is : p ≡ headed major minor flags type a b c d body =
          e ∙ ap (λ x. g ∷ i ∷ o ∷ q ∷ x) behind ∙ ap (λ x. x ++ tail) word in
        subst Known (sym is) (
          headed-Known major minor flags type a b c d body (subst (All IsByte) is bytes)
            (subst (λ x. 16 ≤ length x) is long))
    | inr other ↦ (
      err missing_header,
      foreign p long (λ e. cc (bytes_eq_refl magic, ap (λ x. bytes_eq x magic) e, other)),
      rw
          (
            le→ltb (length p) 16 long,
            scan_giop_header-no_magic there (new_giop_decoder (new_decoder p) none) long other,
          )
          refl,
    )
  ]

  first-Known : (p : List ℕ) → All IsByte p → Known p
  first-Known p bytes = elim (dec_lt (length p) 16) [
    | yes short ↦ (ok none, few p short, front-few there p short)
    | no long ↦ long-Known p bytes (omega arith)
  ]

  -- `message()` does what is right for the pending octets by the layout of a GIOP header: of a
  -- whole message it hands out exactly that one and keeps what follows; of the beginning of a
  -- message it hands out nothing and keeps all; where the magic word is missing it throws; and of
  -- fewer than 16 octets it hands out nothing and keeps all, whatever they are. Behind all but
  -- the throw the offset lies in the buffer and the remembered size is right. The offset lies in
  -- the buffer and the remembered size is that of the pending message before, and the octets are
  -- below 256.
  pub message-First :
      (s : Stream)
      → IsCached there s
      → All IsByte (pending s)
      → (f : Result (Option (List ℕ × List ℕ))) × First (pending s) f
        × Matches there s (message there s) f
  message-First s c bytes =
      let (f, found, known) = first-Known (pending s) bytes in
      (f, found, subst (Matches there s (message there s)) known (message-Matches there s c))
