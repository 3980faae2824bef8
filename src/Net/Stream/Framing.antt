-- ===== src/Net/Stream/Framing.antt =====
-- The framing of pending octets, without offsets, compaction or a remembered size, and
-- `message()` of net/stream2packet.cc.
use corba_cc.Base.{
  ℕ, ◌+◌, ◌-◌, ◌≤◌, ◌<◌, ◌≡◌, refl, sym, ◌⊎◌, inl, inr, List, ◌++◌, Option, none, some, length,
  take, drop, ltb, leb, ◌==◌, ◌&&◌, if◌then◌else◌, Result, ok, err, ◌>>=◌, arith, bind-eq-ok,
  Bool-cases, length-drop, drop-drop, true, false, le→ltb, lt→ltb, drop-all,
}
use native.Mathlib.Decide.{dec_lt}
use corba_cc.Cdr.Bytes.{ByteOrder}
use corba_cc.Cdr.Decoder.{new_decoder}
use corba_cc.Giop.Decoder.{GiopDecoder, new_giop_decoder, scan_giop_header}
use corba_cc.Giop.Decoder.Scan.{scan_giop_header-extend}
use corba_cc.Net.Stream.{Stream, pending, scan_size, find_size, cut, message}

abbrev pub split_at : ℕ → List ℕ → Option (List ℕ × List ℕ)
split_at n p = if ltb (length p) n then none else some (take n p, drop n p)

-- The first message and what follows it, as `message()` finds them: once 16 octets are there, by the size
-- that it scans.
unfoldable pub front : ByteOrder → List ℕ → Result (Option (List ℕ × List ℕ))
front there p = if ltb (length p) 16 then ok none else do n ← scan_size there p; ok (split_at n p)

-- The offset lies in the buffer, and a size that is remembered is that of the pending message.
pub record IsCached (there : ByteOrder) (s : Stream) : Type 0 where
  pub inside : s.offset ≤ length s.data_
  pub cached :
      (s.message_size ≡ 0)
      ⊎ ((16 ≤ length (pending s)) × (scan_size there (pending s) ≡ ok s.message_size))

pub scan_size-ge : (there : ByteOrder) (p : List ℕ) (n : ℕ) → scan_size there p ≡ ok n → 12 ≤ n
unfolding scan_size
scan_size-ge there p n h =
    let (g, _, e) =
      bind-eq-ok (scan_giop_header there (new_giop_decoder (new_decoder p) none)) _ n h in
    ground (arith, e)

-- A size is found again when more octets have arrived.
pub scan_size-append :
    (there : ByteOrder) (p more : List ℕ) (n : ℕ)
    → scan_size there p ≡ ok n
    → scan_size there (p ++ more) ≡ ok n
unfolding scan_size new_giop_decoder new_decoder
scan_size-append there p more n h =
    let start : GiopDecoder = new_giop_decoder (new_decoder p) none in
    let (g, scanned, e) = bind-eq-ok (scan_giop_header there start) _ n h in
    rw (scan_giop_header-extend there more start g scanned) e

-- The model's answer `r` to `message()` in the state `s` is what the framing says.
abbrev pub Matches :
    ByteOrder
    → Stream
    → Result (Option (List ℕ) × Stream)
    → Result (Option (List ℕ × List ℕ))
    → Type 0
Matches there s (ok (none, s')) (ok none) = IsCached there s' × (pending s' ≡ pending s)
Matches there s (ok (some m, s')) (ok (some (m', rest))) =
    (m ≡ m') × IsCached there s' × (pending s' ≡ rest)
Matches there s (err e) (err e') = e ≡ e'
Matches there s _ _ = ⊥

cut-Matches :
    (there : ByteOrder) (s : Stream) (n : ℕ)
    → s.offset ≤ length s.data_
    → 16 ≤ length (pending s)
    → scan_size there (pending s) ≡ ok n
    → Matches there s (ok (cut n s)) (ok (split_at n (pending s)))
unfolding cut
cut-Matches there s n inside long found =
    let pos = scan_size-ge there (pending s) n found in
    let size : length (pending s) ≡ length s.data_ - s.offset = length-drop s.offset s.data_ in
    let nonzero : (n == 0) ≡ false = ground arith in
    elim (Bool-cases (ltb (length s.data_ - s.offset) n)) [
      | inl short ↦
          rw (size, nonzero, short)
            (record { inside = omega arith; cached = inr (long, found) }, refl)
      | inr enough ↦ elim (Bool-cases (s.offset + n == length s.data_)) [
        | inl last ↦
            rw (size, nonzero, enough, last)
              (
                refl,
                record { inside = omega arith; cached = inl refl },
                sym (drop-all n (pending s) (ground (arith, size))),
              )
        | inr inner ↦
            rw (size, nonzero, enough, inner)
              (
                refl,
                record { inside = ground arith; cached = inl refl },
                sym (drop-drop s.offset n s.data_),
              )
      ]
    ]

find_size-known :
    (there : ByteOrder) (s : Stream)
    → IsCached there s
    → 16 ≤ length (pending s)
    → find_size there s ≡ scan_size there (pending s)
unfolding find_size
find_size-known there s c long = by c.cached
  where
    size : length (pending s) ≡ length s.data_ - s.offset
    size = length-drop s.offset s.data_

    by :
        (s.message_size ≡ 0)
          ⊎ ((16 ≤ length (pending s)) × (scan_size there (pending s) ≡ ok s.message_size))
        → (if s.message_size == 0 && leb 16 (length s.data_ - s.offset)
            then scan_size there (pending s)
            else ok s.message_size)
          ≡ scan_size there (pending s)
    by (inl zero_size) =
        let fresh : (s.message_size == 0 && leb 16 (length s.data_ - s.offset)) ≡ true =
          ground (arith, size) in
        rw fresh
    by (inr (_, found)) =
        let known : (s.message_size == 0) ≡ false =
          ground (arith, scan_size-ge there (pending s) s.message_size found) in
        rw known (sym found)

message-short :
    (there : ByteOrder) (s : Stream)
    → IsCached there s
    → length (pending s) < 16
    → message there s ≡ ok (none, s)
unfolding message find_size cut
message-short there s c short = by c.cached
  where
    size : length (pending s) ≡ length s.data_ - s.offset
    size = length-drop s.offset s.data_

    by :
        (s.message_size ≡ 0)
          ⊎ ((16 ≤ length (pending s)) × (scan_size there (pending s) ≡ ok s.message_size))
        → message there s ≡ ok (none, s)
    by (inl zero_size) =
        let few : leb 16 (length s.data_ - s.offset) ≡ false = ground (arith, size) in
        let none_yet : (s.message_size == 0) ≡ true = ground arith in
        rw (few, none_yet) (rw (none_yet, cut))
    by (inr (long, _)) = absurd (omega arith)

-- `message()` does what the framing of the pending octets says, for an error, an incomplete
-- message and a message alike: it hands out the first message and keeps what follows, or it keeps
-- all that is pending, moved to the front or not; and afterwards the remembered size is again
-- that of the pending message. The offset lies in the buffer and the remembered size is right
-- before.
pub message-Matches :
    (there : ByteOrder) (s : Stream)
    → IsCached there s
    → Matches there s (message there s) (front there (pending s))
message-Matches there s c = elim (dec_lt (length (pending s)) 16) [
  | yes short ↦
      rw (message-short there s c short)
        (unfold front in rw (lt→ltb (length (pending s)) 16 short) (c, refl))
  | no long ↦
      unfold front message in
      rw (find_size-known there s c (omega arith), le→ltb (length (pending s)) 16 (omega arith))
        (by (scan_size there (pending s)) refl (omega arith))
]
  where
    by :
        (r : Result ℕ)
        → scan_size there (pending s) ≡ r
        → 16 ≤ length (pending s)
        → Matches there s (r >>= λ n. ok (cut n s)) (r >>= λ n. ok (split_at n (pending s)))
    by (ok n) e long = cut-Matches there s n c.inside long e
    by (err x) e long = refl
