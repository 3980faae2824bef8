-- ===== src/Giop/Decoder/Scan.antt =====
-- `scanGIOPHeader` of giop.cc on any input.
use corba_cc.Base.{
  ℕ, zero, suc, ◌%◌, ◌≤◌, ◌<◌, ◌≡◌, ◌≢◌, refl, ap, ◌∙◌, List, [], ◌∷◌, arith, length, Option, some,
  ◌==◌, Result, ok, err, ◌>>=◌, bind-eq-ok, Bool-cases, inl, inr, length-append, take-append_le,
  take, ltb, bytes_eq, true, false, get_elem?, packet_too_small, missing_header, le→ltb, lt→ltb,
  drop, bytes_eq_sound, bytes_eq_refl,
}
use native.Mathlib.Decide.{dec_lt}
use corba_cc.Cdr.Bytes.{ByteOrder}
use corba_cc.Cdr.Encoder.{align_to}
use corba_cc.Cdr.Decoder.{
  Decoder, skip, at_offset, read_octet, read_word, read_ulong, ptr, align, fetch, set_little_endian,
  from_native,
}
use corba_cc.Cdr.Decoder.Extend.{extend, read_octet-Extends, read_word-Extends}
use corba_cc.Giop.Decoder.{GiopDecoder, magic, scan_giop_header, scan_header_fields, message_type}

abbrev pub extend_giop : List ℕ → GiopDecoder → GiopDecoder
extend_giop more g = record g { buffer = extend more g.buffer }

scan_header_fields-extend :
    (there : ByteOrder) (more : List ℕ) (g g' : GiopDecoder)
    → scan_header_fields there g ≡ ok g'
    → scan_header_fields there (extend_giop more g) ≡ ok (extend_giop more g')
unfolding scan_header_fields read_ulong
scan_header_fields-extend there more g g' h =
    let ((major, d1), e1, h1) = bind-eq-ok (read_octet (record g.buffer { offset = 4 })) _ g' h in
    let ((minor, d2), e2, h2) = bind-eq-ok (read_octet d1) _ g' h1 in
    let ((flags, d3), e3, h3) = bind-eq-ok (read_octet d2) _ g' h2 in
    let ((type, d4), e4, h4) =
      bind-eq-ok (read_octet (set_little_endian (flags % 2 == 1) d3)) _ g' h3 in
    let ((size, d5), e5, h5) = bind-eq-ok (read_word there 4 d4) _ g' h4 in
    rw
      (
        read_octet-Extends more (record g.buffer { offset = 4 }) major d1 e1,
        read_octet-Extends more d1 minor d2 e2,
        read_octet-Extends more d2 flags d3 e3,
      )
      (unfold set_little_endian in
        rw
          (
            read_octet-Extends more (set_little_endian (flags % 2 == 1) d3) type d4 e4,
            read_word-Extends there 4 more d4 size d5 e5,
          )
          (ap (λ x. x >>= λ y. ok (extend_giop more y)) h5))

scan_giop_header-inv :
    (there : ByteOrder) (g g' : GiopDecoder)
    → scan_giop_header there g ≡ ok g'
    → (16 ≤ length g.buffer.data_)
      × (bytes_eq (take 4 g.buffer.data_) magic ≡ true)
      × (scan_header_fields there g ≡ ok g')
unfolding scan_giop_header
scan_giop_header-inv there g g' h = ground arith

scan_giop_header-intro :
    (there : ByteOrder) (g : GiopDecoder)
    → 16 ≤ length g.buffer.data_
    → bytes_eq (take 4 g.buffer.data_) magic ≡ true
    → scan_giop_header there g ≡ scan_header_fields there g
unfolding scan_giop_header
scan_giop_header-intro there g long found = rw (le→ltb (length g.buffer.data_) 16 long, found)

-- A header that `scanGIOPHeader` recognises is recognised with the same fields in every longer
-- buffer.
pub scan_giop_header-extend :
    (there : ByteOrder) (more : List ℕ) (g g' : GiopDecoder)
    → scan_giop_header there g ≡ ok g'
    → scan_giop_header there (extend_giop more g) ≡ ok (extend_giop more g')
scan_giop_header-extend there more g g' h =
    let (long, found, fields) = scan_giop_header-inv there g g' h in
    scan_giop_header-intro there (extend_giop more g)
      (omega (arith, length-append g.buffer.data_ more))
      (rw (take-append_le 4 g.buffer.data_ more (omega arith)) found)
    ∙ scan_header_fields-extend there more g g' fields

-- An octet inside the buffer is read.
read_octet-inside :
    (d : Decoder) → d.offset < length d.data_ → (b : ℕ) × (read_octet d ≡ ok (b, skip 1 d))
unfolding read_octet
read_octet-inside d h = at (get_elem? d.data_ d.offset) refl
  where
    found : (xs : List ℕ) (i : ℕ) → i < length xs → (b : ℕ) × (get_elem? xs i ≡ some b)
    found [] i lt = absurd (omega arith)
    found (x ∷ xs) zero lt = (x, refl)
    found (x ∷ xs) (suc i) lt = found xs i (omega arith)

    at :
        (o : Option ℕ)
        → get_elem? d.data_ d.offset ≡ o
        → (b : ℕ) × (at_offset (get_elem? d.data_ d.offset) d ≡ ok (b, skip 1 d))
    at o e = let (b, p) = found d.data_ d.offset h in (b, rw p (unfold at_offset in refl))

read_ulong-at_8 :
    (there : ByteOrder) (d : Decoder)
    → d.offset ≡ 8
    → 12 ≤ length d.data_
    → (v : ℕ) × (read_ulong there d ≡ ok (v, record d { offset = 12 }))
unfolding read_ulong read_word ptr fetch align skip
read_ulong-at_8 there d at h =
    let aligned : align_to 4 d.offset ≡ 8 = rw at (unfold align_to in refl) in
    let near : ltb (length d.data_) 12 ≡ false = le→ltb _ 12 h in
    (from_native there d.endian (take 4 (drop 8 d.data_)), rw (aligned, near))

-- On every input of at least 16 octets that begins with the magic word the fields are read, and the
-- decoder stands at octet 12 of the same buffer.
scan_header_fields-total :
    (there : ByteOrder) (g : GiopDecoder)
    → 16 ≤ length g.buffer.data_
    → (g' : GiopDecoder) × (scan_header_fields there g ≡ ok g')
      × (g'.buffer.data_ ≡ g.buffer.data_)
      × (g'.buffer.offset ≡ 12)
unfolding scan_header_fields
scan_header_fields-total there g h =
    let d0 : Decoder = record g.buffer { offset = 4 } in
    let (major, e1) = read_octet-inside d0 (omega arith) in
    let (minor, e2) = read_octet-inside (skip 1 d0) (unfold skip in omega arith) in
    let (flags, e3) = read_octet-inside (skip 1 (skip 1 d0)) (unfold skip in omega arith) in
    let d4 : Decoder = set_little_endian (flags % 2 == 1) (skip 1 (skip 1 (skip 1 d0))) in
    let (type, e4) = read_octet-inside d4 (unfold skip set_little_endian in omega arith) in
    let (size, e5) =
      read_ulong-at_8 there (skip 1 d4) (unfold skip set_little_endian in refl)
        (unfold skip set_little_endian in omega arith) in
    let g' : GiopDecoder = record g {
      buffer = record (skip 1 d4) { offset = 12 };
      major_version = major;
      minor_version = minor;
      message_type = message_type type;
      message_length = size;
    } in
    (g', rw (e1, e2, e3, e4, e5), unfold skip set_little_endian in refl, refl)

-- The three ways in which a scan can end.
pub data Scanned (g : GiopDecoder) : Result GiopDecoder → Type 0 where
  too_small : length g.buffer.data_ < 16 → Scanned g (err packet_too_small)
  no_magic :
      16 ≤ length g.buffer.data_ → take 4 g.buffer.data_ ≢ magic → Scanned g (err missing_header)
  header :
      (g' : GiopDecoder)
      → 16 ≤ length g.buffer.data_
      → take 4 g.buffer.data_ ≡ magic
      → g'.buffer.data_ ≡ g.buffer.data_
      → g'.buffer.offset ≡ 12
      → Scanned g (ok g')

scan_giop_header-small :
    (there : ByteOrder) (g : GiopDecoder)
    → length g.buffer.data_ < 16
    → scan_giop_header there g ≡ err packet_too_small
unfolding scan_giop_header
scan_giop_header-small there g short = rw (lt→ltb (length g.buffer.data_) 16 short)

pub scan_giop_header-no_magic :
    (there : ByteOrder) (g : GiopDecoder)
    → 16 ≤ length g.buffer.data_
    → bytes_eq (take 4 g.buffer.data_) magic ≡ false
    → scan_giop_header there g ≡ err missing_header
unfolding scan_giop_header
scan_giop_header-no_magic there g long differs =
    rw (le→ltb (length g.buffer.data_) 16 long, differs)

-- On every input `scanGIOPHeader` ends in one of three ways: it throws for fewer than 16 octets,
-- it throws for another magic word, or it reads the fields and stands at octet 12 of the same
-- buffer. It never reads outside the buffer.
pub scan_giop_header-Scanned :
    (there : ByteOrder) (g : GiopDecoder) → Scanned g (scan_giop_header there g)
scan_giop_header-Scanned there g = elim (dec_lt (length g.buffer.data_) 16) [
  | yes short ↦ rw (scan_giop_header-small there g short) (too_small short)
  | no long ↦ elim (Bool-cases (bytes_eq (take 4 g.buffer.data_) magic)) [
    | inl same ↦
        let (g', e, d, o) = scan_header_fields-total there g (omega arith) in
        rw (scan_giop_header-intro there g (omega arith) same, e)
          (header g' (omega arith) (bytes_eq_sound _ magic same) d o)
    | inr differs ↦ rw (scan_giop_header-no_magic there g (omega arith) differs) (
        no_magic (omega arith)
          (λ e. cc (bytes_eq_refl magic, ap (λ x. bytes_eq x magic) e, differs)))
  ]
]
