-- ===== src/Giop/Decoder/Header.antt =====
-- `scanGIOPHeader` of giop.cc on what `setGIOPHeader` writes.
use corba_cc.Base.{
  ◌==◌, ℕ, ◌%◌, ◌^◌, ◌≤◌, ◌<◌, ◌≡◌, refl, List, [], ◌∷◌, ◌++◌, arith, length, Option, some, none,
  ok, ltb, false, le→ltb, length-append, bytes_eq, take, true,
}
use corba_cc.Cdr.Bytes.{ByteOrder, little, big, store}
use corba_cc.Cdr.Bytes.Laws.{length-store}
use corba_cc.Cdr.Encoder.{endian_flag, align_to}
use corba_cc.Cdr.Decoder.{set_little_endian, read_ulong}
use corba_cc.Cdr.Decoder.Cursor.{cursor, read_octet-cursor, read_word-cursor}
use native.Mathlib.Nat.{mod-eq_of_lt}
use corba_cc.Cdr.Encoder.Append.{padding}
use corba_cc.Giop.Enums.{MessageType, message_type, message_type_code}
use corba_cc.Giop.Encoder.Header.{header_bytes}
use corba_cc.Giop.Decoder.{GiopDecoder, scan_giop_header, scan_header_fields, magic}

pub set_little_endian-flag :
    (o : Option ByteOrder) (host : ByteOrder) (pre post : List ℕ)
    → set_little_endian (endian_flag host % 256 % 2 == 1) (cursor o pre post)
      ≡ cursor (some host) pre post
unfolding set_little_endian endian_flag
set_little_endian-flag o little pre post = refl
set_little_endian-flag o big pre post = refl

-- The first eight octets and the place of the length.
module _ (host there : ByteOrder) (major minor size : ℕ) (type : MessageType) (rest : List ℕ)
    (g : GiopDecoder) (b1 : major < 256) (b2 : minor < 256) (b3 : message_type_code type < 256)
    (b4 : size < 2 ^ 32) (named : message_type (message_type_code type) ≡ type) where
  abbrev pub start : GiopDecoder
  start = record g { buffer = cursor none [] (header_bytes host major minor type size ++ rest) }

  abbrev pub scanned : GiopDecoder
  scanned = record g {
    buffer = cursor (some host) (header_bytes host major minor type size) rest;
    major_version = major;
    minor_version = minor;
    message_type = type;
    message_length = size;
  }

  h4 : List ℕ
  h4 = b'G' ∷ b'I' ∷ b'O' ∷ b'P' ∷ []

  h7 : List ℕ
  h7 = b'G' ∷ b'I' ∷ b'O' ∷ b'P' ∷ (major % 256) ∷ (minor % 256) ∷ (endian_flag host % 256) ∷ []

  scan_header_fields-header : scan_header_fields there start ≡ ok scanned
  unfolding scan_header_fields header_bytes h4 h7 read_ulong padding align_to
  scan_header_fields-header =
      let t : ℕ = message_type_code type % 256 in
      let sized : List ℕ = store host 4 size ++ rest in
      rw
        (
          read_octet-cursor none h4 (major % 256)
              ((minor % 256) ∷ (endian_flag host % 256) ∷ t ∷ sized),
          read_octet-cursor none (h4 ++ ((major % 256) ∷ [])) (minor % 256)
              ((endian_flag host % 256) ∷ t ∷ sized),
          read_octet-cursor none (h4 ++ ((major % 256) ∷ (minor % 256) ∷ []))
              (endian_flag host % 256) (t ∷ sized),
          set_little_endian-flag none host h7 (t ∷ sized),
          read_octet-cursor (some host) h7 t sized,
          read_word-cursor there host 4 size (h7 ++ (t ∷ [])) rest (omega arith) b4,
        )
        (rw (mod-eq_of_lt b1, mod-eq_of_lt b2, mod-eq_of_lt b3, named))

  -- `scanGIOPHeader` recognises the header that `setGIOPHeader` writes, on a machine of either
  -- byte order: it gives the version, the type and the length, takes the byte order of the sender
  -- and stands behind the header. The version and the type's number fit an octet, the length fits
  -- 32 bits, the number names the type, and at least four octets follow.
  pub scan_giop_header-header : 4 ≤ length rest → scan_giop_header there start ≡ ok scanned
  unfolding scan_giop_header
  scan_giop_header-header long =
      let enough : ltb (length start.buffer.data_) 16 ≡ false =
        unfold header_bytes in
        le→ltb _ 16
          (omega (arith, length-append (store host 4 size) rest, length-store host 4 size)) in
      let found : bytes_eq (take 4 start.buffer.data_) magic ≡ true =
        unfold header_bytes bytes_eq in refl in
      rw (enough, found) scan_header_fields-header
