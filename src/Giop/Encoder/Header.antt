-- ===== src/Giop/Encoder/Header.antt =====
-- `setGIOPHeader` of giop.cc and the message that it changes.
use corba_cc.Base.{
  ℕ, ◌+◌, ◌-◌, ◌%◌, ◌^◌, ◌≤◌, ◌≡◌, refl, sym, ap, ◌∙◌, List, [], ◌∷◌, ◌++◌, arith, length, ◌<◌,
  length-append,
}
use corba_cc.Cdr.Bytes.{ByteOrder, store}
use corba_cc.Cdr.Bytes.Laws.{length-store}
use corba_cc.Cdr.Encoder.{
  Encoder, reserve, emit, align_to, overwrite, write_octet, write_endian, endian_flag, write_word,
  write_ulong,
}
use corba_cc.Cdr.Encoder.Append.{wire, IsAppend, length-wire, overwrite_middle}
use corba_cc.Cdr.Encoder.Patch.{emit-emit, emit_inside, align_aligned}
use corba_cc.Giop.Enums.{MessageType, message_type_code}
use corba_cc.Giop.Encoder.{GiopEncoder, set_giop_header}

-- The twelve octets of a GIOP header.
unfoldable pub header_bytes : ByteOrder → ℕ → ℕ → MessageType → ℕ → List ℕ
header_bytes host major minor type size =
    b'G'
    ∷ b'I'
    ∷ b'O'
    ∷ b'P'
    ∷ (major % 256)
    ∷ (minor % 256)
    ∷ (endian_flag host % 256)
    ∷ (message_type_code type % 256)
    ∷ store host 4 size

pub length-header_bytes :
    (host : ByteOrder) (major minor : ℕ) (type : MessageType) (size : ℕ)
    → length (header_bytes host major minor type size) ≡ 12
unfolding header_bytes
length-header_bytes host major minor type size = omega (arith, length-store host 4 size)

module _ (host : ByteOrder) (type : MessageType) (major minor size : ℕ) (e : Encoder)
    (start : e.offset ≡ 0) (room : 12 ≤ length e.buffer) where
  octets : List ℕ
  octets =
      b'G'
      ∷ b'I'
      ∷ b'O'
      ∷ b'P'
      ∷ (major % 256)
      ∷ (minor % 256)
      ∷ (endian_flag host % 256)
      ∷ (message_type_code type % 256)
      ∷ []

  write_octets :
      write_octet (message_type_code type) (
        write_endian host (
          write_octet minor (
            write_octet major
              (write_octet b'P' (write_octet b'O' (write_octet b'I' (write_octet b'G' e)))))))
      ≡ emit octets e
  unfolding write_octet write_endian octets
  write_octets = rw (
    emit-emit (b'G' ∷ []) (b'I' ∷ []) e (omega arith),
    emit-emit (b'G' ∷ b'I' ∷ []) (b'O' ∷ []) e (omega arith),
    emit-emit (b'G' ∷ b'I' ∷ b'O' ∷ []) (b'P' ∷ []) e (omega arith),
    emit-emit (b'G' ∷ b'I' ∷ b'O' ∷ b'P' ∷ []) ((major % 256) ∷ []) e (omega arith),
    emit-emit (b'G' ∷ b'I' ∷ b'O' ∷ b'P' ∷ (major % 256) ∷ []) ((minor % 256) ∷ []) e (omega arith),
    emit-emit (b'G' ∷ b'I' ∷ b'O' ∷ b'P' ∷ (major % 256) ∷ (minor % 256) ∷ [])
        ((endian_flag host % 256) ∷ []) e (omega arith),
    emit-emit
        (b'G' ∷ b'I' ∷ b'O' ∷ b'P' ∷ (major % 256) ∷ (minor % 256) ∷ (endian_flag host % 256) ∷ [])
        ((message_type_code type % 256) ∷ []) e (omega arith),
  )

  write_size :
      write_ulong host size (emit octets e) ≡ emit (header_bytes host major minor type size) e
  unfolding write_ulong write_word octets header_bytes
  write_size =
      rw
        (align_aligned 4 (emit octets e) (
          rw (ap (λ x. x.offset) (emit_inside octets e (omega arith)))
            (rw start (unfold align_to in refl))))
        (emit-emit octets (store host 4 size) e (omega (arith, length-store host 4 size)))

-- `setGIOPHeader` replaces the first twelve octets of the message by the magic word, the version,
-- the byte order, the type and the number of octets that follow, and keeps all those. The encoder
-- only appends, it has passed over twelve octets, and its offset fits 64 bits.
pub message-set_giop_header :
    (host : ByteOrder) (type : MessageType) (g : GiopEncoder) (pre rest : List ℕ)
    → IsAppend g.buffer
    → wire g.buffer ≡ pre ++ rest
    → length pre ≡ 12
    → g.buffer.offset < 2 ^ 64
    → (set_giop_header host type g).buffer.buffer
      ≡ header_bytes host g.major_version g.minor_version type (length rest) ++ rest
unfolding set_giop_header
message-set_giop_header host type g pre rest h split n small =
    let e : Encoder = record (reserve g.buffer.offset g.buffer) { offset = 0 } in
    let total : g.buffer.offset ≡ 12 + length rest =
      omega (arith, length-wire g.buffer h, ap length split, length-append pre rest, n) in
    let held : e.buffer ≡ pre ++ rest = unfold reserve wire in split in
    let room : 12 ≤ length e.buffer = omega (arith, ap length held, length-append pre rest, n) in
    let size : (g.buffer.offset + 2 ^ 64 - 12) % 2 ^ 64 ≡ length rest = omega (arith, total) in
    let header : List ℕ = header_bytes host g.major_version g.minor_version type (length rest) in
    let all =
      ap (write_ulong host ((g.buffer.offset + 2 ^ 64 - 12) % 2 ^ 64))
        (write_octets host type g.major_version g.minor_version (length rest) e refl room)
      ∙ ap
          (λ s.
            write_ulong host s
              (emit (octets host type g.major_version g.minor_version (length rest) e refl room) e))
          size
      ∙ write_size host type g.major_version g.minor_version (length rest) e refl room in
    ap (λ x. x.buffer) all
    ∙ ap (λ x. x.buffer)
        (emit_inside header e (
          omega
            (arith, length-header_bytes host g.major_version g.minor_version type (length rest))))
    ∙ ap (overwrite 0 header) held
    ∙ overwrite_middle [] pre header rest 0 refl
        (n ∙ sym (length-header_bytes host g.major_version g.minor_version type (length rest)))
