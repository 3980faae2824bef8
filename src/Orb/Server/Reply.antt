-- ===== src/Orb/Server/Reply.antt =====
-- A reply of GIOP 1.2: `setReplyHeader` of giop.cc, and `scanReplyHeader`.
pub mod Received
use corba_cc.Base.{
  ℕ, ◌+◌, ◌^◌, ◌≤◌, ◌<◌, ◌≡◌, refl, sym, ap, ◌∙◌, List, [], ◌∷◌, ◌++◌, append_assoc, append-nil,
  arith, Option, none, some, Bool, true, false, length, length-append, Result, ok, ◌>>=◌,
}
use corba_cc.Cdr.Bytes.{ByteOrder, store}
use corba_cc.Cdr.Bytes.Laws.{length-store}
use corba_cc.Cdr.Encoder.{
  Encoder, overwrite, emit, align, align_to, write_word, write_ulong, poke, reserve,
}
use corba_cc.Cdr.Encoder.Append.{wire, IsAppend, length-wire, overwrite_middle}
use corba_cc.Cdr.Encoder.Patch.{emit_inside, emit-emit, align_aligned}
use corba_cc.Giop.Enums.{MessageType, ReplyStatus, reply_status_code}
use corba_cc.Giop.Encoder.{GiopEncoder, skip_giop_header, set_giop_header, set_reply_header}

-- The twelve octets behind the header of the message.
abbrev pub reply_octets : ByteOrder → ℕ → ℕ → List ℕ
reply_octets host id status = store host 4 id ++ (store host 4 status ++ store host 4 0)

module _ (host : ByteOrder) (id status : ℕ) (e : Encoder) (room : 24 ≤ length e.buffer) where
  at_twelve : Encoder
  at_twelve = record e { offset = 12 }

  still : (x : Encoder) (n : ℕ) → x.offset ≡ n → align_to 4 n ≡ n → align 4 x ≡ x
  still x n h a = align_aligned 4 x (ap (align_to 4) h ∙ a ∙ sym h)

  offset-emit : (bs : List ℕ) → (emit bs at_twelve).offset ≡ 12 + length bs
  unfolding emit poke reserve at_twelve
  offset-emit bs = refl

  write_fields :
      write_ulong host 0 (write_ulong host status (write_ulong host id (record e { offset = 10 })))
      ≡ emit (reply_octets host id status) at_twelve
  unfolding write_ulong write_word
  write_fields =
      let a = store host 4 id in
      let b = store host 4 status in
      let z = store host 4 0 in
      let first : align 4 (record e { offset = 10 }) ≡ at_twelve =
        unfold align align_to at_twelve in refl in
      let second : align 4 (emit a at_twelve) ≡ emit a at_twelve =
        still (emit a at_twelve) 16 (omega (arith, offset-emit a, length-store host 4 id))
          (unfold align_to in refl) in
      let third : align 4 (emit (a ++ b) at_twelve) ≡ emit (a ++ b) at_twelve =
        still (emit (a ++ b) at_twelve) 20
          (omega (
            arith,
            offset-emit (a ++ b),
            length-append a b,
            length-store host 4 id,
            length-store host 4 status,
          ))
          (unfold align_to in refl) in
      ap (λ x. emit z (align 4 (emit b (align 4 (emit a x))))) first
      ∙ ap (λ x. emit z (align 4 (emit b x))) second
      ∙ ap (λ x. emit z (align 4 x))
          (emit-emit a b at_twelve
            (unfold at_twelve in omega (arith, length-store host 4 id, length-store host 4 status)))
      ∙ ap (emit z) third
      ∙ emit-emit (a ++ b) z at_twelve (
          unfold at_twelve in
          omega (
            arith,
            length-append a b,
            length-store host 4 id,
            length-store host 4 status,
            length-store host 4 0,
          ))
      ∙ ap (λ bs. emit bs at_twelve) (append_assoc a b z)

  -- The octets in place.
  buffer-fields :
      (head old rest : List ℕ)
      → e.buffer ≡ head ++ (old ++ rest)
      → length head ≡ 12
      → length old ≡ 12
      → (emit (reply_octets host id status) at_twelve).buffer
        ≡ head ++ (reply_octets host id status ++ rest)
  unfolding at_twelve
  buffer-fields head old rest laid h o =
      let n : length (reply_octets host id status) ≡ 12 = omega (
        arith,
        length-append (store host 4 id) (store host 4 status ++ store host 4 0),
        length-append (store host 4 status) (store host 4 0),
        length-store host 4 id,
        length-store host 4 status,
        length-store host 4 0,
      ) in
      ap (λ x. x.buffer)
        (emit_inside (reply_octets host id status) (record e { offset = 12 }) (omega arith))
      ∙ ap (overwrite 12 (reply_octets host id status)) laid
      ∙ overwrite_middle head old (reply_octets host id status) rest 12 h (o ∙ sym n)
