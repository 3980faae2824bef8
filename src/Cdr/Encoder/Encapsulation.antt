-- ===== src/Cdr/Encoder/Encapsulation.antt =====
-- `reserveSize` and `fillInSize` of cdr.cc: a body behind its length.
use corba_cc.Base.{
  ℕ, ◌+◌, ◌-◌, ◌%◌, ◌^◌, ◌≤◌, ◌<◌, ◌≡◌, refl, sym, ap, ◌∙◌, List, ◌∷◌, ◌++◌, arith, length,
  replicate, length-append, append_assoc, ok,
}
use corba_cc.Cdr.Bytes.{ByteOrder, store}
use corba_cc.Cdr.Bytes.Laws.{length-store}
use corba_cc.Cdr.Encoder.{
  Encoder, overwrite, emit, align_to, align, write_word, write_ulong, reserve_size, fill_in,
  fill_in_size, poke, reserve,
}
use corba_cc.Cdr.Encoder.Append.{
  wire, IsAppend, length-wire, resize_grow, overwrite_middle, align-IsAppend,
}
use corba_cc.Cdr.Encoder.Patch.{patch, patch-IsAppend, wire-patch}

pub align_to_idem : (offset : ℕ) → align_to 4 (align_to 4 offset) ≡ align_to 4 offset
unfolding align_to
align_to_idem offset = ground arith

pub reserve_size-IsAppend : (e : Encoder) → IsAppend e → IsAppend (reserve_size e)
unfolding reserve_size
reserve_size-IsAppend e h =
    let a : IsAppend (align 4 e) = align-IsAppend 4 e (omega arith) h in unfold align in omega arith

pub wire-reserve_size :
    (e : Encoder) → IsAppend e → wire (reserve_size e) ≡ wire (align 4 e) ++ replicate 4 0
unfolding reserve_size wire align
wire-reserve_size e h =
    let a : IsAppend (align 4 e) = align-IsAppend 4 e (omega arith) h in
    resize_grow (align_to 4 e.offset) 4 e.buffer a

-- What the encoder holds after `fillInSize`.
pub record Filled (host : ByteOrder) (e after : Encoder) (body : List ℕ) : Type 0 where
  pub appends : IsAppend after
  pub wire_eq : wire after ≡ wire (align 4 e) ++ (store host 4 (length body) ++ body)
  pub stack_eq : after.size_stack ≡ e.size_stack

-- The size that `fillInSize` writes is that of what was written since `reserveSize`.
module _ (host : ByteOrder) (e e2 : Encoder) (body : List ℕ) (h : IsAppend e) (h2 : IsAppend e2)
    (written : wire e2 ≡ wire (reserve_size e) ++ body)
    (stack : e2.size_stack ≡ (reserve_size e).size_stack) (fits : length body < 2 ^ 32) where
  start : ℕ
  start = align_to 4 e.offset

  length-start : length (wire (align 4 e)) ≡ start
  unfolding start align
  length-start = length-wire (align 4 e) (align-IsAppend 4 e (omega arith) h)

  offset_eq : e2.offset ≡ start + 4 + length body
  unfolding start
  offset_eq = omega (
    arith,
    length-wire e2 h2,
    ap length written,
    length-append (wire (reserve_size e)) body,
    ap length (wire-reserve_size e h),
    length-append (wire (align 4 e)) (replicate 4 0),
    length-start,
  )

  filled : Encoder
  unfolding start patch
  filled = patch start (store host 4 (length body)) (record e2 { size_stack = e.size_stack })

  fill_in_size-filled : fill_in_size host e2 ≡ ok filled
  unfolding fill_in_size fill_in filled write_ulong write_word align reserve_size
  fill_in_size-filled =
      let top : (start + 4) ∷ e.size_stack ≡ e2.size_stack = unfold start in sym stack in
      let size : (e2.offset + 2 ^ 64 - (start + 4)) % 2 ^ 64 ≡ length body =
        omega (arith, offset_eq) in
      let back : start + 4 - 4 ≡ start = omega arith in
      let still : align_to 4 start ≡ start = unfold start in align_to_idem e.offset in
      rw (← top, size, back, still)

  filled-Filled : Filled host e filled body
  unfolding filled patch emit poke reserve
  filled-Filled =
      let room : start + length (store host 4 (length body)) ≤ e2.offset =
        omega (arith, offset_eq, length-store host 4 (length body)) in
      let e2' : Encoder = record e2 { size_stack = e.size_stack } in
      let laid : wire e2' ≡ wire (align 4 e) ++ (replicate 4 0 ++ body) =
        unfold wire in
        written
        ∙ ap (λ xs. xs ++ body) (wire-reserve_size e h)
        ∙ append_assoc (wire (align 4 e)) (replicate 4 0) body in
      record {
        appends = patch-IsAppend start (store host 4 (length body)) e2' h2 room;
        wire_eq =
            wire-patch start (store host 4 (length body)) e2' h2 room
            ∙ ap (overwrite start (store host 4 (length body))) laid
            ∙ overwrite_middle (wire (align 4 e)) (replicate 4 0) (store host 4 (length body)) body
                start length-start (sym (length-store host 4 (length body)));
        stack_eq = refl;
      }

  -- `fillInSize` puts the number of octets written since `reserveSize` in the reserved place,
  -- keeps every other octet and drops the remembered position: the message is what stood before,
  -- the padding, the size and the body. The encoder only appends, the body is shorter than 2 ^ 32
  -- octets, and the stack of positions is that of `reserveSize`.
  pub fill_in_size-Filled : (e3 : Encoder) × (fill_in_size host e2 ≡ ok e3) × Filled host e e3 body
  fill_in_size-Filled = (filled, fill_in_size-filled, filled-Filled)
