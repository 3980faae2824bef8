-- ===== src/Giop/Decoder/Context.antt =====
-- An empty list of service contexts, and a body behind its encapsulation: `writeServiceContext`
-- and `writeEncapsulation` of giop.cc with what reads them.
use corba_cc.Base.{
  ℕ, suc, ◌+◌, ◌%◌, ◌^◌, ◌≤◌, ◌<◌, ◌≡◌, refl, sym, ap, ◌∙◌, List, [], ◌∷◌, ◌++◌, arith, Option,
  some, length, length-append, append_assoc, ok, ◌>>=◌, ◌==◌,
}
use corba_cc.Cdr.Bytes.{ByteOrder, store}
use corba_cc.Cdr.Bytes.Laws.{length-store}
use corba_cc.Cdr.Encoder.{
  Encoder, emit, align_to, align, overwrite, write_word, write_ulong, write_endian, endian_flag,
  reserve_size, write_octet, poke, fill_in_size, reserve,
}
use corba_cc.Cdr.Encoder.Append.{
  wire, IsAppend, length-wire, overwrite_middle, align-IsAppend, emit-IsAppend, wire-emit,
}
use corba_cc.Cdr.Encoder.Patch.{patch, patch-IsAppend, wire-patch}
use corba_cc.Cdr.Encoder.Encapsulation.{Filled, fill_in_size-Filled, reserve_size-IsAppend}
use corba_cc.Cdr.Decoder.{Decoder, Read, read_ulong, read_word, read_octet, set_little_endian}
use corba_cc.Cdr.Decoder.Cursor.{cursor, read_octet-cursor}
use corba_cc.Cdr.Codec.{Covered, Written, Written-seq, word-Codec, pure-Written}
use corba_cc.Giop.Decoder.Header.{set_little_endian-flag}
use corba_cc.Cdr.Decoder.Cursor.{decoder_path}
use corba_cc.Giop.Types.{HostAndPort}
use corba_cc.Giop.Encoder.{rewrite_ulong}
use corba_cc.Giop.Decoder.{
  repeat, read_service_context, read_encapsulation, read_context_body, service_id,
}

-- The number that stands at an offset is replaced when the offset is written to again.
module _ (host : ByteOrder) (v w : ℕ) (e e2 : Encoder) (body : List ℕ) (h : IsAppend e)
    (h2 : IsAppend e2) (written : wire e2 ≡ wire (write_ulong host w e) ++ body) where
  at : ℕ
  at = align_to 4 e.offset

  rewrite_ulong-patch : rewrite_ulong host e.offset v e2 ≡ patch at (store host 4 v) e2
  unfolding rewrite_ulong write_ulong write_word align at patch
  rewrite_ulong-patch = refl

  laid : wire e2 ≡ wire (align 4 e) ++ (store host 4 w ++ body)
  unfolding write_ulong write_word
  laid =
      written
      ∙ ap (λ xs. xs ++ body)
          (wire-emit (store host 4 w) (align 4 e) (align-IsAppend 4 e (omega arith) h))
      ∙ append_assoc (wire (align 4 e)) (store host 4 w) body

  length_front : length (wire (align 4 e)) ≡ at
  unfolding at align
  length_front = length-wire (align 4 e) (align-IsAppend 4 e (omega arith) h)

  room : at + length (store host 4 v) ≤ e2.offset
  room = omega (
    arith,
    length-wire e2 h2,
    ap length laid,
    length-append (wire (align 4 e)) (store host 4 w ++ body),
    length-append (store host 4 w) body,
    length-store host 4 w,
    length-store host 4 v,
    length_front,
  )

  pub rewrite_ulong-IsAppend : IsAppend (rewrite_ulong host e.offset v e2)
  rewrite_ulong-IsAppend = rw rewrite_ulong-patch (patch-IsAppend at (store host 4 v) e2 h2 room)

  pub wire-rewrite_ulong :
      wire (rewrite_ulong host e.offset v e2) ≡ wire (write_ulong host v e) ++ body
  unfolding write_ulong write_word
  wire-rewrite_ulong =
      ap wire rewrite_ulong-patch
      ∙ wire-patch at (store host 4 v) e2 h2 room
      ∙ ap (overwrite at (store host 4 v)) laid
      ∙ overwrite_middle (wire (align 4 e)) (store host 4 w) (store host 4 v) body at length_front
          (length-store host 4 w ∙ sym (length-store host 4 v))
      ∙ sym (append_assoc (wire (align 4 e)) (store host 4 v) body)
      ∙ ap (λ xs. xs ++ body)
          (sym (wire-emit (store host 4 v) (align 4 e) (align-IsAppend 4 e (omega arith) h)))

-- What `writeEncapsulation` writes before the body.
unfoldable pub open_body : ByteOrder → ℕ → Encoder → Encoder
open_body host type e = write_endian host (reserve_size (write_ulong host type e))

pub open_body-IsAppend :
    (host : ByteOrder) (type : ℕ) (e : Encoder) → IsAppend e → IsAppend (open_body host type e)
unfolding open_body write_endian write_octet write_ulong write_word
open_body-IsAppend host type e h = emit-IsAppend ((endian_flag host % 256) ∷ []) _ (
    reserve_size-IsAppend _
      (emit-IsAppend (store host 4 type) (align 4 e) (align-IsAppend 4 e (omega arith) h)))

module _ (host there : ByteOrder) where
  pub no_context-Written :
      (remote : Option HostAndPort) (e : Encoder)
      → IsAppend e
      → Written (some host) (read_service_context there remote) remote e (write_ulong host 0 e)
  unfolding read_service_context read_ulong write_ulong repeat
  no_context-Written remote e h =
      let first = word-Codec host there 4 0 (omega arith) (omega arith) e h in
      Written-seq (some host) (read_word there 4)
        (λ n d.
          repeat n (read_encapsulation there (λ type. read_context_body there (service_id type)))
            remote d)
        0 remote e (write_word host 4 0 e) (write_word host 4 0 e) h first
        (pure-Written (some host) remote (write_word host 4 0 e) first.appends)

  -- A body that is written behind its type, its size and the byte order, and what reads it.
  module _ {S : Type 0} (type : ℕ) (closure : ℕ → S → Decoder → Read S) (s a : S) (e e2 : Encoder)
      (h : IsAppend e) (small : type < 2 ^ 32) where
    module _ (body : Covered (some host) (closure type s) a (open_body host type e) e2)
        (stack : e2.size_stack ≡ (open_body host type e).size_stack)
        (fits : suc (length body.bytes) < 2 ^ 32) where
      pub octets : List ℕ
      octets = (endian_flag host % 256) ∷ body.bytes

      typed-IsAppend : IsAppend (write_ulong host type e)
      unfolding write_ulong
      typed-IsAppend = (word-Codec host there 4 type (omega arith) small e h).appends

      pub filled :
          (e3 : Encoder) × (fill_in_size host e2 ≡ ok e3)
          × Filled host (write_ulong host type e) e3 octets
      unfolding open_body write_endian write_octet octets emit poke reserve_size reserve
      filled =
          fill_in_size-Filled host (write_ulong host type e) e2 octets typed-IsAppend body.appends
            (body.wire_eq
              ∙ ap (λ xs. xs ++ body.bytes)
                  (unfold emit poke in
                    wire-emit ((endian_flag host % 256) ∷ [])
                      (reserve_size (write_ulong host type e))
                      (reserve_size-IsAppend (write_ulong host type e) typed-IsAppend))
              ∙ append_assoc (wire (reserve_size (write_ulong host type e)))
                  ((endian_flag host % 256) ∷ []) body.bytes)
            stack fits

      sized : Encoder
      sized = write_ulong host (length octets) (write_ulong host type e)

      -- The part of `readEncapsulation` behind the size.
      inside : ℕ → ℕ → Decoder → Read S
      inside t n d = do
        (flags, d3) ← read_octet d
        (s', d4) ← closure t s (set_little_endian (flags % 2 == 1) d3)
        ok (s', record d4 { endian = d.endian; offset = d.offset + n })

      sized-Written :
          Written (some host) (read_ulong there) (length octets) (write_ulong host type e) sized
      unfolding octets sized write_ulong read_ulong
      sized-Written =
          word-Codec host there 4 (length octets) (omega arith) fits (write_ulong host type e)
            typed-IsAppend

      offset_opened : (open_body host type e).offset ≡ sized.offset + 1
      unfolding open_body sized octets write_endian write_octet write_ulong write_word emit poke
          reserve_size align reserve
      offset_opened = omega (arith, length-store host 4 (length octets))

      inside-reads :
          (pre rest : List ℕ)
          → length pre ≡ sized.offset
          → inside type (length octets) (cursor (some host) pre (octets ++ rest))
            ≡ ok (a, cursor (some host) (pre ++ octets) rest)
      unfolding inside octets
      inside-reads pre rest here =
          let flag : ℕ = endian_flag host % 256 in
          let read =
            body.reads (pre ++ (flag ∷ [])) rest
              (omega (arith, length-append pre (flag ∷ []), offset_opened)) in
          rw
            (
              read_octet-cursor (some host) pre flag (body.bytes ++ rest),
              set_little_endian-flag (some host) host (pre ++ (flag ∷ [])) (body.bytes ++ rest),
              read.1,
            )
            (ap (λ d. ok (a, d))
              (decoder_path (some host) _ _ _ _
                (append_assoc pre (flag ∷ []) (body.bytes ++ rest)
                  ∙ sym (append_assoc pre (flag ∷ body.bytes) rest))
                (sym (length-append pre (flag ∷ body.bytes)))))

      wire-sized :
          wire (align 4 (write_ulong host type e)) ++ (store host 4 (length octets) ++ octets)
          ≡ wire sized ++ octets
      unfolding sized write_ulong write_word
      wire-sized =
          sym (
            append_assoc (wire (align 4 (write_ulong host type e))) (store host 4 (length octets))
              octets)
          ∙ ap (λ xs. xs ++ octets)
              (sym (
                wire-emit (store host 4 (length octets)) (align 4 (write_ulong host type e))
                  (align-IsAppend 4 (write_ulong host type e) (omega arith) typed-IsAppend)))

      pub encapsulation-Written :
          Written (some host) (read_encapsulation there closure s) a e filled.0
      unfolding read_encapsulation inside write_ulong read_ulong
      encapsulation-Written =
          let third : Written (some host) (inside type (length octets)) a sized filled.0 = record {
            bytes = octets;
            wire_eq = filled.2.wire_eq ∙ wire-sized;
            appends = filled.2.appends;
            reads = inside-reads;
          } in
          let first = word-Codec host there 4 type (omega arith) small e h in
          Written-seq (some host) (read_word there 4)
            (λ t d. read_word there 4 d >>= λ n. inside t n.0 n.1) type a e
            (write_ulong host type e) filled.0 h first
            (Written-seq (some host) (read_word there 4) (inside type) (length octets) a
              (write_ulong host type e) sized filled.0 typed-IsAppend sized-Written third)
