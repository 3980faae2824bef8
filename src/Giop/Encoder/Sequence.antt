-- ===== src/Giop/Encoder/Sequence.antt =====
-- Sequences of any type, from the template `writeSequence` of giop.hh to `readSequence`.
use corba_cc.Base.{
  ◌^◌, ◌<◌, List, [], ◌∷◌, ◌++◌, ◌≡◌, refl, sym, some, length, All, append-nil, append_assoc, ok,
  ◌>>=◌, Result, arith, subst,
}
use corba_cc.Cdr.Bytes.{ByteOrder}
use corba_cc.Cdr.Encoder.{write_ulong, write_word}
use corba_cc.Cdr.Encoder.Append.{IsAppend}
use corba_cc.Cdr.Decoder.{Decoder, Read, read_ulong, read_word}
use corba_cc.Cdr.Codec.{Written, Written-seq, Written-then, word-Codec, pure-Written}
use corba_cc.Giop.Encoder.{GiopEncoder, on_buffer, write_elements, write_sequence}
use corba_cc.Giop.Decoder.{repeat, read_sequence}

-- What a write makes of an encoder, read back as `x`.
pub record Reread {A : Type 0} (host : ByteOrder) (r : Decoder → Read A) (x : A) (g : GiopEncoder)
    (written : Result GiopEncoder) : Type 0 where
  pub after : GiopEncoder
  pub result : written ≡ ok after
  pub read : Written (some host) r x g.buffer after.buffer

module _ {T : Type 0} (host there : ByteOrder)
    (write_element : T → GiopEncoder → Result GiopEncoder) (read_element : Decoder → Read T) where
  -- The closures of one element undo each other, wherever it is written.
  abbrev pub IsElement : T → Type 0
  IsElement x =
      (g : GiopEncoder) → IsAppend g.buffer → Reread host read_element x g (write_element x g)

  abbrev push : List T → Decoder → Read (List T)
  push out e = read_element e >>= λ x. ok (out ++ (x.0 ∷ []), x.1)

  elements-Reread :
      (xs out : List T) (g : GiopEncoder)
      → All IsElement xs
      → IsAppend g.buffer
      → Reread host (repeat (length xs) push out) (out ++ xs) g (write_elements write_element xs g)
  unfolding repeat write_elements
  elements-Reread [] out g _ h = record {
    after = g;
    result = refl;
    read =
        subst (λ v. Written (some host) (λ d. ok (out, d)) v g.buffer g.buffer)
          (sym (append-nil out)) (pure-Written (some host) out g.buffer h);
  }
  elements-Reread (x ∷ xs) out g (hx, hs) h =
      let first = hx g h in
      let next : List T = out ++ (x ∷ []) in
      let later = elements-Reread xs next first.after hs first.read.appends in
      let pushed : Written (some host) (push out) next g.buffer first.after.buffer =
        Written-then (λ a d. ok (out ++ (a ∷ []), d)) next (λ d. refl) first.read in
      record {
        after = later.after;
        result = rw first.result later.result;
        read =
            subst
              (λ v.
                Written (some host) (repeat (length (x ∷ xs)) push out) v g.buffer
                  later.after.buffer)
              (append_assoc out (x ∷ []) xs)
              (Written-seq (some host) (push out) (repeat (length xs) push) next (next ++ xs)
                g.buffer first.after.buffer later.after.buffer h pushed later.read);
      }

  -- The template `writeSequence` of giop.hh succeeds and `readSequence` reads the same elements
  -- back in their order, on machines of either byte order, whatever stands before and behind,
  -- when the closures for one element do so for every element of the sequence wherever it is
  -- written. The sequence has fewer than 2 ^ 32 elements and the encoder only appends.
  pub write_sequence-Reread :
      (xs : List T) (g : GiopEncoder)
      → length xs < 2 ^ 32
      → All IsElement xs
      → IsAppend g.buffer
      → Reread host (read_sequence there read_element) xs g (write_sequence host write_element xs g)
  unfolding write_sequence read_sequence read_ulong write_ulong
  write_sequence-Reread xs g short all h =
      let first = word-Codec host there 4 (length xs) (omega arith) short g.buffer h in
      let g1 : GiopEncoder = on_buffer (write_word host 4 (length xs)) g in
      let later = elements-Reread xs [] g1 all first.appends in
      record {
        after = later.after;
        result = later.result;
        read =
            Written-seq (some host) (read_word there 4) (λ n. repeat n push []) (length xs) xs
              g.buffer g1.buffer later.after.buffer h first later.read;
      }
