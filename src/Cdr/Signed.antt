-- ===== src/Cdr/Signed.antt =====
-- The signed integers of cdr.cc, in two's complement: `writeShort`, `writeLong`, `writeLonglong` and
-- what reads them.
use corba_cc.Base.{
  ℕ, ◌-◌, ◌*◌, ◌%◌, ◌^◌, ◌<◌, ◌≡◌, refl, ap, ltb, if◌then◌else◌, some, ok, ◌>>=◌, arith, lt→ltb,
  le→ltb, small,
}
use corba_cc.Cdr.Bytes.{ByteOrder}
use corba_cc.Cdr.Encoder.{Encoder, write_word}
use corba_cc.Cdr.Decoder.{Decoder, Read, read_word}
use corba_cc.Cdr.Codec.{Codec, Written-then, word-Codec}

pub data ℤ : Type 0 where
  pos negsuc : ℕ → ℤ

-- The conversion of an integer to an unsigned word whose values end at `2 * half`.
unfoldable pub to_word : ℕ → ℤ → ℕ
to_word half (pos n) = n % (2 * half)
to_word half (negsuc n) = 2 * half - 1 - n % (2 * half)

-- The integer that a word of those stands for.
unfoldable pub of_word : ℕ → ℕ → ℤ
of_word half v = if ltb v half then pos v else negsuc (2 * half - 1 - v)

-- Half the number of values of a word of `k` octets.
abbrev pub half : ℕ → ℕ
half k = 128 * 256 ^ (k - 1)

unfoldable pub write_short : ByteOrder → ℤ → Encoder → Encoder
write_short host z e = write_word host 2 (to_word (half 2) z) e

unfoldable pub write_long : ByteOrder → ℤ → Encoder → Encoder
write_long host z e = write_word host 4 (to_word (half 4) z) e

unfoldable pub write_longlong : ByteOrder → ℤ → Encoder → Encoder
write_longlong host z e = write_word host 8 (to_word (half 8) z) e

unfoldable pub read_short : ByteOrder → Decoder → Read ℤ
read_short there d = do (v, d') ← read_word there 2 d; ok (of_word (half 2) v, d')

unfoldable pub read_long : ByteOrder → Decoder → Read ℤ
read_long there d = do (v, d') ← read_word there 4 d; ok (of_word (half 4) v, d')

unfoldable pub read_longlong : ByteOrder → Decoder → Read ℤ
read_longlong there d = do (v, d') ← read_word there 8 d; ok (of_word (half 8) v, d')

-- From `- half` to `half - 1`.
abbrev pub Fits : ℕ → ℤ → Type 0
Fits half (pos n) = n < half
Fits half (negsuc n) = n < half

of_word-to_word : (half : ℕ) (z : ℤ) → Fits half z → of_word half (to_word half z) ≡ z
unfolding of_word to_word
of_word-to_word half (pos n) h = rw (small n (2 * half) (omega arith), lt→ltb n half h) refl
of_word-to_word half (negsuc n) h =
    rw (small n (2 * half) (omega arith), le→ltb (2 * half - 1 - n) half (omega arith))
      (ap negsuc (omega arith))

to_word-bound : (half : ℕ) (z : ℤ) → Fits half z → to_word half z < 2 * half
unfolding to_word
to_word-bound half (pos n) h = rw (small n (2 * half) (omega arith)) (omega arith)
to_word-bound half (negsuc n) h = omega arith

module _ (host there : ByteOrder) where
  -- A signed number of `k` octets.
  signed-Codec :
      (k : ℕ) (z : ℤ)
      → 0 < k
      → 2 * half k ≡ 256 ^ k
      → Fits (half k) z
      → Codec
          (some host)
          (write_word host k (to_word (half k) z))
          (λ d. read_word there k d >>= λ x. ok (of_word (half k) x.0, x.1))
          z
  signed-Codec k z positive whole h e a =
      Written-then (λ v d. ok (of_word (half k) v, d)) z
        (λ d. ap (λ i. ok (i, d)) (of_word-to_word (half k) z h))
        (word-Codec host there k (to_word (half k) z) positive
          (omega (arith, to_word-bound (half k) z h, whole)) e a)

  -- The integers that `writeShort`, `writeLong` and `writeLonglong` write, `readShort`,
  -- `readLong` and `readLonglong` of a machine of either byte order read back, negative ones too,
  -- wherever they stand: for every integer of 16, 32 and 64 bits.
  pub signed_integers-Codec :
      (short long longlong : ℤ)
      → Fits (half 2) short
      → Fits (half 4) long
      → Fits (half 8) longlong
      → Codec (some host) (write_short host short) (read_short there) short
        × Codec (some host) (write_long host long) (read_long there) long
        × Codec (some host) (write_longlong host longlong) (read_longlong there) longlong
  unfolding write_short write_long write_longlong read_short read_long read_longlong
  signed_integers-Codec short long longlong h2 h4 h8 = (
    signed-Codec 2 short (omega arith) refl h2,
    signed-Codec 4 long (omega arith) refl h4,
    signed-Codec 8 longlong (omega arith) refl h8,
  )
