-- ===== src/Runs/Octets.antt =====
-- Runs of cdr.cc, and of the exceptions of orb.cc.
use corba_cc.Base.{
  ℕ, ◌≡◌, refl, List, [], ◌∷◌, arith, some, ok, Result, none, length, ◌+◌, ◌<◌, ◌^◌,
}
use corba_cc.Cdr.Bytes.{little, big}
use corba_cc.Cdr.Encoder.{
  Encoder, align, write_word, write_blob, write_string, write_sequence_float, reserve_size,
  fill_in_size, align_to,
}
use corba_cc.Cdr.Encoder.Append.{wire}
use corba_cc.Cdr.Encoder.Encapsulation.{Filled, fill_in_size-Filled}
use corba_cc.Cdr.Decoder.{Decoder, read_word, read_blob, read_string, read_sequence_float}
use corba_cc.Cdr.Decoder.Bounds.{IsChecked, read_string-IsChecked}
use corba_cc.Cdr.Codec.{Written, word-Codec}
use corba_cc.Cdr.RoundTrip.{blob-Codec, string-Codec, sequence_float-Codec}
use corba_cc.Cdr.Signed.{
  pos, negsuc, signed_integers-Codec, write_short, write_long, write_longlong, read_short,
  read_long, read_longlong,
}
use corba_cc.Cdr.Codec.{Codec}
use corba_cc.Giop.Encoder.{GiopEncoder, new_giop_encoder, on_buffer, write_sequence}
use corba_cc.Giop.Encoder.Sequence.{Reread, IsElement, write_sequence-Reread}
use corba_cc.Giop.Decoder.{read_sequence}
use corba_cc.Orb.Exceptions.{
  SystemException, completed_no, system, read_system_exception, write_system_exception,
}
use corba_cc.Orb.Exceptions.RoundTrip.{system_exception-Codec}

-- An encoder that has written three octets.
abbrev started : Encoder
started = record { buffer = 7 ∷ 8 ∷ 9 ∷ []; offset = 3; size_stack = [] }

abbrev name : List ℕ
name = b'h' ∷ b'i' ∷ []

word-Codec_example :
    Written (some little) (read_word big 4) 258 started (write_word little 4 258 started)
word-Codec_example = word-Codec little big 4 258 (omega arith) (omega arith) started (omega arith)

blob-Codec_example :
    Written (some big) (read_blob little) name started (write_blob big name started)
blob-Codec_example = blob-Codec big little name (omega arith) started (omega arith)

string-Codec_example :
    Written (some big) (read_string little) name started (write_string big name started)
string-Codec_example = string-Codec big little name (omega arith) started (omega arith)

abbrev numbers : List ℕ
numbers = 0x3f800000 ∷ 0x40000000 ∷ []

sequence_float-Codec_example :
    Written
      (some big)
      (read_sequence_float big)
      numbers
      started
      (write_sequence_float big numbers started)
sequence_float-Codec_example =
    sequence_float-Codec big numbers (omega arith) (omega arith, (omega arith, tt)) started
      (omega arith)

-- A string whose length says more than is there.
abbrev truncated : Decoder
truncated = record { data_ = 0 ∷ 0 ∷ 0 ∷ 9 ∷ b'h' ∷ []; offset = 0; endian = some big }

read_string-IsChecked_example : IsChecked truncated (read_string little truncated)
read_string-IsChecked_example = read_string-IsChecked little truncated

-- Two octets behind a size that has been reserved.
abbrev filling : Encoder
filling = record {
  buffer = 7 ∷ 8 ∷ 9 ∷ 0 ∷ 0 ∷ 0 ∷ 0 ∷ 0 ∷ 5 ∷ 6 ∷ [];
  offset = 10;
  size_stack = 8 ∷ [];
}

fill_in_size-Filled_example :
    (e : Encoder) × (fill_in_size big filling ≡ ok e) × Filled big started e (5 ∷ 6 ∷ [])
unfolding wire reserve_size align align_to
fill_in_size-Filled_example =
    fill_in_size-Filled big started filling (5 ∷ 6 ∷ []) (omega arith) (omega arith) refl refl
      (omega arith)

system_exception-Codec_example :
    Written
      (some little)
      (read_system_exception big)
      (system SystemException.timeout 3 completed_no)
      started
      (write_system_exception little SystemException.timeout 3 completed_no started)
system_exception-Codec_example =
    system_exception-Codec little big SystemException.timeout 3 completed_no tt (omega arith) tt
      started (omega arith)

-- -5, the greatest number and -1.
signed_integers-Codec_example :
    Codec (some little) (write_short little (negsuc 4)) (read_short big) (negsuc 4)
    × Codec (some little) (write_long little (pos 2147483647)) (read_long big) (pos 2147483647)
    × Codec (some little) (write_longlong little (negsuc 0)) (read_longlong big) (negsuc 0)
signed_integers-Codec_example =
    signed_integers-Codec little big (negsuc 4) (pos 2147483647) (negsuc 0) (omega arith)
      (omega arith) (omega arith)

-- Strings as elements.
abbrev write_text : List ℕ → GiopEncoder → Result GiopEncoder
write_text bs g = ok (on_buffer (write_string big bs) g)

abbrev writer : GiopEncoder
writer = on_buffer (λ e. started) (new_giop_encoder none)

text-IsElement :
    (bs : List ℕ) → length bs + 1 < 2 ^ 32 → IsElement big little write_text (read_string little) bs
text-IsElement bs h g a = record {
  after = on_buffer (write_string big bs) g;
  result = refl;
  read = string-Codec big little bs h g.buffer a;
}

write_sequence-Reread_example :
    Reread big
      (read_sequence little (read_string little))
      (name ∷ (b'x' ∷ []) ∷ [])
      writer
      (write_sequence big write_text (name ∷ (b'x' ∷ []) ∷ []) writer)
write_sequence-Reread_example =
    write_sequence-Reread big little write_text (read_string little) (name ∷ (b'x' ∷ []) ∷ [])
      writer (omega arith)
      (text-IsElement name (omega arith), (text-IsElement (b'x' ∷ []) (omega arith), tt))
      (omega arith)
