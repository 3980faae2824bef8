-- ===== src/Cdr/Decoder.antt =====
-- `CDRDecoder` of cdr.hh and cdr.cc. `data` is the memory from `_data` to `_data + length`. A read
-- returns its value and the decoder behind it; a throw ends the read.
pub mod Cursor
pub mod Bounds
pub mod Extend
use corba_cc.Base.{
  ℕ, zero, suc, ◌+◌, ◌-◌, ◌*◌, ◌/◌, ◌%◌, ◌^◌, List, [], ◌∷◌, ◌++◌, Bool, true, false, not, Option,
  none, some, length, take, drop, get_elem?, ltb, ◌==◌, if◌then◌else◌, Result, ok, err, ◌>>=◌,
  out_of_range, length_error, overrun, bytes_eq,
}
use corba_cc.Cdr.Bytes.{ByteOrder, little, big, load, bswap, is_native}
use corba_cc.Cdr.Encoder.{align_to}

pub record Decoder : Type 0 where
  pub data_ : List ℕ
  pub offset : ℕ
  pub endian : Option ByteOrder

-- `CDRDecoder(data, length)`.
unfoldable pub new_decoder : List ℕ → Decoder
new_decoder bs = record { data_ = bs; offset = 0; endian = none }

abbrev pub Read {ℓ} : Type ℓ → Type ℓ
Read A = Result (A × Decoder)

unfoldable pub set_little_endian : Bool → Decoder → Decoder
set_little_endian is_little d = record d { endian = some (if is_little then little else big) }

unfoldable pub align : ℕ → Decoder → Decoder
align k d = record d { offset = align_to k d.offset }

unfoldable pub skip : ℕ → Decoder → Decoder
skip n d = record d { offset = d.offset + n }

-- Octets that a pointer into the buffer gives, behind the check of the moved offset.
unfoldable pub fetch : ℕ → Decoder → Read (List ℕ)
fetch n d =
    if ltb (length d.data_) (d.offset + n)
    then err out_of_range
    else ok (take n (drop d.offset d.data_), skip n d)

-- `ptr2`, `ptr4` and `ptr8`.
unfoldable pub ptr : ℕ → Decoder → Read (List ℕ)
ptr k d = fetch k (align k d)

-- `_data[m_offset]`, which is not checked.
unfoldable pub at_offset : Option ℕ → Decoder → Read ℕ
at_offset none d = err overrun
at_offset (some b) d = ok (b, skip 1 d)

unfoldable pub read_octet : Decoder → Read ℕ
read_octet d = at_offset (get_elem? d.data_ d.offset) d

unfoldable pub read_boolean : Decoder → Read Bool
read_boolean d = do (v, d') ← read_octet d; ok (not (v == 0), d')

unfoldable pub read_endian : Decoder → Read (Unit {0})
read_endian d = do (v, d') ← read_octet d; ok (tt, set_little_endian (v % 2 == 1) d')

unfoldable pub from_native : ByteOrder → Option ByteOrder → List ℕ → ℕ
from_native host endian bs =
    if is_native host endian then load host bs else bswap (length bs) (load host bs)

-- A number of `k` octets: `readUshort`, `readUlong` and `readUlonglong`.
unfoldable pub read_word : ByteOrder → ℕ → Decoder → Read ℕ
read_word host k d = do (bs, d') ← ptr k d; ok (from_native host d'.endian bs, d')

unfoldable pub read_ushort : ByteOrder → Decoder → Read ℕ
read_ushort host d = read_word host 2 d

unfoldable pub read_ulong : ByteOrder → Decoder → Read ℕ
read_ulong host d = read_word host 4 d

unfoldable pub read_ulonglong : ByteOrder → Decoder → Read ℕ
read_ulonglong host d = read_word host 8 d

-- `readBlob` and `readBlobView`.
unfoldable pub read_blob : ByteOrder → Decoder → Read (List ℕ)
read_blob host d = do (len, d') ← read_ulong host d; fetch len d'

-- `std::string(buffer, len - 1)`: a length of 0 asks for 2 ^ 64 - 1 octets.
unfoldable pub drop_terminator : ℕ → List ℕ → Decoder → Read (List ℕ)
drop_terminator zero bs d = err length_error
drop_terminator (suc n) bs d = ok (take n bs, d)

unfoldable pub read_string_of : ℕ → Decoder → Read (List ℕ)
read_string_of len d = do (bs, d') ← fetch len d; drop_terminator len bs d'

unfoldable pub read_string : ByteOrder → Decoder → Read (List ℕ)
read_string host d = do (len, d') ← read_ulong host d; read_string_of len d'

-- `std::string_view(buffer, len - 1)` makes no check: a length of 0 gives a view far past the buffer.
unfoldable pub view_to_terminator : ℕ → List ℕ → Decoder → Read (List ℕ)
view_to_terminator zero bs d = err overrun
view_to_terminator (suc n) bs d = ok (take n bs, d)

unfoldable pub read_string_view_of : ℕ → Decoder → Read (List ℕ)
read_string_view_of len d = do (bs, d') ← fetch len d; view_to_terminator len bs d'

unfoldable pub read_string_view : ByteOrder → Decoder → Read (List ℕ)
read_string_view host d = do (len, d') ← read_ulong host d; read_string_view_of len d'

-- The elements of a span of words of `k` octets, in the byte order of the machine.
unfoldable pub load_all : ByteOrder → ℕ → ℕ → List ℕ → List ℕ
load_all host k zero bs = []
load_all host k (suc n) bs = load host (take k bs) ∷ load_all host k n (drop k bs)

-- A span over memory that is not checked to lie in the buffer.
unfoldable pub span : ByteOrder → ℕ → ℕ → Decoder → Read (List ℕ)
span host k size d =
    if ltb (length d.data_) (d.offset + size * k)
    then err overrun
    else ok (load_all host k size (drop d.offset d.data_), skip (size * k) d)

unfoldable pub read_sequence_float : ByteOrder → Decoder → Read (List ℕ)
read_sequence_float host d = do (size, d') ← read_ulong host d; span host 4 size d'

unfoldable pub read_sequence_double : ByteOrder → Decoder → Read (List ℕ)
read_sequence_double host d = do (size, d') ← read_ulong host d; span host 8 size (align 8 d')
