-- ===== src/Cdr/Encoder.antt =====
-- `CDREncoder` of cdr.hh and cdr.cc. Each operation takes the encoder and returns it changed; an
-- operation that lays out a number takes the byte order of the machine that runs it.
pub mod Append
pub mod Strings
pub mod Patch
pub mod Encapsulation
use corba_cc.Base.{
  ℕ, zero, suc, ◌+◌, ◌-◌, ◌*◌, ◌/◌, ◌%◌, ◌^◌, List, [], ◌∷◌, ◌++◌, Bool, true, false, length, take,
  drop, replicate, ltb, ◌==◌, if◌then◌else◌, Result, ok, err, missing_reserve_size,
}
use corba_cc.Cdr.Bytes.{ByteOrder, little, big, store}

-- `buffer` is `*_data`; the head of `size_stack` is the back of `sizeStack`. Offsets are `size_t` and
-- do not wrap: `resize` throws long before.
pub record Encoder : Type 0 where
  pub buffer : List ℕ
  pub offset : ℕ
  pub size_stack : List ℕ

unfoldable pub new_encoder : Encoder
new_encoder = record { buffer = []; offset = 0; size_stack = [] }

-- `vector::resize` to a larger size fills with zeros.
unfoldable pub resize : ℕ → List ℕ → List ℕ
resize n bs = if ltb (length bs) n then bs ++ replicate (n - length bs) 0 else bs

unfoldable pub reserve : ℕ → Encoder → Encoder
reserve nbytes e = record e { buffer = resize nbytes e.buffer }

-- Octets stored through a pointer into the buffer.
unfoldable pub overwrite : ℕ → List ℕ → List ℕ → List ℕ
overwrite i bs xs = take i xs ++ (bs ++ drop (i + length bs) xs)

unfoldable pub poke : List ℕ → Encoder → Encoder
poke bs e = record e { buffer = overwrite e.offset bs e.buffer; offset = e.offset + length bs }

-- The common body of the write operations: reserve, store at the offset, advance.
unfoldable pub emit : List ℕ → Encoder → Encoder
emit bs e = poke bs (reserve (e.offset + length bs) e)

-- `offset & 3` is `offset % 4`, and `offset | 3` is `offset / 4 * 4 + 3`; so for 2 and 8.
unfoldable pub align_to : ℕ → ℕ → ℕ
align_to k offset = if offset % k == 0 then offset else offset / k * k + (k - 1) + 1

unfoldable pub align : ℕ → Encoder → Encoder
align k e = record e { offset = align_to k e.offset }

unfoldable pub write_octet : ℕ → Encoder → Encoder
write_octet v e = emit ((v % 256) ∷ []) e

unfoldable pub write_boolean : Bool → Encoder → Encoder
write_boolean v e = emit ((if v then 1 else 0) ∷ []) e

unfoldable pub endian_flag : ByteOrder → ℕ
endian_flag big = 0
endian_flag little = 1

unfoldable pub write_endian : ByteOrder → Encoder → Encoder
write_endian host e = write_octet (endian_flag host) e

-- A number of `k` octets behind its padding: `writeUshort`, `writeUlong` and `writeUlonglong`, with
-- the implicit conversion of the argument to `uint16_t`, `uint32_t` and `uint64_t`.
unfoldable pub write_word : ByteOrder → ℕ → ℕ → Encoder → Encoder
write_word host k v e = emit (store host k v) (align k e)

unfoldable pub write_ushort : ByteOrder → ℕ → Encoder → Encoder
write_ushort host v e = write_word host 2 v e

unfoldable pub write_ulong : ByteOrder → ℕ → Encoder → Encoder
write_ulong host v e = write_word host 4 v e

unfoldable pub write_ulonglong : ByteOrder → ℕ → Encoder → Encoder
write_ulonglong host v e = write_word host 8 v e

unfoldable pub write_blob : ByteOrder → List ℕ → Encoder → Encoder
write_blob host value e = emit value (write_ulong host (length value) e)

unfoldable pub write_string : ByteOrder → List ℕ → Encoder → Encoder
write_string host value e =
    let e1 = write_ulong host (length value + 1) e in
    let e2 = reserve (e1.offset + length value + 1) e1 in poke (0 ∷ []) (poke value e2)

-- `strlen`, on a string that ends at its first zero octet.
unfoldable pub c_string : List ℕ → List ℕ
c_string [] = []
c_string (c ∷ cs) = if c == 0 then [] else c ∷ c_string cs

unfoldable pub write_c_string : ByteOrder → List ℕ → Encoder → Encoder
write_c_string host value e = write_string host (c_string value) e

-- The elements of a span, as they lie in memory.
unfoldable pub store_all : ByteOrder → ℕ → List ℕ → List ℕ
store_all host k [] = []
store_all host k (v ∷ vs) = store host k v ++ store_all host k vs

unfoldable pub write_sequence_float : ByteOrder → List ℕ → Encoder → Encoder
write_sequence_float host vs e = emit (store_all host 4 vs) (write_ulong host (length vs) e)

unfoldable pub write_sequence_double : ByteOrder → List ℕ → Encoder → Encoder
write_sequence_double host vs e =
    emit (store_all host 8 vs) (align 8 (write_ulong host (length vs) e))

unfoldable pub reserve_size : Encoder → Encoder
reserve_size e =
    let e1 = align 4 e in
    record e1 { offset = e1.offset + 4; size_stack = (e1.offset + 4) ∷ e1.size_stack }

-- `currentOffset - savedOffset` is a difference of `size_t`.
unfoldable pub fill_in : ByteOrder → List ℕ → Encoder → Result Encoder
fill_in host [] e = err missing_reserve_size
fill_in host (saved ∷ stack) e =
    let size = (e.offset + 2 ^ 64 - saved) % 2 ^ 64 in
    let e1 = write_ulong host size (record e { offset = saved - 4; size_stack = stack }) in
    ok (record e1 { offset = e.offset })

unfoldable pub fill_in_size : ByteOrder → Encoder → Result Encoder
fill_in_size host e = fill_in host e.size_stack e
