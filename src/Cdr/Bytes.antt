-- ===== src/Cdr/Bytes.antt =====
-- How a machine lays numbers out in memory: what the casts of cdr.cc to and from `uint16_t *`,
-- `uint32_t *` and `uint64_t *` read and write, and the compiler's byte swap.
pub mod Laws
use corba_cc.Base.{ℕ, zero, suc, ◌+◌, ◌*◌, ◌/◌, ◌%◌, ◌≡◌, refl, List, [], ◌∷◌, ◌++◌, reverse}
use corba_cc.Base.{Option, none, some, Bool, true, false}

-- std::endian, of a machine or of a message.
pub data ByteOrder : Type 0 where
  little big : ByteOrder

-- The low `k` octets of a number, least significant first.
unfoldable pub le_bytes : ℕ → ℕ → List ℕ
le_bytes zero v = []
le_bytes (suc k) v = (v % 256) ∷ le_bytes k (v / 256)

unfoldable pub from_le : List ℕ → ℕ
from_le [] = 0
from_le (b ∷ bs) = b + 256 * from_le bs

-- `*reinterpret_cast<uintN_t *>(ptr) = value` on a machine of that byte order.
unfoldable pub store : ByteOrder → ℕ → ℕ → List ℕ
store little k v = le_bytes k v
store big k v = reverse (le_bytes k v)

-- `*reinterpret_cast<const uintN_t *>(ptr)`.
unfoldable pub load : ByteOrder → List ℕ → ℕ
load little bs = from_le bs
load big bs = from_le (reverse bs)

-- `__builtin_bswap16`, `32` and `64`, for a word of `k` octets.
unfoldable pub bswap : ℕ → ℕ → ℕ
bswap k v = from_le (reverse (le_bytes k v))

-- `std::endian::native != _endian`. A decoder that was given no byte order holds `(std::endian)0`,
-- here `none`, which differs from every machine's.
unfoldable pub is_native : ByteOrder → Option ByteOrder → Bool
is_native little (some little) = true
is_native big (some big) = true
is_native _ _ = false
