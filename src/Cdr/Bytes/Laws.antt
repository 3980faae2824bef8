-- ===== src/Cdr/Bytes/Laws.antt =====
-- The memory layouts, on a machine and between machines.
use corba_cc.Base.{
  ℕ, zero, suc, ◌+◌, ◌*◌, ◌/◌, ◌%◌, ◌^◌, ◌<◌, ◌≡◌, refl, sym, ap, ◌∙◌, List, [], ◌∷◌, ◌++◌, reverse,
  some, arith, length, All, length-reverse, if◌then◌else◌,
}
use corba_cc.Cdr.Bytes.{ByteOrder, little, big, le_bytes, from_le, store, load, bswap, is_native}
use mathlib.Core.List.{reverse-reverse, reverse-cons}
use native.Mathlib.Nat.{pow-suc}

abbrev pub IsByte : ℕ → Type 0
IsByte b = b < 256

length-le_bytes : (k v : ℕ) → length (le_bytes k v) ≡ k
unfolding le_bytes
length-le_bytes zero v = refl
length-le_bytes (suc k) v = ap suc (length-le_bytes k (v / 256))

pub length-store : (o : ByteOrder) (k v : ℕ) → length (store o k v) ≡ k
unfolding store
length-store little k v = length-le_bytes k v
length-store big k v = length-reverse (le_bytes k v) ∙ length-le_bytes k v

pow_256 : (k : ℕ) → 256 ^ suc k ≡ 256 * 256 ^ k
pow_256 k = omega (arith, pow-suc 256 k)

from_le-le_bytes : (k v : ℕ) → v < 256 ^ k → from_le (le_bytes k v) ≡ v
unfolding le_bytes from_le
from_le-le_bytes zero v h = omega arith
from_le-le_bytes (suc k) v h =
    omega (arith, from_le-le_bytes k (v / 256) (omega (arith, pow_256 k)))

le_bytes-IsByte : (k v : ℕ) → All IsByte (le_bytes k v)
unfolding le_bytes
le_bytes-IsByte zero v = tt
le_bytes-IsByte (suc k) v = (omega arith, le_bytes-IsByte k (v / 256))

module _ {ℓ} {A : Type ℓ} (P : A → Type 0) where
  All-append : (xs ys : List A) → All P xs → All P ys → All P (xs ++ ys)
  All-append [] ys h k = k
  All-append (x ∷ xs) ys h k = (h.0, All-append xs ys h.1 k)

  All-reverse : (xs : List A) → All P xs → All P (reverse xs)
  All-reverse [] h = tt
  All-reverse (x ∷ xs) h =
      rw (reverse-cons x xs) (All-append (reverse xs) (x ∷ []) (All-reverse xs h.1) (h.0, tt))

pub store-IsByte : (o : ByteOrder) (k v : ℕ) → All IsByte (store o k v)
unfolding store
store-IsByte little k v = le_bytes-IsByte k v
store-IsByte big k v = All-reverse IsByte (le_bytes k v) (le_bytes-IsByte k v)

-- A machine reads back the number that it stored.
pub load-store : (o : ByteOrder) (k v : ℕ) → v < 256 ^ k → load o (store o k v) ≡ v
unfolding load store
load-store little k v h = from_le-le_bytes k v h
load-store big k v h = rw (reverse-reverse (le_bytes k v)) (from_le-le_bytes k v h)

le_bytes-from_le : (bs : List ℕ) → All IsByte bs → le_bytes (length bs) (from_le bs) ≡ bs
unfolding le_bytes from_le
le_bytes-from_le [] h = refl
le_bytes-from_le (b ∷ bs) h =
    let low : (b + 256 * from_le bs) % 256 ≡ b = omega arith in
    let high : (b + 256 * from_le bs) / 256 ≡ from_le bs = omega arith in
    rw (low, high, le_bytes-from_le bs h.1)

-- A byte swap turns what one kind of machine reads into what the other kind reads.
bswap-load_little : (bs : List ℕ) → All IsByte bs → bswap (length bs) (load little bs) ≡ load big bs
unfolding bswap load
bswap-load_little bs h = rw (le_bytes-from_le bs h)

bswap-load_big : (bs : List ℕ) → All IsByte bs → bswap (length bs) (load big bs) ≡ load little bs
unfolding bswap load
bswap-load_big bs h =
    ap (λ n. from_le (reverse (le_bytes n (from_le (reverse bs))))) (sym (length-reverse bs))
    ∙ rw (le_bytes-from_le (reverse bs) (All-reverse IsByte bs h), reverse-reverse bs)

-- What a decoder on the machine `host` makes of a word in the byte order `o`.
pub swap_load :
    (host o : ByteOrder) (bs : List ℕ)
    → All IsByte bs
    → (if is_native host (some o) then load host bs else bswap (length bs) (load host bs))
      ≡ load o bs
unfolding is_native
swap_load little little bs h = refl
swap_load little big bs h = bswap-load_little bs h
swap_load big little bs h = bswap-load_big bs h
swap_load big big bs h = refl
