-- ===== src/Url/Parser/Stringified.antt =====
-- The constructor of `IOR` of ior.cc on a stringified reference.
use mathlib.Core.List.{reverse-reverse, reverse-cons}
use corba_cc.Base.{
  ℕ, ◌+◌, ◌*◌, ◌%◌, ◌<◌, ◌≤◌, List, [], ◌∷◌, ◌++◌, ◌≡◌, refl, ap, false, some, length, reverse, All,
  All-append, ◌==◌, ok, codes, arith, bytes_eq, ◌-◌,
}
use corba_cc.Cdr.Bytes.{ByteOrder}
use corba_cc.Url.Lexer.{hex_value, hex_digit}
use corba_cc.Url.Parser.{trim_front, trim, decode_hex, read_ior, ior_of}

-- The digits that stand for a number below 16.
pub data IsHexDigit (v c : ℕ) : Type 0 where
  decimal : v < 10 → c ≡ b'0' + v → IsHexDigit v c
  lower : 10 ≤ v → v < 16 → c ≡ b'a' + (v - 10) → IsHexDigit v c
  upper : 10 ≤ v → v < 16 → c ≡ b'A' + (v - 10) → IsHexDigit v c

-- Octets, and a text of two digits for each, in small letters, in capital ones, or in both.
pub data Spells : List ℕ → List ℕ → Type 0 where
  nothing : Spells [] []
  octet :
      {high low c d : ℕ} {bs text : List ℕ}
      → IsHexDigit high c
      → IsHexDigit low d
      → Spells bs text
      → Spells ((high * 16 + low) ∷ bs) (c ∷ d ∷ text)

hex_digit-IsHexDigit : (v c : ℕ) → IsHexDigit v c → hex_digit c ≡ some v
hex_digit-IsHexDigit v c (decimal h e) = ground arith
hex_digit-IsHexDigit v c (lower h k e) = ground arith
hex_digit-IsHexDigit v c (upper h k e) = ground arith

IsHexDigit-solid : (v c : ℕ) → IsHexDigit v c → 32 < c
IsHexDigit-solid v c (decimal h e) = omega arith
IsHexDigit-solid v c (lower h k e) = omega arith
IsHexDigit-solid v c (upper h k e) = omega arith

decode_hex-Spells : {bs text : List ℕ} → Spells bs text → decode_hex text ≡ ok bs
unfolding decode_hex hex_value
decode_hex-Spells nothing = refl
decode_hex-Spells (octet {high} {low} {c} {d} {bs} h l s) =
    rw (hex_digit-IsHexDigit high c h, hex_digit-IsHexDigit low d l, decode_hex-Spells s)
      (ap (λ n. ok (n ∷ bs)) (omega arith))

-- Text without a blank.
abbrev IsSolid : List ℕ → Type 0
IsSolid s = All (λ c. 32 < c) s

trim_front-IsSolid : (s : List ℕ) → IsSolid s → trim_front s ≡ s
unfolding trim_front
trim_front-IsSolid [] _ = refl
trim_front-IsSolid (c ∷ s) (h, _) = ground arith

reverse-IsSolid : (s : List ℕ) → IsSolid s → IsSolid (reverse s)
reverse-IsSolid [] _ = tt
reverse-IsSolid (c ∷ s) (h, hs) =
    rw (reverse-cons c s) (All-append _ (reverse s) (c ∷ []) (reverse-IsSolid s hs) (h, tt))

trim-IsSolid : (s : List ℕ) → IsSolid s → trim s ≡ s
unfolding trim
trim-IsSolid s h =
    rw (trim_front-IsSolid s h, trim_front-IsSolid (reverse s) (reverse-IsSolid s h))
      (reverse-reverse s)

Spells-IsSolid : {bs text : List ℕ} → Spells bs text → IsSolid text
Spells-IsSolid nothing = tt
Spells-IsSolid (octet {high} {low} {c} {d} h l s) =
    (IsHexDigit-solid high c h, (IsHexDigit-solid low d l, Spells-IsSolid s))

length-Spells : {bs text : List ℕ} → Spells bs text → length text ≡ 2 * length bs
length-Spells nothing = refl
length-Spells (octet h l s) = omega (arith, length-Spells s)

-- The constructor of `IOR`, on a text that spells octets by two hexadecimal digits each, in small
-- letters, in capital ones or in both, gives what `readEndian` and `readReference` give on the
-- octets themselves, errors included.
pub ior_of-Spells :
    (there : ByteOrder) (bs text : List ℕ)
    → Spells bs text
    → ior_of there (codes "IOR:" ++ text) ≡ read_ior there bs
unfolding ior_of bytes_eq
ior_of-Spells there bs text h =
    let all : List ℕ = codes "IOR:" ++ text in
    let solid : IsSolid all =
      (omega arith, (omega arith, (omega arith, (omega arith, Spells-IsSolid h)))) in
    let even : (length all % 2 == 1) ≡ false = ground (arith, length-Spells h) in
    rw (trim-IsSolid all solid, even, decode_hex-Spells h) refl
