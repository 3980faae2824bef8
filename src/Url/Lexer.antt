-- ===== src/Url/Lexer.antt =====
-- `UrlLexer` of url.cc. A read at the end of the text gives the terminator of `std::string`, which is
-- no digit, no letter and no hyphen: a scan that meets the end stops there.
pub mod Sees
pub mod Numbers
use corba_cc.Base.{
  ℕ, zero, suc, ◌+◌, ◌-◌, ◌*◌, ◌%◌, ◌^◌, List, [], ◌∷◌, ◌++◌, Bool, true, false, ◌&&◌, ◌||◌, Option,
  none, some, length, take, drop, leb, ltb, ◌==◌, if◌then◌else◌, maybe, Result, ok, err, ◌>>=◌,
  uninitialised, bytes_eq, codes,
}

pub record UrlLexer : Type 0 where
  pub data_ : List ℕ
  pub pos : ℕ

abbrev pub remaining : UrlLexer → List ℕ
remaining l = drop l.pos l.data_

abbrev pub advance : ℕ → UrlLexer → UrlLexer
advance n l = record l { pos = l.pos + n }

unfoldable pub is_digit : ℕ → Bool
is_digit c = leb b'0' c && leb c b'9'

-- `isalnum` of the C locale.
unfoldable pub is_alnum : ℕ → Bool
unfolding is_digit
is_alnum c = is_digit c || leb b'a' c && leb c b'z' || leb b'A' c && leb c b'Z'

-- How many octets a scan passes that goes on while the test holds.
unfoldable pub count_while : (ℕ → Bool) → List ℕ → ℕ
count_while test [] = 0
count_while test (c ∷ cs) = if test c then suc (count_while test cs) else 0

unfoldable pub match : List ℕ → UrlLexer → Option UrlLexer
match s l =
    if ltb (length l.data_) (l.pos + length s)
    then none
    else if bytes_eq (take (length s) (remaining l)) s
    then some (advance (length s) l)
    else none

-- `std::from_chars` at base 10, on digits only.
unfoldable pub from_chars : ℕ → List ℕ → ℕ
from_chars n [] = n
from_chars n (c ∷ cs) = from_chars (n * 10 + (c - b'0')) cs

-- `out` stays unset where the number does not fit `unsigned`.
unfoldable pub number_of : ℕ → UrlLexer → Result (Option ℕ × UrlLexer)
number_of zero l = ok (none, l)
number_of (suc n) l =
    let out = from_chars 0 (take (suc n) (remaining l)) in
    if ltb out (2 ^ 32) then ok (some out, advance (suc n) l) else err uninitialised

unfoldable pub number : UrlLexer → Result (Option ℕ × UrlLexer)
number l = number_of (count_while is_digit (remaining l)) l

-- `strchr(set, c) != nullptr`, which finds the terminator too.
unfoldable pub strchr : List ℕ → ℕ → Bool
strchr [] c = c == 0
strchr (x ∷ xs) c = x == c || strchr xs c

-- The source is UTF-8: the typographic apostrophe between the bars is three octets.
abbrev pub uri_set : List ℕ
uri_set = codes "%;/:?:@&=+$,-_!~*" ++ (0xe2 ∷ 0x80 ∷ 0x99 ∷ codes "|()")

unfoldable pub is_uri : ℕ → Bool
is_uri c = is_alnum c || strchr uri_set c

abbrev pub hex_digit : ℕ → Option ℕ
hex_digit c =
    if leb b'0' c && leb c b'9'
    then some (c - b'0')
    else if leb b'a' c && leb c b'f'
    then some (c - b'a' + 10)
    else if leb b'A' c && leb c b'F'
    then some (c - b'A' + 10)
    else none

-- The number that the hexadecimal digits at the front spell, `none` where there is none.
unfoldable pub hex_value : Option ℕ → List ℕ → Option ℕ
hex_value n [] = n
hex_value n (c ∷ cs) =
    maybe (hex_digit c) n (λ d. hex_value (some (maybe n 0 (λ m. m * 16) + d)) cs)

abbrev is_space : ℕ → Bool
is_space c = c == b' ' || leb 9 c && leb c 13

-- `sscanf(s, "%x", &ii)`: white space, a sign and a prefix are passed over. The value is the low octet
-- of `ii`, which is all that is used.
unfoldable pub scan_hex : List ℕ → Option ℕ
scan_hex [] = none
scan_hex (c ∷ cs) =
    if is_space c
    then scan_hex cs
    else if c == b'+'
    then hex_value none cs
    else if c == b'-'
    then maybe (hex_value none cs) none (λ n. some ((256 - n % 256) % 256))
    else if c == b'0' && (bytes_eq cs (codes "x") || bytes_eq cs (codes "X"))
    then none
    else hex_value none (c ∷ cs)

-- `ii` before and after a `sscanf`, which leaves it as it is where it finds no number.
abbrev scanned : Option ℕ → Option ℕ → Option ℕ
scanned found ii = maybe found ii some

-- What a round of `_decodeURI` appends, how many octets behind it are passed over, and `ii`.
unfoldable pub decode_step : Option ℕ → ℕ → List ℕ → Result (ℕ × ℕ × Option ℕ)
decode_step ii c rest =
    if c == b'%'
    then maybe (scanned (scan_hex (take 2 rest)) ii) (err uninitialised)
        (λ v. ok (v % 256, 2, some v))
    else ok (c, 0, ii)

unfoldable pub decode_from : Option ℕ → ℕ → List ℕ → Result (List ℕ)
decode_from ii skip [] = ok []
decode_from ii (suc skip) (c ∷ cs) = decode_from ii skip cs
decode_from ii zero (c ∷ cs) = do
  (octet, skip, ii') ← decode_step ii c cs
  decoded ← decode_from ii' skip cs
  ok (octet ∷ decoded)

unfoldable pub decode_escapes : List ℕ → Result (List ℕ)
decode_escapes = decode_from none 0

-- The octets that `uri` decodes begin where it began to read; their number is the place where it
-- stopped.
unfoldable pub uri_of : ℕ → UrlLexer → Result (Option (List ℕ) × UrlLexer)
uri_of zero l = ok (none, l)
uri_of (suc n) l = do
  decoded ← decode_escapes (take (l.pos + suc n) (remaining l))
  ok (some decoded, advance (suc n) l)

unfoldable pub uri : UrlLexer → Result (Option (List ℕ) × UrlLexer)
uri l = uri_of (count_while is_uri (remaining l)) l
