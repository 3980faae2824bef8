-- ===== src/Net/Ws/Handshake.antt =====
-- The HTTP request and reply with which the two ends of net/ws/connection.cc turn to WebSocket frames.
use corba_cc.Base.{
  ℕ, suc, ◌+◌, ◌^◌, ◌<◌, ◌==◌, List, [], ◌∷◌, ◌++◌, ◌≡◌, ◌≢◌, refl, ap, ◌∙◌, Bool, true, false,
  some, length, All, codes, find_text, starts_with, starts_with-append, find_text-first, arith,
  Option-cases, inl, inr, take-append, drop-append, drop_cong, Bool-cases, ==_refl,
}
use corba_cc.Giop.Types.{HostAndPort}
use corba_cc.Url.Lexer.{is_digit}
use corba_cc.Url.Printer.{decimal}
use corba_cc.Url.Printer.Digits.{decimal-IsNumeral}
use corba_cc.Net.Ws.{http_request, http_reply, crlf, rest_of_line, field_value, has_text}

has_text-front : (p s : List ℕ) → starts_with p s ≡ true → has_text p s ≡ true
unfolding find_text
has_text-front p [] h = rw h refl
has_text-front p (c ∷ s) h = rw h refl

-- What is in a text is in a longer one.
has_text-skip : (p xs s : List ℕ) → has_text p s ≡ true → has_text p (xs ++ s) ≡ true
unfolding find_text
has_text-skip p [] s h = h
has_text-skip p (x ∷ xs) s h = elim (Option-cases (find_text p (xs ++ s))) [
  | inl e ↦ absurd (false_true (rw e at (has_text-skip p xs s h)))
  | inr (i, e) ↦ elim (Bool-cases (starts_with p (x ∷ (xs ++ s)))) [
    | inl here ↦ rw here refl
    | inr later ↦ rw (later, e) refl
  ]
]
  where
    false_true : ◌≡◌ {A = Bool} false true → ⊥
    false_true h = cc

-- A field's name is not found where its first octet does not stand.
field_value-cons :
    (x : ℕ) (p : List ℕ) (c : ℕ) (s : List ℕ)
    → c ≢ x
    → field_value (x ∷ p) (c ∷ s) ≡ field_value (x ∷ p) s
unfolding field_value find_text starts_with
field_value-cons x p c s h =
    let differs : (c == x) ≡ false = ground arith in
    elim (Option-cases (find_text (x ∷ p) s)) [
      | inl e ↦ rw (differs, e) refl
      | inr (i, e) ↦
          rw (differs, e)
            (ap (λ t. some (rest_of_line t))
              (drop_cong (suc i + length (x ∷ p)) (suc (i + length (x ∷ p))) (c ∷ s) (omega arith)))
    ]

field_value-skip :
    (x : ℕ) (p xs s : List ℕ)
    → All (λ c. c ≢ x) xs
    → field_value (x ∷ p) (xs ++ s) ≡ field_value (x ∷ p) s
field_value-skip x p [] s _ = refl
field_value-skip x p (c ∷ xs) s (h, hs) =
    field_value-cons x p c (xs ++ s) h ∙ field_value-skip x p xs s hs

field_value-front :
    (x : ℕ) (p s : List ℕ) → field_value (x ∷ p) ((x ∷ p) ++ s) ≡ some (rest_of_line s)
unfolding field_value find_text starts_with
field_value-front x p s =
    rw (==_refl x, starts_with-append p s)
      (ap (λ t. some (rest_of_line t))
        (drop_cong (0 + suc (length p)) (suc (length p)) (x ∷ (p ++ s)) (omega arith)
          ∙ drop-append p s))

rest_of_line-crlf :
    (key rest : List ℕ) → All (λ c. c ≢ 13) key → rest_of_line (key ++ (crlf ++ rest)) ≡ key
unfolding rest_of_line
rest_of_line-crlf key rest h =
    rw (find_text-first 13 (10 ∷ []) key rest h) (take-append key (crlf ++ rest))

-- A host name in lower case.
abbrev pub IsLower : List ℕ → Type 0
IsLower s = All (λ c. c ≢ b'S') s

digits-IsLower : (s : List ℕ) → All (λ c. is_digit c ≡ true) s → IsLower s
unfolding is_digit
digits-IsLower [] _ = tt
digits-IsLower (c ∷ s) (h, hs) = (ground arith, digits-IsLower s hs)

module _ (local : HostAndPort) (key : List ℕ) (lower : IsLower local.host)
    (port : local.port < 2 ^ 16) (line : All (λ c. c ≢ 13) key) where
  -- The parts of the request behind the port.
  version : List ℕ
  version = codes "\r\nSec-WebSocket-Version: 13\r\n\r\n"

  pub request-key : field_value (codes "Sec-WebSocket-Key: ") (http_request local key) ≡ some key
  unfolding http_request version
  request-key =
      field_value-skip b'S' (codes "ec-WebSocket-Key: ") (codes "GET / HTTP/1.1\r\nHost: ") _
        (omega arith)
      ∙ field_value-skip b'S' (codes "ec-WebSocket-Key: ") local.host _ lower
      ∙ field_value-skip b'S' (codes "ec-WebSocket-Key: ") (codes ":") _ (omega arith)
      ∙ field_value-skip b'S' (codes "ec-WebSocket-Key: ") (decimal local.port) _ (
          digits-IsLower (decimal local.port)
            (decimal-IsNumeral local.port (omega arith)).all_digits)
      ∙ field_value-skip b'S' (codes "ec-WebSocket-Key: ")
          (codes "\r\nUpgrade: websocket\r\nConnection: Upgrade\r\n") _ (omega arith)
      ∙ field_value-front b'S' (codes "ec-WebSocket-Key: ") (key ++ version)
      ∙ ap some (rest_of_line-crlf key (codes "Sec-WebSocket-Version: 13\r\n\r\n") line)

  request_has : (p s : List ℕ) → has_text p (p ++ s) ≡ true
  request_has p s = has_text-front p (p ++ s) (starts_with-append p s)

  pub request-upgrade : has_text (codes "Upgrade: websocket\r\n") (http_request local key) ≡ true
  unfolding http_request
  request-upgrade = has_text-skip _ (codes "GET / HTTP/1.1\r\nHost: ") _ (
      has_text-skip _ local.host _ (
        has_text-skip _ (codes ":") _ (
          has_text-skip _ (decimal local.port) _
            (has_text-skip _ crlf _ (request_has (codes "Upgrade: websocket\r\n") _)))))

  pub request-connection :
      has_text (codes "Connection: Upgrade\r\n") (http_request local key) ≡ true
  unfolding http_request
  request-connection = has_text-skip _ (codes "GET / HTTP/1.1\r\nHost: ") _ (
      has_text-skip _ local.host _ (
        has_text-skip _ (codes ":") _ (
          has_text-skip _ (decimal local.port) _ (
            has_text-skip _ (codes "\r\nUpgrade: websocket\r\n") _
              (request_has (codes "Connection: Upgrade\r\n") _)))))

  pub request-end : has_text (crlf ++ crlf) (http_request local key) ≡ true
  unfolding http_request
  request-end = has_text-skip _ (codes "GET / HTTP/1.1\r\nHost: ") _ (
      has_text-skip _ local.host _ (
        has_text-skip _ (codes ":") _ (
          has_text-skip _ (decimal local.port) _ (
            has_text-skip _
              (codes "\r\nUpgrade: websocket\r\nConnection: Upgrade\r\nSec-WebSocket-Key: ") _
              (has_text-skip _ key _ (
                has_text-skip _ (codes "\r\nSec-WebSocket-Version: 13") _
                  (request_has (crlf ++ crlf) [])))))))

  pub reply-end : has_text (crlf ++ crlf) (http_reply key) ≡ true
  unfolding http_reply
  reply-end =
      has_text-skip _
        (codes
          "HTTP/1.1 101 Switching Protocols\r\nUpgrade: websocket\r\nConnection: Upgrade\r\nSec-WebSocket-Accept: ")
        _ (has_text-skip _ key _ (request_has (crlf ++ crlf) []))

  pub reply-key : field_value (codes "Sec-WebSocket-Accept: ") (http_reply key) ≡ some key
  unfolding http_reply field_value find_text starts_with
  reply-key = ap some (rest_of_line-crlf key crlf line)
