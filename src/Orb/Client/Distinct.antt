-- ===== src/Orb/Client/Distinct.antt =====
-- The request ids that orb.cc gives to the calls on one connection.
use corba_cc.Base.{
  ℕ, suc, ◌+◌, ◌*◌, ◌^◌, ◌<◌, ◌≤◌, ◌%◌, ◌≡◌, ◌≢◌, refl, ap, ◌∙◌, List, [], ◌∷◌, Bool, true, false,
  Option, none, some, length, Result, ok, err, Error, sym, All, arith,
}
use corba_cc.Cdr.Bytes.{ByteOrder}
use corba_cc.Giop.Encoder.{GiopEncoder}
use corba_cc.Orb.Client.{
  Channel, Sending, taken, comm_failure, throws, take_id, share, suspend, posted, post,
  with_arguments, request, oneway_call, twoway_call, notify,
}
use corba_cc.Orb.Client.Called.{call}

-- No number stands twice in a list.
abbrev pub IsDistinct : List ℕ → Type 0
IsDistinct [] = Unit
IsDistinct (x ∷ xs) = All (λ y. y ≢ x) xs × IsDistinct xs

id_of : {C : Type 0} → Option (Channel C) → ℕ
id_of none = 0
id_of (some c) = c.request_id

module _ {C : Type 0} (host : ByteOrder) (send : List ℕ → C → Sending C) where
  -- Calls of both kinds, one behind the other, whatever each ends in, with the request ids that they
  -- take. No handler is installed.
  pub data Calls : Channel C → List ℕ → Channel C → Type 0 where
    done : {c : Channel C} → Calls c [] c
    next :
        {c c1 c2 : Channel C} {ids : List ℕ} {e : Option Error} (expected : Bool)
        (key operation : List ℕ) (encode : GiopEncoder → Result GiopEncoder)
        → call host send none expected key (some c) operation encode ≡ (e, some c1)
        → Calls c1 ids c2
        → Calls c (c.request_id ∷ ids) c2

  posted-request_id :
      (s : Sending C) (c : Channel C) → (posted host send none s c).1.request_id ≡ c.request_id
  unfolding posted notify
  posted-request_id (taken t) c = refl
  posted-request_id (comm_failure t) c = refl
  posted-request_id (throws e t) c = refl

  post-request_id :
      (g : Result GiopEncoder) (c : Channel C)
      → (post host send none g c).1.request_id ≡ c.request_id
  unfolding post
  post-request_id (ok g) c = posted-request_id _ c
  post-request_id (err e) c = refl

  with_arguments-request_id :
      (encode : GiopEncoder → Result GiopEncoder) (g : Result GiopEncoder) (c : Channel C)
      → (with_arguments host send none encode g c).1.request_id ≡ c.request_id
  unfolding with_arguments share
  with_arguments-request_id encode (ok g) c = post-request_id (encode g) (share g.connection c)
  with_arguments-request_id encode (err e) c = refl

  suspend-request_id :
      (id : ℕ) (r : Option Error × Channel C) → (suspend id r).1.request_id ≡ r.1.request_id
  unfolding suspend
  suspend-request_id id (none, c) = refl
  suspend-request_id id (some e, c) = refl

  request-request_id :
      (expected : Bool) (key operation : List ℕ) (encode : GiopEncoder → Result GiopEncoder)
      (c : Channel C)
      → (request host send none expected key operation encode c).1.request_id
        ≡ (c.request_id + 2) % 2 ^ 32
  unfolding request take_id
  request-request_id expected key operation encode c =
      with_arguments-request_id encode _ (take_id c)

  call-request_id :
      (expected : Bool) (key operation : List ℕ) (encode : GiopEncoder → Result GiopEncoder)
      (c c1 : Channel C) (e : Option Error)
      → call host send none expected key (some c) operation encode ≡ (e, some c1)
      → c1.request_id ≡ (c.request_id + 2) % 2 ^ 32
  unfolding twoway_call oneway_call id_of
  call-request_id true key operation encode c c1 e h =
      sym (ap (λ r. id_of r.1) h)
      ∙ suspend-request_id c.request_id (request host send none true key operation encode c)
      ∙ request-request_id true key operation encode c
  call-request_id false key operation encode c c1 e h =
      sym (ap (λ r. id_of r.1) h) ∙ request-request_id false key operation encode c

  -- The ids of calls that follow `n` calls behind one that took `first`.
  Calls-later :
      (first n : ℕ) (c c2 : Channel C) (ids : List ℕ)
      → first < 2 ^ 32
      → 0 < n
      → c.request_id ≡ (first + 2 * n) % 2 ^ 32
      → n + length ids ≤ 2 ^ 31
      → Calls c ids c2
      → All (λ y. y ≢ first) ids
  Calls-later first n c c2 [] h behind at short done = tt
  Calls-later first n c c2 (id ∷ ids) h behind at short
        (next {c1 = c1} {e = e} expected key operation encode run calls) =
      (
        λ same.
            let here : (first + 2 * n) % 2 ^ 32 ≡ first = sym at ∙ same in
            absurd (omega (arith, here)),
        Calls-later first (suc n) c1 c2 ids h (omega arith)
            (call-request_id expected key operation encode c c1 e run ∙ omega (arith, at))
            (omega arith) calls,
      )

  -- Calls of both kinds on one connection, whatever each of them ends in, take request ids no two
  -- of which are the same, up to 2 ^ 31 calls. The counter of the connection is a number of 32
  -- bits, and no exception handler is installed.
  pub Calls-IsDistinct :
      (c c2 : Channel C) (ids : List ℕ)
      → c.request_id < 2 ^ 32
      → length ids ≤ 2 ^ 31
      → Calls c ids c2
      → IsDistinct ids
  Calls-IsDistinct c c2 [] h short done = tt
  Calls-IsDistinct c c2 (id ∷ ids) h short
        (next {c1 = c1} {e = e} expected key operation encode run calls) =
      let after = call-request_id expected key operation encode c c1 e run in
      (
        Calls-later c.request_id 1 c1 c2 ids h (omega arith) after (omega arith) calls,
        Calls-IsDistinct c1 c2 ids (omega (arith, after)) (omega arith) calls,
      )
