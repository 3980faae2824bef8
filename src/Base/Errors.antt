-- ===== src/Base/Errors.antt =====
-- What a call of the program can end in besides a value: the exceptions it throws, and the steps
-- whose behaviour the language leaves undefined.
use mathlib.Core.Path.{◌≡◌, refl}

pub data Error : Type 0 where
  -- std::out_of_range and std::length_error
  out_of_range length_error : Error
  -- std::runtime_error, by its message
  packet_too_small missing_header : Error
  unsupported_disposition unknown_disposition : Error
  missing_reserve_size value_type_not_implemented pointer_not_implemented
        reference_not_implemented :
      Error
  null_orb unsupported_tag no_connection : Error
  stub_without_connection no_protocol name_not_bound name_already_bound : Error
  bad_operation fd_already_set connect_failed send_failed : Error
  expected_object_address missing_port missing_bracket bad_uri : Error
  -- Undefined behaviour: a read outside the buffer, a step through a null pointer, and the use of a
  -- variable that was never set.
  overrun null_pointer uninitialised : Error
  -- std::runtime_error of ior.cc, and a loop that was given too few rounds.
  missing_prefix wrong_length unfinished : Error
  -- std::runtime_error of ORB::stringToObject
  no_object : Error

pub data Result {ℓ} (A : Type ℓ) : Type ℓ where
  ok : A → Result A
  err : Error → Result A

-- `abbrev`, so that `ok a >>= f` computes wherever it stands.
infixl 5 ◌>>=◌
abbrev pub ◌>>=◌ {ℓ κ} : {A : Type ℓ} {B : Type κ} → Result A → (A → Result B) → Result B
ok a >>= f = f a
err e >>= f = err e

pub bind-eq-ok {ℓ κ} :
    {A : Type ℓ} {B : Type κ} (m : Result A) (f : A → Result B) (b : B)
    → (m >>= f) ≡ ok b
    → (a : A) × (m ≡ ok a) × (f a ≡ ok b)
bind-eq-ok (ok a) f b h = (a, refl, h)
bind-eq-ok (err e) f b h = cc
