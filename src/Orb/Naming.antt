-- ===== src/Orb/Naming.antt =====
-- `NamingContextExtImpl` of naming.cc, the name service that an ORB brings along.
pub mod Bound
use corba_cc.Base.{
  ℕ, List, [], ◌∷◌, Option, none, some, Bool, if◌then◌else◌, bytes_eq, codes, Result, ok, err,
  ◌>>=◌, name_not_bound, name_already_bound, bad_operation,
}
use corba_cc.Cdr.Bytes.{ByteOrder}
use corba_cc.Cdr.Decoder.{Decoder, read_ulong, read_string}
use corba_cc.Giop.Encoder.{GiopEncoder, Object, write_object}
use corba_cc.Orb.Table.{find}

-- The map `name2Object`; `A` stands for the pointers to objects.
pub record Naming (A : Type 0) : Type 0 where
  pub names : List (List ℕ × A)

module _ {A : Type 0} where
  unfoldable pub bind_found : Option A → List ℕ → A → Naming A → Result (Naming A)
  bind_found (some object) name servant n = err name_already_bound
  bind_found none name servant n = ok (record { names = (name, servant) ∷ n.names })

  unfoldable pub bind : List ℕ → A → Naming A → Result (Naming A)
  bind name servant n = bind_found (find name n.names) name servant n

  unfoldable pub resolved : Option A → Result A
  resolved none = err name_not_bound
  resolved (some object) = ok object

  unfoldable pub resolve : List ℕ → Naming A → Result A
  resolve name n = resolved (find name n.names)

-- The number of components and the kind of the first are read, and only warned of.
unfoldable pub orb_resolve : ByteOrder → Naming Object → Decoder → GiopEncoder → Result GiopEncoder
orb_resolve host n d g = do
  (entries, d1) ← read_ulong host d
  (name, d2) ← read_string host d1
  (key, d3) ← read_string host d2
  result ← resolve name n
  write_object host result g

unfoldable pub orb_resolve_str :
    ByteOrder → Naming Object → Decoder → GiopEncoder → Result GiopEncoder
orb_resolve_str host n d g = do
  (name, d1) ← read_string host d
  result ← resolve name n
  write_object host result g

unfoldable pub dispatch :
    ByteOrder → Naming Object → List ℕ → Decoder → GiopEncoder → Result GiopEncoder
dispatch host n operation d g =
    if bytes_eq operation (codes "resolve")
    then (orb_resolve host n d g)
    else if bytes_eq operation (codes "resolve_str")
    then (orb_resolve_str host n d g)
    else err bad_operation
