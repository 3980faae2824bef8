-- ===== src/Orb/Binding.antt =====
-- `ORB::bind` and `ORB::_narrow_servant` of orb.cc, with the name service that an ORB creates.
pub mod Published
pub mod Resolvable
use corba_cc.Base.{ℕ, List, [], ◌∷◌, Option, none, some, Result, ok, err, Error, codes}
use corba_cc.Giop.Types.{HostAndPort}
use corba_cc.Giop.Encoder.{Object, skeleton}
use corba_cc.Orb.Table.{find}
use corba_cc.Orb.Naming.{Naming, bind}
use corba_cc.Orb.Pool.{Peer, find_by_local}
use corba_cc.Orb.Servants.{Servants, activate_object, activate_object_with_id}

-- The servants of an ORB, and its name service once there is one: the number of its skeleton, and the
-- names of skeletons.
pub record Bindings : Type 0 where
  pub servants : Servants
  pub naming_service : Option (ℕ × Naming ℕ)

-- `get_ORB` gives an ORB once a skeleton has been activated, which gives it a key too.
unfoldable pub activate_unless : Option (List ℕ) → ℕ → Servants → Servants
activate_unless (some key) servant s = s
activate_unless none servant s = activate_object servant s

-- `service` is the new skeleton.
unfoldable pub with_service : ℕ → Option (ℕ × Naming ℕ) → Servants → Servants
with_service service (some n) s = s
with_service service none s = activate_object_with_id (codes "NameService") service s

unfoldable pub service_or_new : ℕ → Option (ℕ × Naming ℕ) → ℕ × Naming ℕ
service_or_new service (some n) = n
service_or_new service none = (service, record { names = [] })

-- A throw of the name service leaves what was done before.
unfoldable pub name_servant : Result (Naming ℕ) → ℕ × Naming ℕ → Servants → Option Error × Bindings
name_servant (ok names) n s = (none, record { servants = s; naming_service = some (n.0, names) })
name_servant (err e) n s = (some e, record { servants = s; naming_service = some n })

unfoldable pub bind_servant : ℕ → List ℕ → ℕ → Bindings → Option Error × Bindings
bind_servant service id servant b =
    let s = activate_unless (b.servants.object_key servant) servant b.servants in
    let n = service_or_new service b.naming_service in
    name_servant (bind id servant n.1) n (with_service service b.naming_service s)

-- The connections that the ORB has, the servants of the ORB of each, and a reference.
unfoldable pub servant_of : Option Peer → (Peer → Servants) → List ℕ → Option ℕ
servant_of none servants key = none
servant_of (some c) servants key = find key (servants c).table

unfoldable pub narrow_servant :
    List HostAndPort → List Peer → (Peer → Servants) → List ℕ → ℕ → List ℕ → Option ℕ
narrow_servant protocols connections servants host port key =
    servant_of (find_by_local protocols host port connections) servants key

-- What `get_object_key` gives, which is empty before an activation.
unfoldable pub key_or_empty : Option (List ℕ) → List ℕ
key_or_empty none = []
key_or_empty (some key) = key

-- The object that a pointer to a skeleton is to `writeObject`; `repository_id` is what the method of
-- that name gives.
unfoldable pub as_object : (ℕ → List ℕ) → Servants → ℕ → Object
as_object repository_id s servant =
    skeleton (repository_id servant) (key_or_empty (s.object_key servant))

unfoldable pub as_objects : (ℕ → Object) → List (List ℕ × ℕ) → List (List ℕ × Object)
as_objects f [] = []
as_objects f (entry ∷ entries) = (entry.0, f entry.1) ∷ as_objects f entries
