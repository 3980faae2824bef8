-- ===== src/Orb/Binding/Resolvable.antt =====
-- `ORB::bind` of orb.cc, and the name service that it fills.
use corba_cc.Base.{
  ℕ, ◌+◌, ◌^◌, ◌<◌, ◌≡◌, ◌≢◌, refl, ap, ◌∙◌, List, [], ◌∷◌, ◌++◌, Option, none, some, length, codes,
  ok, bytes_eq, Bool-cases, inl, inr, Error,
}
use corba_cc.Cdr.Bytes.{ByteOrder}
use corba_cc.Cdr.Encoder.{Encoder}
use corba_cc.Cdr.Encoder.Append.{IsAppend}
use corba_cc.Cdr.Decoder.Cursor.{cursor}
use corba_cc.Cdr.RoundTrip.{string-Codec}
use corba_cc.Giop.Encoder.{GiopEncoder, Object, skeleton, write_object}
use corba_cc.Orb.Table.{find}
use corba_cc.Orb.Naming.{Naming, resolve, resolved, dispatch}
use corba_cc.Orb.Naming.Bound.{dispatch-resolve_str}
use corba_cc.Giop.Types.{HostAndPort}
use corba_cc.Orb.Pool.{Peer, find_by_local}
use corba_cc.Orb.Servants.{Servants}
use corba_cc.Orb.Servants.Activated.{HasKey}
use corba_cc.Orb.Binding.{
  Bindings, narrow_servant, servant_of, bind_servant, as_object, as_objects, key_or_empty,
}
use corba_cc.Orb.Binding.Published.{Published, IsServed, names_of, bind_servant-Published}

found_object : {A B : Type 0} → (A → B) → Option A → Option B
found_object f none = none
found_object f (some a) = some (f a)

find-as_objects :
    (f : ℕ → Object) (key : List ℕ) (entries : List (List ℕ × ℕ))
    → find key (as_objects f entries) ≡ found_object f (find key entries)
unfolding find as_objects found_object
find-as_objects f key [] = refl
find-as_objects f key (entry ∷ entries) = elim (Bool-cases (bytes_eq key entry.0)) [
  | inl same ↦ rw same refl
  | inr apart ↦ rw apart (find-as_objects f key entries)
]

resolved-object :
    (f : ℕ → Object) (o : Option ℕ) (servant : ℕ)
    → resolved o ≡ ok servant
    → resolved (found_object f o) ≡ ok (f servant)
unfolding resolved found_object
resolved-object f none servant h = cc
resolved-object f (some x) servant h = cc

-- The names of the objects that the pointers of the name service are to.
abbrev pub object_names : (ℕ → List ℕ) → Bindings → Naming Object
object_names repository_id b = record {
  names = as_objects (as_object repository_id b.servants) (names_of b.naming_service).names;
}

resolve-object :
    (repository_id : ℕ → List ℕ) (b : Bindings) (id : List ℕ) (servant : ℕ) (key : List ℕ)
    → resolve id (names_of b.naming_service) ≡ ok servant
    → b.servants.object_key servant ≡ some key
    → resolve id (object_names repository_id b) ≡ ok (skeleton (repository_id servant) key)
unfolding resolve as_object key_or_empty
resolve-object repository_id b id servant key found own_key =
    let f = as_object repository_id b.servants in
    ap resolved (find-as_objects f id (names_of b.naming_service).names)
    ∙ resolved-object f (find id (names_of b.naming_service).names) servant found
    ∙ ap (λ o. ok (skeleton (repository_id servant) (key_or_empty o))) own_key

-- `ORB::bind` of a free name throws nothing: the skeleton has an object key then, which leads to
-- it if it had none before; the name resolves to it and every other name resolves as before; the
-- key of the name service leads to it, and no key that is still to be generated before the
-- counter wraps is in use, when that was so before or the key was free and there was no name
-- service, where the counter of keys has not reached its last number of 64 bits. And to a
-- `resolve_str` of the name that a client of either byte order has written, the name service
-- answers with the reference that `writeObject` writes for the skeleton and its key. The name is
-- shorter than 2 ^ 32 - 1 octets and stands where an encoder that only appends has written it,
-- and a new name service is another skeleton.
pub bind_servant-Resolvable :
    (host there : ByteOrder) (repository_id : ℕ → List ℕ) (service : ℕ) (id : List ℕ) (servant : ℕ)
    (b : Bindings) (e : Encoder) (g : GiopEncoder) (pre rest : List ℕ) (h : IsAppend e)
    → length pre ≡ e.offset
    → (fits : length id + 1 < 2 ^ 32) → service ≢ servant
    → HasKey b.servants
    → IsServed b
    → find id (names_of b.naming_service).names ≡ none
    → let r = bind_servant service id servant b in
      (p : Published id servant b r) × (dispatch there
          (object_names repository_id r.1)
          (codes "resolve_str")
          (cursor (some host) pre ((string-Codec host there id fits e h).bytes ++ rest))
          g
        ≡ write_object there (skeleton (repository_id servant) p.key) g)
bind_servant-Resolvable host there repository_id service id servant b e g pre rest h at fits differ
      more served free =
    let r = bind_servant service id servant b in
    let p = bind_servant-Published service id servant b differ more served free in
    (
      p,
      dispatch-resolve_str host there (object_names repository_id r.1) id
          (skeleton (repository_id servant) p.key) e g pre rest h at fits
          (resolve-object repository_id r.1 id servant p.key p.found p.own_key),
    )

-- A reference to a skeleton that `bind` has activated narrows to it, where the ORB has a connection
-- whose protocol is at the host and port of the reference.
pub narrow_servant-bound :
    (protocols : List HostAndPort) (connections : List Peer) (servants : Peer → Servants)
    (host : List ℕ) (port : ℕ) (c : Peer) (id : List ℕ) (servant : ℕ) (b : Bindings)
    (r : Option Error × Bindings) (p : Published id servant b r)
    → find_by_local protocols host port connections ≡ some c
    → servants c ≡ r.1.servants
    → b.servants.object_key servant ≡ none
    → narrow_servant protocols connections servants host port p.key ≡ some servant
unfolding narrow_servant servant_of
narrow_servant-bound protocols connections servants host port c id servant b r p local own unset =
    rw (local, own) (p.reached unset)
