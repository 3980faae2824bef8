-- ===== src/Orb/Naming/Bound.antt =====
-- `bind`, `resolve` and `resolve_str` of naming.cc, together.
use corba_cc.Base.{
  ℕ, ◌+◌, ◌^◌, ◌<◌, ◌≡◌, ◌≢◌, refl, List, ◌∷◌, ◌++◌, Option, none, some, length, codes, bytes_eq,
  ok, err, name_already_bound,
}
use corba_cc.Cdr.Bytes.{ByteOrder}
use corba_cc.Cdr.Encoder.{Encoder}
use corba_cc.Cdr.Encoder.Append.{IsAppend}
use corba_cc.Cdr.Decoder.Cursor.{cursor}
use corba_cc.Cdr.RoundTrip.{string-Codec}
use corba_cc.Giop.Encoder.{GiopEncoder, Object, write_object}
use corba_cc.Orb.Table.{find, find-same, find-other}
use corba_cc.Orb.Naming.{Naming, bind, bind_found, resolve, resolved, dispatch, orb_resolve_str}

-- What a successful `bind` leaves.
pub record Bound {A : Type 0} (name : List ℕ) (object : A) (before after : Naming A) : Type 0 where
  pub found : resolve name after ≡ ok object
  pub others : (other : List ℕ) → other ≢ name → resolve other after ≡ resolve other before
  pub taken : (object' : A) → bind name object' after ≡ err name_already_bound

bind_found-inv :
    {A : Type 0} (o : Option A) (name : List ℕ) (object : A) (n n' : Naming A)
    → bind_found o name object n ≡ ok n'
    → n' ≡ record { names = (name, object) ∷ n.names }
unfolding bind_found
bind_found-inv none name object n n' h = cc
bind_found-inv (some x) name object n n' h = cc

pub bind-free :
    {A : Type 0} (name : List ℕ) (object : A) (n : Naming A)
    → find name n.names ≡ none
    → bind name object n ≡ ok (record { names = (name, object) ∷ n.names })
unfolding bind bind_found
bind-free name object n h = rw h refl

pub bind-taken :
    {A : Type 0} (name : List ℕ) (object other : A) (n : Naming A)
    → find name n.names ≡ some other
    → bind name object n ≡ err name_already_bound
unfolding bind bind_found
bind-taken name object other n h = rw h refl

-- After a `bind` that succeeds the name resolves to its object, every other name resolves as
-- before, and a further `bind` of the name throws.
pub bind-Bound :
    {A : Type 0} (name : List ℕ) (object : A) (n n' : Naming A)
    → bind name object n ≡ ok n'
    → Bound name object n n'
unfolding bind resolve resolved bind_found
bind-Bound name object n n' h =
    let same = bind_found-inv (find name n.names) name object n n' h in
    record {
      found = rw (same, find-same name object n.names) refl;
      others = λ other differ. rw (same, find-other name other object n.names differ) refl;
      taken = λ object'. rw (same, find-same name object n.names) refl;
    }

-- The name that a client's `resolve_str` writes, the name service reads on a machine of either
-- byte order, and it writes the object that is bound to it. The name is bound, is shorter than 2
-- ^ 32 - 1 octets, and stands at the offset where it was written by an encoder that only appends.
pub dispatch-resolve_str :
    (host there : ByteOrder) (n : Naming Object) (name : List ℕ) (object : Object) (e : Encoder)
    (g : GiopEncoder) (pre rest : List ℕ) (h : IsAppend e)
    → length pre ≡ e.offset
    → (fits : length name + 1 < 2 ^ 32) → resolve name n ≡ ok object
    → dispatch there n
        (codes "resolve_str")
        (cursor (some host) pre ((string-Codec host there name fits e h).bytes ++ rest))
        g
      ≡ write_object there object g
unfolding dispatch bytes_eq orb_resolve_str
dispatch-resolve_str host there n name object e g pre rest h at fits bound =
    rw ((string-Codec host there name fits e h).reads pre rest at, bound) refl
