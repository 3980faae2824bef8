-- ===== src/Orb/Binding/Published.antt =====
-- `ORB::bind` of orb.cc, for a name that is free.
use corba_cc.Base.{
  ℕ, suc, ◌≡◌, ◌≢◌, refl, ◌∙◌, List, [], ◌∷◌, Option, none, some, ok, err, codes, Error,
  name_already_bound, ap, sym, ◌==◌, arith, false, Error, subst, name_already_bound,
}
use corba_cc.Orb.Table.{find}
use corba_cc.Orb.Naming.{Naming, bind, resolve}
use corba_cc.Orb.Naming.Bound.{bind-free, bind-taken, bind-Bound}
use corba_cc.Orb.Servants.{Servants, object_id, activate_object_with_id}
use corba_cc.Orb.Servants.Activated.{IsIssued, HasKey, activate_object-Activated, with_id-Activated}
use corba_cc.Orb.Binding.{
  Bindings, activate_unless, with_service, service_or_new, name_servant, bind_servant,
}

abbrev pub service_key : List ℕ
service_key = codes "NameService"

-- The key of the name service leads to it, and is free before.
abbrev pub IsReached : Option (ℕ × Naming ℕ) → Servants → Type 0
IsReached none s = find service_key s.table ≡ none
IsReached (some n) s = find service_key s.table ≡ some n.0

abbrev pub IsServed : Bindings → Type 0
IsServed b = IsIssued b.servants × IsReached b.naming_service b.servants

first : List ℕ → ℕ
first [] = 0
first (c ∷ cs) = c

-- A generated key begins with another letter.
service_key-other : (k : ℕ) → service_key ≢ object_id k
unfolding object_id first
service_key-other k e = let letters : b'N' ≡ b'O' = ap first e in omega (arith, letters)

-- What the first step leaves: a skeleton with a key, which leads to it when it is a new one.
record Ready (servant : ℕ) (before after : Servants) : Type 0 where
  issued : IsIssued after
  service : find service_key after.table ≡ find service_key before.table
  key : List ℕ
  own_key : after.object_key servant ≡ some key
  reached :
      before.object_key servant ≡ none → (key ≢ service_key) × (find key after.table ≡ some servant)

activate_unless-Ready :
    (o : Option (List ℕ)) (servant : ℕ) (s : Servants)
    → s.object_key servant ≡ o
    → HasKey s
    → IsIssued s
    → Ready servant s (activate_unless o servant s)
unfolding activate_unless
activate_unless-Ready (some key) servant s h more issued = record {
  issued = issued;
  service = refl;
  key = key;
  own_key = h;
  reached = λ unset. cc;
}
activate_unless-Ready none servant s h more issued =
    let a = activate_object-Activated servant s more issued in
    record {
      issued = a.1;
      service = a.0.others service_key (service_key-other (suc s.servant_id_counter));
      key = object_id (suc s.servant_id_counter);
      own_key = a.0.own_key;
      reached = λ unset. (λ e. service_key-other (suc s.servant_id_counter) (sym e), a.0.found);
    }

IsReached-kept :
    (o : Option (ℕ × Naming ℕ)) (s s' : Servants)
    → find service_key s'.table ≡ find service_key s.table
    → IsReached o s
    → IsReached o s'
IsReached-kept none s s' same h = same ∙ h
IsReached-kept (some n) s s' same h = same ∙ h

-- What the second step leaves: a name service that its key leads to.
record Serving (service servant : ℕ) (o : Option (ℕ × Naming ℕ)) (before after : Servants)
    : Type 0 where
  issued : IsIssued after
  reached : find service_key after.table ≡ some (service_or_new service o).0
  own_key : after.object_key servant ≡ before.object_key servant
  others : (key : List ℕ) → key ≢ service_key → find key after.table ≡ find key before.table

with_service-Serving :
    (service servant : ℕ) (o : Option (ℕ × Naming ℕ)) (s : Servants)
    → service ≢ servant
    → IsIssued s
    → IsReached o s
    → Serving service servant o s (with_service service o s)
unfolding with_service service_or_new activate_object_with_id
with_service-Serving service servant (some n) s differ issued reached = record {
  issued = issued;
  reached = reached;
  own_key = refl;
  others = λ key other. refl;
}
with_service-Serving service servant none s differ issued free =
    let a = with_id-Activated service_key service s free in
    let apart : (servant == service) ≡ false = ground arith in
    record {
      issued = λ k later low.
          a.others (object_id k) (λ e. service_key-other k (sym e)) ∙ issued k later low;
      reached = a.found;
      own_key = unfold activate_object_with_id in rw apart refl;
      others = a.others;
    }

-- The names that an ORB's name service has.
abbrev pub names_of : Option (ℕ × Naming ℕ) → Naming ℕ
names_of none = record { names = [] }
names_of (some n) = n.1

service_or_new-names :
    (service : ℕ) (o : Option (ℕ × Naming ℕ)) → (service_or_new service o).1 ≡ names_of o
unfolding service_or_new
service_or_new-names service none = refl
service_or_new-names service (some n) = refl

-- What `ORB::bind` has done before it comes to the name.
record Prepared (service servant : ℕ) (b : Bindings) (after : Servants) : Type 0 where
  issued : IsIssued after
  reached : find service_key after.table ≡ some (service_or_new service b.naming_service).0
  key : List ℕ
  own_key : after.object_key servant ≡ some key
  found : b.servants.object_key servant ≡ none → find key after.table ≡ some servant

bind_servant-Prepared :
    (service servant : ℕ) (b : Bindings)
    → service ≢ servant
    → HasKey b.servants
    → IsServed b
    → Prepared service servant b (
        with_service service b.naming_service
          (activate_unless (b.servants.object_key servant) servant b.servants))
bind_servant-Prepared service servant b differ more h =
    let o = b.naming_service in
    let s = activate_unless (b.servants.object_key servant) servant b.servants in
    let ready =
      activate_unless-Ready (b.servants.object_key servant) servant b.servants refl more h.0 in
    let serving =
      with_service-Serving service servant o s differ ready.issued
        (IsReached-kept o b.servants s ready.service h.1) in
    record {
      issued = serving.issued;
      reached = serving.reached;
      key = ready.key;
      own_key = serving.own_key ∙ ready.own_key;
      found =
          λ unset. let found = ready.reached unset in serving.others ready.key found.0 ∙ found.1;
    }

-- What `ORB::bind` of a free name leaves.
pub record Published (id : List ℕ) (servant : ℕ) (before : Bindings) (r : Option Error × Bindings)
    : Type 0 where
  pub result : r.0 ≡ none
  pub served : IsServed r.1
  pub key : List ℕ
  pub own_key : r.1.servants.object_key servant ≡ some key
  pub reached :
      before.servants.object_key servant ≡ none → find key r.1.servants.table ≡ some servant
  pub found : resolve id (names_of r.1.naming_service) ≡ ok servant
  pub others :
      (other : List ℕ)
      → other ≢ id
      → resolve other (names_of r.1.naming_service) ≡ resolve other (names_of before.naming_service)

pub bind_servant-Published :
    (service : ℕ) (id : List ℕ) (servant : ℕ) (b : Bindings)
    → service ≢ servant
    → HasKey b.servants
    → IsServed b
    → find id (names_of b.naming_service).names ≡ none
    → Published id servant b (bind_servant service id servant b)
unfolding bind_servant name_servant
bind_servant-Published service id servant b differ more h free =
    let o = b.naming_service in
    let n : ℕ × Naming ℕ = service_or_new service o in
    let names : n.1 ≡ names_of o = service_or_new-names service o in
    let prepared = bind_servant-Prepared service servant b differ more h in
    let bound : bind id servant n.1 ≡ ok (record { names = (id, servant) ∷ n.1.names }) =
      bind-free id servant n.1 (ap (λ m. find id m.names) names ∙ free) in
    let after = bind-Bound id servant n.1 (record { names = (id, servant) ∷ n.1.names }) bound in
    let s : Servants =
      with_service service o (activate_unless (b.servants.object_key servant) servant b.servants) in
    subst (Published id servant b) (sym (ap (λ x. name_servant x n s) bound)) (record {
      result = refl;
      served = (prepared.issued, prepared.reached);
      key = prepared.key;
      own_key = prepared.own_key;
      reached = prepared.found;
      found = after.found;
      others = λ other apart. after.others other apart ∙ ap (resolve other) names;
    })

-- What it leaves when the name is taken.
pub record Refused (servant : ℕ) (before : Bindings) (r : Option Error × Bindings) : Type 0 where
  pub result : r.0 ≡ some name_already_bound
  pub served : IsServed r.1
  pub names : names_of r.1.naming_service ≡ names_of before.naming_service
  pub key : List ℕ
  pub own_key : r.1.servants.object_key servant ≡ some key

-- `ORB::bind` of a name that is taken throws, leaves all names as they are, and has all the same
-- activated the skeleton when it had no key; the key of the name service still leads to it, and
-- no key that is still to be generated before the counter wraps is in use, when that was so
-- before. A new name service is another skeleton, and the counter of keys has not reached its
-- last number of 64 bits.
pub bind_servant-Refused :
    (service : ℕ) (id : List ℕ) (servant other : ℕ) (b : Bindings)
    → service ≢ servant
    → HasKey b.servants
    → IsServed b
    → find id (names_of b.naming_service).names ≡ some other
    → Refused servant b (bind_servant service id servant b)
unfolding bind_servant name_servant
bind_servant-Refused service id servant other b differ more h taken =
    let o = b.naming_service in
    let n : ℕ × Naming ℕ = service_or_new service o in
    let names : n.1 ≡ names_of o = service_or_new-names service o in
    let prepared = bind_servant-Prepared service servant b differ more h in
    let thrown : bind id servant n.1 ≡ err name_already_bound =
      bind-taken id servant other n.1 (ap (λ m. find id m.names) names ∙ taken) in
    let s : Servants =
      with_service service o (activate_unless (b.servants.object_key servant) servant b.servants) in
    subst (Refused servant b) (sym (ap (λ x. name_servant x n s) thrown)) (record {
      result = refl;
      served = (prepared.issued, prepared.reached);
      names = names;
      key = prepared.key;
      own_key = prepared.own_key;
    })
