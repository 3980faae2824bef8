-- ===== src/Orb/Servants/Activated.antt =====
-- Activation of servants by orb.cc.
use corba_cc.Base.{
  ℕ, suc, ◌+◌, ◌%◌, ◌^◌, ◌<◌, ◌≡◌, ◌≢◌, refl, ◌∙◌, List, none, some, ==_refl, arith,
}
use corba_cc.Orb.Table.{find, find-same, find-other}
use corba_cc.Orb.Servants.{Servants, object_id, emplaced, activate_object, activate_object_with_id}
use corba_cc.Orb.Servants.Keys.{object_id-injective}

-- No key that is still to be generated before the counter wraps is in use.
abbrev pub IsIssued : Servants → Type 0
IsIssued s = (k : ℕ) → s.servant_id_counter < k → k < 2 ^ 64 → find (object_id k) s.table ≡ none

-- The counter has not reached its last number.
abbrev pub HasKey : Servants → Type 0
HasKey s = s.servant_id_counter + 1 < 2 ^ 64

-- What an activation leaves.
pub record Activated (key : List ℕ) (servant : ℕ) (before after : Servants) : Type 0 where
  pub found : find key after.table ≡ some servant
  pub own_key : after.object_key servant ≡ some key
  pub others : (other : List ℕ) → other ≢ key → find other after.table ≡ find other before.table

pub with_id-Activated :
    (key : List ℕ) (servant : ℕ) (s : Servants)
    → find key s.table ≡ none
    → Activated key servant s (activate_object_with_id key servant s)
unfolding activate_object_with_id emplaced
with_id-Activated key servant s free = record {
  found = rw (free, find-same key servant s.table) refl;
  own_key = rw (==_refl servant) refl;
  others = λ other differ. rw (free, find-other key other servant s.table differ) refl;
}

-- `activate_object` puts the servant under the next generated key, which is its own key from then
-- on, and leaves every other key as it was; and no key that is still to be generated before the
-- counter wraps is in use afterwards, when that was so before and the counter has not reached its
-- last number of 64 bits.
pub activate_object-Activated :
    (servant : ℕ) (s : Servants)
    → HasKey s
    → IsIssued s
    → let after = activate_object servant s in
      Activated (object_id (suc s.servant_id_counter)) servant s after × IsIssued after
unfolding activate_object activate_object_with_id
activate_object-Activated servant s more issued =
    let n : ℕ = suc s.servant_id_counter in
    let s1 : Servants = record s { servant_id_counter = n } in
    let wrapped : (s.servant_id_counter + 1) % 2 ^ 64 ≡ n = omega arith in
    let a = with_id-Activated (object_id n) servant s1 (issued n (omega arith) (omega arith)) in
    rw wrapped (
      record { found = a.found; own_key = a.own_key; others = a.others },
      λ k later low.
          let above : n < k = later in
          a.others (object_id k) (λ e. let same = object_id-injective k n e in absurd (omega arith))
          ∙ issued k (omega arith) low,
    )
