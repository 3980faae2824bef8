-- ===== src/Orb/Table.antt =====
-- A `std::map` whose keys are octet strings, as a list of entries; a new entry stands in front.
use corba_cc.Base.{
  ℕ, ◌≡◌, ◌≢◌, refl, List, [], ◌∷◌, Bool-cases, inl, inr, Option, none, some, bytes_eq,
  bytes_eq_refl, bytes_eq_sound, if◌then◌else◌,
}

module _ {A : Type 0} where
  unfoldable pub find : List ℕ → List (List ℕ × A) → Option A
  find key [] = none
  find key (entry ∷ entries) =
      let rest = find key entries in if bytes_eq key entry.0 then some entry.1 else rest

  pub find-same :
      (key : List ℕ) (a : A) (entries : List (List ℕ × A)) → find key ((key, a) ∷ entries) ≡ some a
  unfolding find
  find-same key a entries = rw (bytes_eq_refl key) refl

  pub find-other :
      (key other : List ℕ) (a : A) (entries : List (List ℕ × A))
      → other ≢ key
      → find other ((key, a) ∷ entries) ≡ find other entries
  unfolding find
  find-other key other a entries differ = elim (Bool-cases (bytes_eq other key)) [
    | inl same ↦ absurd (differ (bytes_eq_sound other key same))
    | inr e ↦ rw e refl
  ]
