-- ===== src/Orb/Servants.antt =====
-- The servants of an ORB: `activate_object` and `activate_object_with_id` of orb.cc.
pub mod Keys
pub mod Activated
use corba_cc.Base.{
  ℕ, zero, suc, ◌+◌, ◌/◌, ◌%◌, ◌^◌, List, [], ◌∷◌, ◌++◌, Option, none, some, ltb, ◌==◌,
  if◌then◌else◌, codes,
}
use corba_cc.Orb.Table.{find}

-- `table` is the map `servants`, with a number for each skeleton; `object_key` gives the member of that
-- name of a skeleton that has been activated.
pub record Servants : Type 0 where
  pub table : List (List ℕ × ℕ)
  pub object_key : ℕ → Option (List ℕ)
  pub servant_id_counter : ℕ

-- `std::format` with `{:x}`.
unfoldable pub hex_digit : ℕ → ℕ
hex_digit d = if ltb d 10 then d + 48 else d + 87

-- A number has fewer digits than it counts.
unfoldable pub hex : ℕ → ℕ → List ℕ
hex zero n = hex_digit n ∷ []
hex (suc fuel) n =
    let front = hex fuel (n / 16) in
    if ltb n 16 then hex_digit n ∷ [] else front ++ (hex_digit (n % 16) ∷ [])

unfoldable pub object_id : ℕ → List ℕ
object_id n = codes "OID:" ++ hex n n

-- `emplace` keeps an entry that is there.
unfoldable pub emplaced : Option ℕ → List ℕ → ℕ → List (List ℕ × ℕ) → List (List ℕ × ℕ)
emplaced (some other) key servant table = table
emplaced none key servant table = (key, servant) ∷ table

unfoldable pub activate_object_with_id : List ℕ → ℕ → Servants → Servants
activate_object_with_id key servant s = record s {
  table = emplaced (find key s.table) key servant s.table;
  object_key = λ other. if other == servant then some key else s.object_key other;
}

-- `++` on 64 bits.
unfoldable pub activate_object : ℕ → Servants → Servants
activate_object servant s =
    let n = (s.servant_id_counter + 1) % 2 ^ 64 in
    activate_object_with_id (object_id n) servant (record s { servant_id_counter = n })
