-- ===== src/Orb/Servants/Keys.antt =====
-- The object keys that orb.cc generates.
use corba_cc.Base.{
  ℕ, zero, suc, ◌+◌, ◌*◌, ◌/◌, ◌%◌, ◌≤◌, ◌<◌, ◌≡◌, refl, sym, ap, ◌∙◌, List, [], ◌∷◌, ◌++◌, arith,
  ltb, Bool-cases, inl, inr, drop, if◌then◌else◌, ◌-◌,
}
use corba_cc.Orb.Servants.{hex_digit, hex, object_id}

-- The number that hexadecimal digits stand for.
undigit : ℕ → ℕ
undigit c = if ltb c 58 then c - 48 else c - 87

value : ℕ → List ℕ → ℕ
value acc [] = acc
value acc (c ∷ cs) = value (acc * 16 + undigit c) cs

undigit-hex_digit : (d : ℕ) → d < 16 → undigit (hex_digit d) ≡ d
unfolding undigit hex_digit
undigit-hex_digit d h = ground arith

value-snoc :
    (acc : ℕ) (cs : List ℕ) (c : ℕ) → value acc (cs ++ (c ∷ [])) ≡ value acc cs * 16 + undigit c
unfolding value
value-snoc acc [] c = refl
value-snoc acc (x ∷ cs) c = value-snoc (acc * 16 + undigit x) cs c

value-hex : (fuel n : ℕ) → n ≤ fuel → value 0 (hex fuel n) ≡ n
unfolding hex
value-hex zero n h = unfold value in omega (arith, undigit-hex_digit n (omega arith))
value-hex (suc fuel) n h = elim (Bool-cases (ltb n 16)) [
  | inl small ↦ rw small (unfold value in omega (arith, undigit-hex_digit n (ground arith)))
  | inr large ↦
      let smaller : n / 16 ≤ fuel = ground arith in
      rw
        (
          large,
          value-snoc 0 (hex fuel (n / 16)) (hex_digit (n % 16)),
          value-hex fuel (n / 16) smaller,
          undigit-hex_digit (n % 16) (omega arith),
        )
        (omega arith)
]

-- Two numbers with the same key are the same.
pub object_id-injective : (m n : ℕ) → object_id m ≡ object_id n → m ≡ n
unfolding object_id
object_id-injective m n h =
    let same : hex m m ≡ hex n n = ap (drop 4) h in
    sym (value-hex m m (omega arith)) ∙ ap (value 0) same ∙ value-hex n n (omega arith)
