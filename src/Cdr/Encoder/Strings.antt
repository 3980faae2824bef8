-- ===== src/Cdr/Encoder/Strings.antt =====
-- `writeString` of cdr.cc: two stores behind one reserve.
use corba_cc.Base.{
  ℕ, ◌+◌, ◌≡◌, refl, sym, ap, ◌∙◌, List, [], ◌∷◌, ◌++◌, arith, length, replicate, length-append,
  length-replicate, append_assoc, replicate-add,
}
use corba_cc.Cdr.Encoder.{Encoder, resize, reserve, overwrite, poke, emit}
use corba_cc.Cdr.Encoder.Append.{
  encoder_path, wire, IsAppend, length-wire, resize_grow, overwrite_middle, buffer-emit,
}

-- The buffer, once room is made, and after each of the two stores.
module _ (value : List ℕ) (e : Encoder) (h : IsAppend e) where
  room :
      resize (e.offset + length value + 1) e.buffer
      ≡ wire e ++ (replicate (length value) 0 ++ (0 ∷ []))
  room =
      ap (λ n. resize n e.buffer) {x = e.offset + length value + 1}
        {y = e.offset + (length value + 1)} (omega arith)
      ∙ resize_grow e.offset (length value + 1) e.buffer h
      ∙ unfold wire in ap (◌++◌ (wire e)) (sym (replicate-add (length value) 1 0))

  first_store :
      overwrite e.offset value (wire e ++ (replicate (length value) 0 ++ (0 ∷ [])))
      ≡ wire e ++ (value ++ (0 ∷ []))
  first_store =
      overwrite_middle (wire e) (replicate (length value) 0) value (0 ∷ []) e.offset
        (length-wire e h) (length-replicate (length value) 0)

  second_store :
      overwrite (e.offset + length value) (0 ∷ []) (wire e ++ (value ++ (0 ∷ [])))
      ≡ wire e ++ (value ++ (0 ∷ []))
  second_store =
      ap (overwrite (e.offset + length value) (0 ∷ [])) (sym (append_assoc (wire e) value (0 ∷ [])))
      ∙ overwrite_middle (wire e ++ value) (0 ∷ []) (0 ∷ []) [] (e.offset + length value)
          (omega (arith, length-append (wire e) value, length-wire e h)) refl
      ∙ append_assoc (wire e) value (0 ∷ [])

  pub pokes-emit :
      poke (0 ∷ []) (poke value (reserve (e.offset + length value + 1) e))
      ≡ emit (value ++ (0 ∷ [])) e
  unfolding poke reserve emit
  pokes-emit =
      encoder_path _ _ _ _ e.size_stack
        (ap (λ xs. overwrite (e.offset + length value) (0 ∷ []) (overwrite e.offset value xs)) room
          ∙ ap (overwrite (e.offset + length value) (0 ∷ [])) first_store
          ∙ second_store
          ∙ sym (buffer-emit (value ++ (0 ∷ [])) e h))
        (omega (arith, length-append value (0 ∷ [])))
