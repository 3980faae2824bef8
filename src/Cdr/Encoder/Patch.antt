-- ===== src/Cdr/Encoder/Patch.antt =====
-- Going back: what a write at an earlier offset does to the message of the encoder of cdr.cc.
use corba_cc.Base.{
  refl, ℕ, ◌+◌, ◌-◌, ◌≤◌, ◌≡◌, sym, ap, ◌∙◌, List, ◌++◌, arith, length, take, drop, replicate,
  length-append, length-take, length-drop, take-append_le, drop-append_le, append_assoc,
  take-append-drop,
}
use native.Mathlib.Decide.{dec_le}
use corba_cc.Cdr.Encoder.{Encoder, resize, reserve, overwrite, poke, emit, align, align_to}
use corba_cc.Cdr.Encoder.Append.{
  encoder_path, wire, IsAppend, resize_grow, resize_full, resize_append, length-resize,
  overwrite_middle,
}

overwrite-append :
    (i : ℕ) (bs xs ys : List ℕ)
    → i + length bs ≤ length xs
    → overwrite i bs (xs ++ ys) ≡ overwrite i bs xs ++ ys
unfolding overwrite
overwrite-append i bs xs ys h =
    rw (take-append_le i xs ys (omega arith), drop-append_le (i + length bs) xs ys h)
      (sym (
        append_assoc (take i xs) (bs ++ drop (i + length bs) xs) ys
        ∙ ap (◌++◌ (take i xs)) (append_assoc bs (drop (i + length bs) xs) ys)))

length-overwrite :
    (i : ℕ) (bs xs : List ℕ) → i + length bs ≤ length xs → length (overwrite i bs xs) ≡ length xs
unfolding overwrite
length-overwrite i bs xs h = omega (
  arith,
  length-append (take i xs) (bs ++ drop (i + length bs) xs),
  length-append bs (drop (i + length bs) xs),
  length-take i xs,
  length-drop (i + length bs) xs,
)

-- A resize may be made in two steps.
resize-resize :
    (m n : ℕ) (bs : List ℕ) → m ≤ n → length bs ≤ n → resize n (resize m bs) ≡ resize n bs
resize-resize m n bs h k = elim (dec_le (length bs) m) [
  | yes small ↦
      resize_append n (resize m bs) (omega (arith, length-resize m bs small))
      ∙ ap (λ j. resize m bs ++ replicate j 0) {x = n - length (resize m bs)} {y = n - m}
          (omega (arith, length-resize m bs small))
      ∙ sym (resize_grow m (n - m) bs small)
      ∙ ap (λ j. resize j bs) {x = m + (n - m)} {y = n} (omega arith)
  | no large ↦ ap (resize n) (resize_full m bs (omega arith))
]

length-resize-ge : (m : ℕ) (bs : List ℕ) → m ≤ length (resize m bs)
length-resize-ge m bs = elim (dec_le (length bs) m) [
  | yes small ↦ omega (arith, length-resize m bs small)
  | no large ↦ rw (resize_full m bs (omega arith)) (omega arith)
]

length-resize-le : (m n : ℕ) (bs : List ℕ) → m ≤ n → length bs ≤ n → length (resize m bs) ≤ n
length-resize-le m n bs h k = elim (dec_le (length bs) m) [
  | yes small ↦ omega (arith, length-resize m bs small)
  | no large ↦ rw (resize_full m bs (omega arith)) (omega arith)
]

-- The encoder sent back to `i` for one write, and then on to where it was.
unfoldable pub patch : ℕ → List ℕ → Encoder → Encoder
patch i bs e = record (emit bs (record e { offset = i })) { offset = e.offset }

module _ (i : ℕ) (bs : List ℕ) (e : Encoder) (h : IsAppend e)
    (fits : i + length bs ≤ e.offset) where
  pub patch-IsAppend : IsAppend (patch i bs e)
  unfolding patch emit poke reserve
  patch-IsAppend = omega (
    arith,
    length-overwrite i bs (resize (i + length bs) e.buffer)
        (length-resize-ge (i + length bs) e.buffer),
    length-resize-le (i + length bs) e.offset e.buffer fits h,
  )

  pub wire-patch : wire (patch i bs e) ≡ overwrite i bs (wire e)
  unfolding patch emit poke reserve wire
  wire-patch =
      let b : List ℕ = resize (i + length bs) e.buffer in
      let big = length-resize-ge (i + length bs) e.buffer in
      let small = length-resize-le (i + length bs) e.offset e.buffer fits h in
      let kept = length-overwrite i bs b big in
      resize_append e.offset (overwrite i bs b) (omega (arith, kept))
      ∙ ap (λ j. overwrite i bs b ++ replicate j 0) {x = e.offset - length (overwrite i bs b)}
          {y = e.offset - length b} (omega (arith, kept))
      ∙ sym (overwrite-append i bs b (replicate (e.offset - length b) 0) big)
      ∙ ap (overwrite i bs) (
          sym (resize_append e.offset b small)
          ∙ resize-resize (i + length bs) e.offset e.buffer fits h)

-- Writes that stay inside what has been written.
pub emit_inside :
    (bs : List ℕ) (e : Encoder)
    → e.offset + length bs ≤ length e.buffer
    → emit bs e
      ≡ record e { buffer = overwrite e.offset bs e.buffer; offset = e.offset + length bs }
unfolding emit poke reserve
emit_inside bs e h = rw (resize_full (e.offset + length bs) e.buffer h)

overwrite-overwrite :
    (i : ℕ) (cs bs xs : List ℕ)
    → i + length cs + length bs ≤ length xs
    → overwrite (i + length cs) bs (overwrite i cs xs) ≡ overwrite i (cs ++ bs) xs
overwrite-overwrite i cs bs xs h =
    let ys : List ℕ = drop i xs in
    let zs : List ℕ = drop (length cs) ys in
    let pre : List ℕ = take i xs in
    let post : List ℕ = drop (length bs) zs in
    let n1 : length pre ≡ i = omega (arith, length-take i xs) in
    let n2 : length (take (length cs) ys) ≡ length cs =
      omega (arith, length-take (length cs) ys, length-drop i xs) in
    let n3 : length (take (length bs) zs) ≡ length bs =
      omega (arith, length-take (length bs) zs, length-drop (length cs) ys, length-drop i xs) in
    let split : xs ≡ pre ++ (take (length cs) ys ++ (take (length bs) zs ++ post)) = sym (
      ap (λ t. pre ++ (take (length cs) ys ++ t)) (take-append-drop (length bs) zs)
      ∙ ap (◌++◌ pre) (take-append-drop (length cs) ys)
      ∙ take-append-drop i xs) in
    let first : overwrite i cs xs ≡ pre ++ (cs ++ (take (length bs) zs ++ post)) =
      ap (overwrite i cs) split ∙ overwrite_middle pre _ cs _ i n1 n2 in
    let second : overwrite (i + length cs) bs (overwrite i cs xs) ≡ (pre ++ cs) ++ (bs ++ post) =
      ap (overwrite (i + length cs) bs) (first ∙ sym (append_assoc pre cs _))
      ∙ overwrite_middle (pre ++ cs) _ bs post (i + length cs)
          (omega (arith, length-append pre cs, n1)) n3 in
    let whole : overwrite i (cs ++ bs) xs ≡ pre ++ ((cs ++ bs) ++ post) =
      ap (overwrite i (cs ++ bs)) (
        split ∙ ap (◌++◌ pre) (sym (append_assoc (take (length cs) ys) (take (length bs) zs) post)))
      ∙ overwrite_middle pre (take (length cs) ys ++ take (length bs) zs) (cs ++ bs) post i n1 (
          omega (
            arith,
            length-append (take (length cs) ys) (take (length bs) zs),
            length-append cs bs,
            n2,
            n3,
          )) in
    second
    ∙ append_assoc pre cs (bs ++ post)
    ∙ ap (◌++◌ pre) (sym (append_assoc cs bs post))
    ∙ sym whole

-- Two such writes in a row are one.
pub emit-emit :
    (cs bs : List ℕ) (e : Encoder)
    → e.offset + length cs + length bs ≤ length e.buffer
    → emit bs (emit cs e) ≡ emit (cs ++ bs) e
emit-emit cs bs e h =
    let kept = length-overwrite e.offset cs e.buffer (omega arith) in
    ap (emit bs) (emit_inside cs e (omega arith))
    ∙ emit_inside bs _ (omega (arith, kept))
    ∙ encoder_path _ _ _ _ e.size_stack (overwrite-overwrite e.offset cs bs e.buffer h)
        (omega (arith, length-append cs bs))
    ∙ sym (emit_inside (cs ++ bs) e (omega (arith, length-append cs bs)))

pub align_aligned : (k : ℕ) (e : Encoder) → align_to k e.offset ≡ e.offset → align k e ≡ e
unfolding align
align_aligned k e h = encoder_path _ _ _ _ e.size_stack refl h
