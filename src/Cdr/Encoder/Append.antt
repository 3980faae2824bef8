-- ===== src/Cdr/Encoder/Append.antt =====
-- What the encoder of cdr.cc writes behind all earlier octets, seen as a growing message.
use corba_cc.Base.{
  ℕ, ◌+◌, ◌-◌, ◌≤◌, ◌<◌, ◌≡◌, sym, ap, ◌∙◌, List, [], ◌++◌, arith, length, take, drop, replicate,
  length-append, length-replicate, drop-append, take-append, append-nil, append_assoc,
  replicate-add, ltb, inl, inr, Bool-cases,
}
use corba_cc.Cdr.Encoder.{Encoder, resize, reserve, overwrite, poke, emit, align_to, align}

-- The message up to the offset: octets that were skipped and not yet reserved are zeros.
unfoldable pub wire : Encoder → List ℕ
unfolding resize
wire e = resize e.offset e.buffer

-- Nothing has been written behind the offset.
abbrev pub IsAppend : Encoder → Type 0
IsAppend e = length e.buffer ≤ e.offset

pub encoder_path :
    (xs ys : List ℕ) (m n : ℕ) (stack : List ℕ)
    → xs ≡ ys
    → m ≡ n
    → ◌≡◌ {A = Encoder}
        (record { buffer = xs; offset = m; size_stack = stack })
        (record { buffer = ys; offset = n; size_stack = stack })
encoder_path xs ys m n stack p q = λ i. record { buffer = p i; offset = q i; size_stack = stack }

zeros_cong : (m n : ℕ) → m ≡ n → replicate m 0 ≡ replicate {A = ℕ} n 0
zeros_cong m n e = ap (λ k. replicate k 0) e

pub resize_append :
    (n : ℕ) (bs : List ℕ) → length bs ≤ n → resize n bs ≡ bs ++ replicate (n - length bs) 0
unfolding resize
resize_append n bs h = elim (Bool-cases (ltb (length bs) n)) [
  | inl e ↦ rw e
  | inr e ↦ rw (e, zeros_cong (n - length bs) 0 (ground arith), append-nil bs)
]

pub resize_full : (n : ℕ) (bs : List ℕ) → n ≤ length bs → resize n bs ≡ bs
unfolding resize
resize_full n bs h = ground arith

pub resize_grow :
    (m n : ℕ) (bs : List ℕ) → length bs ≤ m → resize (m + n) bs ≡ resize m bs ++ replicate n 0
resize_grow m n bs h =
    resize_append (m + n) bs (omega arith)
    ∙ ap (◌++◌ bs) (
        zeros_cong (m + n - length bs) ((m - length bs) + n) (omega arith)
        ∙ sym (replicate-add (m - length bs) n 0))
    ∙ sym (append_assoc bs (replicate (m - length bs) 0) (replicate n 0))
    ∙ ap (λ xs. xs ++ replicate n 0) (sym (resize_append m bs h))

pub length-resize : (n : ℕ) (bs : List ℕ) → length bs ≤ n → length (resize n bs) ≡ n
length-resize n bs h =
    rw (resize_append n bs h, length-append bs)
      (omega (arith, length-replicate {A = ℕ} (n - length bs) 0))

pub length-wire : (e : Encoder) → IsAppend e → length (wire e) ≡ e.offset
unfolding wire
length-wire e h = length-resize e.offset e.buffer h

-- A store over octets of the same number replaces them and nothing else.
pub overwrite_middle :
    (pre old new post : List ℕ) (i : ℕ)
    → length pre ≡ i
    → length old ≡ length new
    → overwrite i new (pre ++ (old ++ post)) ≡ pre ++ (new ++ post)
unfolding overwrite
overwrite_middle pre old new post i e h =
    let skipped : drop (i + length new) (pre ++ (old ++ post)) ≡ post =
      ap (λ k. drop k (pre ++ (old ++ post))) {x = i + length new} {y = length (pre ++ old)}
        (omega (arith, length-append pre old))
      ∙ ap (drop (length (pre ++ old))) (sym (append_assoc pre old post))
      ∙ drop-append (pre ++ old) post in
    let kept : take i (pre ++ (old ++ post)) ≡ pre =
      ap (λ k. take k (pre ++ (old ++ post))) (sym e) ∙ take-append pre (old ++ post) in
    rw (skipped, kept)

pub buffer-emit : (bs : List ℕ) (e : Encoder) → IsAppend e → (emit bs e).buffer ≡ wire e ++ bs
unfolding emit poke reserve wire
buffer-emit bs e h =
    ap (overwrite e.offset bs) (resize_grow e.offset (length bs) e.buffer h)
    ∙ ap (λ xs. overwrite e.offset bs (wire e ++ xs)) (sym (append-nil (replicate (length bs) 0)))
    ∙ overwrite_middle (wire e) (replicate (length bs) 0) bs [] e.offset (length-wire e h)
        (length-replicate (length bs) 0)
    ∙ ap (◌++◌ (wire e)) (append-nil bs)

-- `emit` appends its octets.
pub emit-IsAppend : (bs : List ℕ) (e : Encoder) → IsAppend e → IsAppend (emit bs e)
unfolding emit poke overwrite reserve
emit-IsAppend bs e h =
    omega (arith, ap length (buffer-emit bs e h), length-append (wire e) bs, length-wire e h)

pub wire-emit : (bs : List ℕ) (e : Encoder) → IsAppend e → wire (emit bs e) ≡ wire e ++ bs
unfolding emit poke wire reserve overwrite
wire-emit bs e h =
    resize_full _ _
      (omega (arith, ap length (buffer-emit bs e h), length-append (wire e) bs, length-wire e h))
    ∙ buffer-emit bs e h

-- The octets that an alignment to `k` skips at an offset.
unfoldable pub padding : ℕ → ℕ → ℕ
padding k offset = align_to k offset - offset

pub align_to-ge : (k offset : ℕ) → 0 < k → offset ≤ align_to k offset
unfolding align_to
align_to-ge k offset h = grind arith

pub wire-align :
    (k : ℕ) (e : Encoder)
    → 0 < k
    → IsAppend e
    → wire (align k e) ≡ wire e ++ replicate (padding k e.offset) 0
unfolding wire align padding
wire-align k e pos h =
    ap (λ n. resize n e.buffer) {x = align_to k e.offset}
      {y = e.offset + (align_to k e.offset - e.offset)} (omega (arith, align_to-ge k e.offset pos))
    ∙ resize_grow e.offset (align_to k e.offset - e.offset) e.buffer h

pub align-IsAppend : (k : ℕ) (e : Encoder) → 0 < k → IsAppend e → IsAppend (align k e)
unfolding align
align-IsAppend k e pos h = omega (arith, align_to-ge k e.offset pos)
