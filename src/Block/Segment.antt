-- ===== src/Block/Segment.antt =====
-- Doubly linked lists of items.
use y_crdt.Common.{
  ℕ, ◌≡◌, refl, sym, ◌∙◌, true, false, Option, some, List, [], ◌∷◌, ◌++◌, ◌==◌, is_among, arith,
  Bool-cases, inl, inr, ==_iff,
}
use y_crdt.Block.{Item, Heap, set_left, set_right, write, write_at}

-- The items `xs`, linked both ways: `o` points to the first, which has `prev` on its left, and the
-- last has `end` on its right.
abbrev pub Segment : Heap → Option ℕ → Option ℕ → List ℕ → Option ℕ → Type 0
Segment heap prev o [] end = o ≡ end
Segment heap prev o (x ∷ xs) end =
    (o ≡ some x) × ((heap x).left ≡ prev) × Segment heap (some x) (heap x).right xs end

abbrev pub Distinct : List ℕ → Type 0
Distinct [] = Unit
Distinct (x ∷ xs) = (is_among x xs ≡ false) × Distinct xs

-- The last item of a segment, or what is on its left.
abbrev pub last_of : Option ℕ → List ℕ → Option ℕ
last_of prev [] = prev
last_of prev (x ∷ xs) = last_of (some x) xs

-- The first item of a segment, or what is on its right.
abbrev pub first_of : List ℕ → Option ℕ → Option ℕ
first_of [] end = end
first_of (x ∷ xs) end = some x

pub Segment-first :
    (heap : Heap) (prev o : Option ℕ) (xs : List ℕ) (end : Option ℕ)
    → Segment heap prev o xs end
    → o ≡ first_of xs end
Segment-first heap prev o [] end s = s
Segment-first heap prev o (x ∷ xs) end s = s.0

pub Segment-split :
    (heap : Heap) (prev o : Option ℕ) (xs ys : List ℕ) (end : Option ℕ)
    → Segment heap prev o (xs ++ ys) end
    → Segment heap prev o xs (first_of ys end)
      × Segment heap (last_of prev xs) (first_of ys end) ys end
Segment-split heap prev o [] [] end s = (s, refl)
Segment-split heap prev o [] (y ∷ ys) end s = (s.0, (refl, s.1, s.2))
Segment-split heap prev o (x ∷ xs) ys end s =
    let ih = Segment-split heap (some x) (heap x).right xs ys end s.2 in ((s.0, s.1, ih.0), ih.1)

pub Segment-join :
    (heap : Heap) (prev o m : Option ℕ) (xs ys : List ℕ) (end : Option ℕ)
    → Segment heap prev o xs m
    → Segment heap (last_of prev xs) m ys end
    → Segment heap prev o (xs ++ ys) end
Segment-join heap prev o m [] ys end s t = rw s t
Segment-join heap prev o m (x ∷ xs) ys end s t =
    (s.0, s.1, Segment-join heap (some x) (heap x).right m xs ys end s.2 t)

-- A heap with the same links in the segment.
pub Segment-frame :
    (heap heap' : Heap) (prev o : Option ℕ) (xs : List ℕ) (end : Option ℕ)
    → ((x : ℕ) → is_among x xs ≡ true → heap' x ≡ heap x)
    → Segment heap prev o xs end
    → Segment heap' prev o xs end
Segment-frame heap heap' prev o [] end same s = s
Segment-frame heap heap' prev o (x ∷ xs) end same s =
    let here : heap' x ≡ heap x = same x (ground arith) in
    (
      s.0,
      rw here s.1,
      rw here (
          Segment-frame heap heap' (some x) (heap x).right xs end (λ y m. same y (ground arith))
            s.2),
    )

-- Writing to an item outside of the segment.
pub Segment-write :
    (heap : Heap) (p : ℕ) (f : Item → Item) (prev o : Option ℕ) (xs : List ℕ) (end : Option ℕ)
    → is_among p xs ≡ false
    → Segment heap prev o xs end
    → Segment (write p f heap) prev o xs end
Segment-write heap p f prev o xs end out s =
    Segment-frame heap (write p f heap) prev o xs end
      (λ x m. elim (Bool-cases (p == x)) [
        | inl e ↦ absurd (let no : false ≡ true = sym out ∙ rw (sym ((==_iff p x).0 e)) at m in cc)
        | inr e ↦ rw e refl
      ])
      s

pub write_at-last_of :
    (heap : Heap) (f : Item → Item) (x y : ℕ) (ys : List ℕ)
    → is_among x (y ∷ ys) ≡ false
    → write_at (last_of (some y) ys) f heap x ≡ heap x
write_at-last_of heap f x y [] out = elim (Bool-cases (y == x)) [
  | inl e ↦ absurd (ground arith)
  | inr e ↦ rw e refl
]
write_at-last_of heap f x y (z ∷ ys) out = write_at-last_of heap f x z ys (ground arith)

-- The last item gets another right neighbour.
pub Segment-set_right :
    (heap : Heap) (p : ℕ) (prev o : Option ℕ) (x : ℕ) (xs : List ℕ) (end : Option ℕ)
    → Distinct (x ∷ xs)
    → Segment heap prev o (x ∷ xs) end
    → Segment
        (write_at (last_of (some x) xs) (λ i. set_right (some p) i) heap)
        prev
        o
        (x ∷ xs)
        (some p)
Segment-set_right heap p prev o x [] end d s =
    let self = (==_iff x x).1 refl in (s.0, rw self s.1, rw self refl)
Segment-set_right heap p prev o x (y ∷ xs) end d s =
    let ih = Segment-set_right heap p (some x) (heap x).right y xs end d.1 s.2 in
    let keep = write_at-last_of heap (λ i. set_right (some p) i) x y xs d.0 in
    (s.0, rw keep s.1, rw keep ih)

-- The first item gets another left neighbour.
pub Segment-set_left :
    (heap : Heap) (p : ℕ) (prev o : Option ℕ) (y : ℕ) (ys : List ℕ) (end : Option ℕ)
    → Distinct (y ∷ ys)
    → Segment heap prev o (y ∷ ys) end
    → Segment (write y (λ i. set_left (some p) i) heap) (some p) (some y) (y ∷ ys) end
Segment-set_left heap p prev o y ys end d s =
    let self = (==_iff y y).1 refl in
    (
      refl,
      rw self refl,
      rw self
          (Segment-write heap y (λ i. set_left (some p) i) (some y) (heap y).right ys end d.0 s.2),
    )
