-- ===== src/Block/Link.antt =====
-- yrs/src/block.rs: linking an item keeps the list of its parent linked both ways.
use y_crdt.Block.Segment.{
  Segment-frame, write_at-last_of, Segment, Distinct, last_of, first_of, Segment-split,
  Segment-join, Segment-write, Segment-set_right, Segment-set_left,
}
use y_crdt.Common.{
  ℕ, ◌≡◌, refl, sym, ◌∙◌, ap, Bool, true, false, ◌||◌, Option, none, some, List, [], ◌∷◌, ◌++◌,
  ◌==◌, is_among, arith, Bool-cases, inl, inr, ==_iff,
}
use y_crdt.Block.{Item, Heap, Branch, link, set_left, set_right, write, write_at}

-- The items of a parent: linked both ways from its first item, none of them twice.
abbrev pub Items : Heap → Branch → List ℕ → Type 0
Items heap parent xs = Segment heap none parent.start xs none × Distinct xs

pub is_among-append :
    (p : ℕ) (xs ys : List ℕ) → is_among p (xs ++ ys) ≡ is_among p xs || is_among p ys
is_among-append p [] ys = refl
is_among-append p (x ∷ xs) ys = ground (arith, is_among-append p xs ys)

pub either : (b c : Bool) → b || c ≡ false → (b ≡ false) × (c ≡ false)
either b c h = ground arith

pub Distinct-right : (xs ys : List ℕ) → Distinct (xs ++ ys) → Distinct ys
Distinct-right [] ys d = d
Distinct-right (x ∷ xs) ys d = Distinct-right xs ys d.1

pub Distinct-left : (xs ys : List ℕ) → Distinct (xs ++ ys) → Distinct xs
Distinct-left [] ys d = tt
Distinct-left (x ∷ xs) ys d =
    let out : is_among x xs || is_among x ys ≡ false = sym (is_among-append x xs ys) ∙ d.0 in
    ((either (is_among x xs) (is_among x ys) out).0, Distinct-left xs ys d.1)

-- An item of the second part is not in the first.
pub apart :
    (z : ℕ) (xs ys : List ℕ) → Distinct (xs ++ ys) → is_among z ys ≡ true → is_among z xs ≡ false
apart z [] ys d m = refl
apart z (x ∷ xs) ys d m = elim (Bool-cases (x == z)) [
  | inl e ↦
      let out : is_among x xs || is_among x ys ≡ false = sym (is_among-append x xs ys) ∙ d.0 in
      let gone : is_among z ys ≡ false =
        rw ((==_iff x z).0 e) at ((either (is_among x xs) (is_among x ys) out).1) in
      absurd (let no : false ≡ true = sym gone ∙ m in cc)
  | inr e ↦ rw e (apart z xs ys d.1 m)
]

Distinct-insert :
    (p : ℕ) (xs ys : List ℕ)
    → is_among p (xs ++ ys) ≡ false
    → Distinct (xs ++ ys)
    → Distinct (xs ++ p ∷ ys)
Distinct-insert p [] ys out d = (out, d)
Distinct-insert p (x ∷ xs) ys out d =
    let ih = Distinct-insert p xs ys (either (x == p) (is_among p (xs ++ ys)) out).1 d.1 in
    let there : is_among x xs || is_among x ys ≡ false = sym (is_among-append x xs ys) ∙ d.0 in
    let fresh : is_among x (p ∷ ys) ≡ is_among x ys = ground arith in
    (is_among-append x xs (p ∷ ys) ∙ ap (λ b. is_among x xs || b) fresh ∙ there, ih)

-- The heap of `link`.
abbrev linked_heap : (heap : Heap) (p : ℕ) (left right : Option ℕ) → Heap
linked_heap heap p left right =
    write_at right (λ i. set_left (some p) i)
      (write_at left (λ i. set_right (some p) i)
        (write p (λ i. set_left left (set_right right i)) heap))

-- The part before the linked item, and the item.
linked_before :
    (heap : Heap) (p x : ℕ) (xs : List ℕ) (o end : Option ℕ)
    → Distinct (x ∷ xs)
    → is_among p (x ∷ xs) ≡ false
    → Segment heap none o (x ∷ xs) end
    → let f = λ (i : Item). set_left (last_of (some x) xs) (set_right end i) in
      let h = write_at (last_of (some x) xs) (λ i. set_right (some p) i) (write p f heap) in
      Segment h none o (x ∷ xs) (some p) × ((h p).left ≡ last_of (some x) xs) × ((h p).right ≡ end)
linked_before heap p x xs o end d out s =
    let f = λ (i : Item). set_left (last_of (some x) xs) (set_right end i) in
    let own = Segment-write heap p f none o (x ∷ xs) end out s in
    let self = (==_iff p p).1 refl in
    let keep = write_at-last_of (write p f heap) (λ i. set_right (some p) i) p x xs out in
    (
      Segment-set_right (write p f heap) p none o x xs end d own,
      rw keep (rw self refl),
      rw keep (rw self refl),
    )

pub last_is : (x : ℕ) (xs : List ℕ) → (q : ℕ) × (last_of (some x) xs ≡ some q)
last_is x [] = (x, refl)
last_is x (y ∷ xs) = last_is y xs

-- The list from `xs` to the linked item, and from there on.
linked_middle :
    (heap : Heap) (p x : ℕ) (xs ys : List ℕ) (o : Option ℕ)
    → Distinct ((x ∷ xs) ++ ys)
    → is_among p ((x ∷ xs) ++ ys) ≡ false
    → Segment heap none o ((x ∷ xs) ++ ys) none
    → Segment
        (linked_heap heap p (last_of (some x) xs) (first_of ys none))
        none
        o
        ((x ∷ xs) ++ p ∷ ys)
        none
linked_middle heap p x xs [] o d out s =
    let parts = Segment-split heap none o (x ∷ xs) [] none s in
    let outs = either (is_among p (x ∷ xs)) false (sym (is_among-append p (x ∷ xs) []) ∙ out) in
    let front = linked_before heap p x xs o none (Distinct-left (x ∷ xs) [] d) outs.0 parts.0 in
    Segment-join (linked_heap heap p (last_of (some x) xs) none) none o (some p) (x ∷ xs) (p ∷ [])
      none front.0 (refl, front.1, front.2)
linked_middle heap p x xs (y ∷ ys) o d out s =
    let parts = Segment-split heap none o (x ∷ xs) (y ∷ ys) none s in
    let last = last_of (some x) xs in
    let f = λ (i : Item). set_left last (set_right (some y) i) in
    let g = λ (i : Item). set_right (some p) i in
    let h1 = write p f heap in
    let h2 = write_at last g h1 in
    let outs =
      either (is_among p (x ∷ xs)) (is_among p (y ∷ ys))
        (sym (is_among-append p (x ∷ xs) (y ∷ ys)) ∙ out) in
    let front =
      linked_before heap p x xs o (some y) (Distinct-left (x ∷ xs) (y ∷ ys) d) outs.0 parts.0 in
    let rest1 = Segment-write heap p f last (some y) (y ∷ ys) none outs.1 parts.1 in
    let rest2 =
      Segment-frame h1 h2 last (some y) (y ∷ ys) none
        (λ z m. write_at-last_of h1 g z x xs (apart z (x ∷ xs) (y ∷ ys) d m)) rest1 in
    let rest3 =
      Segment-set_left h2 p last (some y) y ys none (Distinct-right (x ∷ xs) (y ∷ ys) d) rest2 in
    let y_out = apart y (x ∷ xs) (y ∷ ys) d (rw ((==_iff y y).1 refl) refl) in
    let other : (y == p) ≡ false = (either (y == p) (is_among p ys) outs.1).0 in
    let front3 =
      Segment-write h2 y (λ i. set_left (some p) i) none o (x ∷ xs) (some p) y_out front.0 in
    Segment-join (linked_heap heap p last (some y)) none o (some p) (x ∷ xs) (p ∷ y ∷ ys) none
      front3 (refl, rw other front.1, rw (other, front.2) rest3)

start_kept :
    (heap : Heap) (parent : Branch) (p x : ℕ) (xs ys : List ℕ)
    → (link heap parent p none (last_of (some x) xs) (first_of ys none)).parent.start ≡ parent.start
unfolding link
start_kept heap parent p x xs [] = rw (link, (last_is x xs).1) refl
start_kept heap parent p x xs (y ∷ ys) = rw (link, (last_is x xs).1) refl

-- Linking an item without a key, which is not among the items of the parent, between two parts of
-- them gives the parent the items of both parts with the new one between them, linked both ways.
pub link-Items :
    (heap : Heap) (parent : Branch) (p : ℕ) (xs ys : List ℕ)
    → Items heap parent (xs ++ ys)
    → is_among p (xs ++ ys) ≡ false
    → let l = link heap parent p none (last_of none xs) (first_of ys none) in
      Items l.heap l.parent (xs ++ p ∷ ys)
unfolding link
link-Items heap parent p [] [] h out =
    let self = (==_iff p p).1 refl in
    ((refl, rw self refl, rw self refl), Distinct-insert p [] [] out h.1)
link-Items heap parent p [] (y ∷ ys) h out =
    let self = (==_iff p p).1 refl in
    let f = λ (i : Item). set_left none (set_right (some y) i) in
    let other : (y == p) ≡ false = (either (y == p) (is_among p ys) out).0 in
    let own = Segment-write heap p f none parent.start (y ∷ ys) none out h.0 in
    let rest = Segment-set_left (write p f heap) p none parent.start y ys none h.1 own in
    ((refl, rw (other, self) refl, rw (other, self) rest), Distinct-insert p [] (y ∷ ys) out h.1)
link-Items heap parent p (x ∷ xs) ys h out = (
  rw (start_kept heap parent p x xs ys) (linked_middle heap p x xs ys parent.start h.1 out h.0),
  Distinct-insert p (x ∷ xs) ys out h.1,
)

-- An item without its links.
abbrev pub unlinked : Item → Item
unlinked i = set_left none (set_right none i)

write_at-unlinked :
    (o : Option ℕ) (f : Item → Item) (heap : Heap) (q : ℕ)
    → ((i : Item) → unlinked (f i) ≡ unlinked i)
    → unlinked (write_at o f heap q) ≡ unlinked (heap q)
write_at-unlinked none f heap q h = refl
write_at-unlinked (some p) f heap q h = elim (Bool-cases (p == q)) [
  | inl e ↦ rw e (h (heap q))
  | inr e ↦ rw e refl
]

-- Linking changes only links.
pub link-unlinked :
    (heap : Heap) (parent : Branch) (p : ℕ) (sub left right : Option ℕ) (q : ℕ)
    → unlinked ((link heap parent p sub left right).heap q) ≡ unlinked (heap q)
unfolding link
link-unlinked heap parent p sub left right q =
    let own = λ (i : Item). set_left left (set_right right i) in
    let h1 = write p own heap in
    let h2 = write_at left (λ i. set_right (some p) i) h1 in
    write_at-unlinked right (λ i. set_left (some p) i) h2 q (λ i. refl)
    ∙ write_at-unlinked left (λ i. set_right (some p) i) h1 q (λ i. refl)
    ∙ write_at-unlinked (some p) own heap q (λ i. refl)

write_at-other :
    (zs : List ℕ) (f : Item → Item) (heap : Heap) (q : ℕ)
    → is_among q zs ≡ false
    → write_at (last_of none zs) f heap q ≡ heap q
write_at-other [] f heap q out = refl
write_at-other (x ∷ xs) f heap q out = write_at-last_of heap f q x xs out

write_at-after :
    (rest : List ℕ) (f : Item → Item) (heap : Heap) (q : ℕ)
    → is_among q rest ≡ false
    → write_at (first_of rest none) f heap q ≡ heap q
write_at-after [] f heap q out = refl
write_at-after (y ∷ ys) f heap q out = rw ((either (y == q) (is_among q ys) out).0) refl

-- Linking does not change the items outside of the list.
pub link-other :
    (heap : Heap) (parent : Branch) (p : ℕ) (xs ys : List ℕ) (q : ℕ)
    → is_among q (p ∷ (xs ++ ys)) ≡ false
    → (link heap parent p none (last_of none xs) (first_of ys none)).heap q ≡ heap q
unfolding link
link-other heap parent p xs ys q out =
    let own = λ (i : Item). set_left (last_of none xs) (set_right (first_of ys none) i) in
    let h1 = write p own heap in
    let h2 = write_at (last_of none xs) (λ i. set_right (some p) i) h1 in
    let outs = either (p == q) (is_among q (xs ++ ys)) out in
    let parts = either (is_among q xs) (is_among q ys) (sym (is_among-append q xs ys) ∙ outs.1) in
    write_at-after ys (λ i. set_left (some p) i) h2 q parts.1
    ∙ write_at-other xs (λ i. set_right (some p) i) h1 q parts.0
    ∙ rw outs.0 refl
