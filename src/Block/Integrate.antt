-- ===== src/Block/Integrate.antt =====
-- yrs/src/block.rs: what integrating an item does to the list of its parent.
use y_crdt.Common.{
  append-nil, ℕ, ◌<◌, ◌≡◌, refl, sym, ◌∙◌, ap, true, false, Option, none, some, List, [], ◌∷◌, ◌++◌,
  append_assoc, is_among, length, take, drop, take-append-drop, arith, Bool-cases, inl, inr, ==_iff,
}
use y_crdt.Block.{
  follower, new_left, BlockId, Item, Heap, Branch, Linked, same_ptr, detect_conflict, first_item,
  first_conflict, resolve_conflict, link, integrate_item,
}
use y_crdt.Block.Segment.{Segment, Distinct, last_of, first_of, Segment-first, Segment-split}
use y_crdt.Block.Link.{
  Items, link-Items, link-unlinked, link-other, unlinked, last_is, apart, Distinct-right,
}
use y_crdt.Block.Resolve.{place, scan-place, IsOutside}

-- The right neighbour of the last item.
Segment-last :
    (heap : Heap) (prev o : Option ℕ) (x : ℕ) (xs : List ℕ) (end : Option ℕ) (q : ℕ)
    → Segment heap prev o (x ∷ xs) end
    → last_of (some x) xs ≡ some q
    → (heap q).right ≡ end
Segment-last heap prev o x [] end q s e = let same : x ≡ q = cc in rw (sym same) s.2
Segment-last heap prev o x (y ∷ xs) end q s e =
    Segment-last heap (some x) (heap x).right y xs end q s.2 e

differ :
    (b : ℕ) (bs ys : List ℕ)
    → Distinct ((b ∷ bs) ++ ys)
    → same_ptr (some b) (first_of ys none) ≡ false
differ b bs [] d = refl
differ b bs (y ∷ ys) d =
    let out = apart y (b ∷ bs) (y ∷ ys) d (rw ((==_iff y y).1 refl) refl) in ground arith

first_of-IsOutside : (xs ys : List ℕ) → Distinct (xs ++ ys) → IsOutside (first_of ys none) xs
first_of-IsOutside xs [] d = tt
first_of-IsOutside xs (y ∷ ys) d = apart y xs (y ∷ ys) d (rw ((==_iff y y).1 refl) refl)

-- Items between two others make a conflict.
detect_conflict-between :
    (heap : Heap) (self : Item) (start : Option ℕ) (xs : List ℕ) (b : ℕ) (bs ys : List ℕ)
    → Segment heap none start (xs ++ ((b ∷ bs) ++ ys)) none
    → Distinct (xs ++ ((b ∷ bs) ++ ys))
    → self.left ≡ last_of none xs
    → self.right ≡ first_of ys none
    → detect_conflict heap self ≡ true
unfolding detect_conflict
detect_conflict-between heap self start [] b bs [] s d l r = rw (detect_conflict, l, r) refl
detect_conflict-between heap self start [] b bs (y ∷ ys) s d l r =
    let left = (Segment-split heap none start (b ∷ bs) (y ∷ ys) none s).1.1 in
    rw (detect_conflict, l, r, left, (last_is b bs).1) refl
detect_conflict-between heap self start (x ∷ xs) b bs ys s d l r =
    let last = last_is x xs in
    let front = (Segment-split heap none start (x ∷ xs) ((b ∷ bs) ++ ys) none s).0 in
    let next = Segment-last heap none start x xs (some b) last.0 front last.1 in
    let other = differ b bs ys (Distinct-right (x ∷ xs) ((b ∷ bs) ++ ys) d) in
    rw (detect_conflict, l, r, last.1, next, other) refl

module _ (heap : Heap) (get_item : BlockId → Option ℕ) (parent : Branch) (self : Item)
    (plain : self.parent_sub ≡ none) where
  first_conflict_lem :
      (fuel : ℕ) (xs zs : List ℕ)
      → Segment heap none parent.start (xs ++ zs) none
      → self.left ≡ last_of none xs
      → first_conflict heap get_item fuel parent self ≡ some (first_of zs none)
  unfolding first_conflict first_item
  first_conflict_lem fuel [] zs s l =
      rw (first_conflict, l, first_item, plain)
        (ap some (Segment-first heap none parent.start zs none s))
  first_conflict_lem fuel (x ∷ xs) zs s l =
      let last = last_is x xs in
      let front = (Segment-split heap none parent.start (x ∷ xs) zs none s).0 in
      rw (first_conflict, l, last.1)
        (ap some (Segment-last heap none parent.start x xs (first_of zs none) last.0 front last.1))

  -- The left neighbour that the item gets.
  resolve_conflict-place :
      (fuel : ℕ) (xs between ys : List ℕ)
      → Segment heap none parent.start (xs ++ (between ++ ys)) none
      → Distinct (xs ++ (between ++ ys))
      → self.left ≡ last_of none xs
      → self.right ≡ first_of ys none
      → length between < fuel
      → resolve_conflict heap get_item fuel parent self
        ≡ some (last_of (last_of none xs) (take (place heap get_item self between [] []) between))
  unfolding resolve_conflict
  resolve_conflict-place fuel xs between ys s d l r h =
      let part = (Segment-split heap none parent.start xs (between ++ ys) none s).1 in
      let outside = first_of-IsOutside between ys (Distinct-right xs (between ++ ys) d) in
      rw (resolve_conflict, first_conflict_lem fuel xs (between ++ ys) s l)
        (scan-place heap get_item self fuel (last_of none xs) (first_of (between ++ ys) none)
            self.left between ys [] [] part r (rw r outside) h
          ∙ ap (λ q. some (last_of q (take (place heap get_item self between [] []) between))) l)

  follower_lem :
      (fuel : ℕ) (zs rest : List ℕ)
      → Segment heap none parent.start (zs ++ rest) none
      → follower heap get_item fuel parent self (last_of none zs) ≡ some (first_of rest none)
  unfolding follower first_item
  follower_lem fuel [] rest s =
      rw (plain) (ap some (Segment-first heap none parent.start rest none s))
  follower_lem fuel (x ∷ zs) rest s =
      let last = last_is x zs in
      let front = (Segment-split heap none parent.start (x ∷ zs) rest none s).0 in
      rw last.1 (
        ap some (Segment-last heap none parent.start x zs (first_of rest none) last.0 front last.1))

  last_of-append :
      (prev : Option ℕ) (xs ys : List ℕ) → last_of (last_of prev xs) ys ≡ last_of prev (xs ++ ys)
  last_of-append prev [] ys = refl
  last_of-append prev (x ∷ xs) ys = last_of-append (some x) xs ys

  -- The left neighbour that the item gets, with or without a conflict.
  new_left-place :
      (fuel : ℕ) (xs between ys : List ℕ)
      → Segment heap none parent.start (xs ++ (between ++ ys)) none
      → Distinct (xs ++ (between ++ ys))
      → self.left ≡ last_of none xs
      → self.right ≡ first_of ys none
      → length between < fuel
      → new_left heap get_item fuel parent self
        ≡ some (last_of none (xs ++ take (place heap get_item self between [] []) between))
  unfolding new_left place
  new_left-place fuel xs [] ys s d l r h = elim (Bool-cases (detect_conflict heap self)) [
    | inl e ↦
        rw (new_left, e)
          (resolve_conflict-place fuel xs [] ys s d l r h
            ∙ ap some (last_of-append none xs (take (place heap get_item self [] [] []) [])))
    | inr e ↦ rw (new_left, e) (ap some (l ∙ ap (λ zs. last_of none zs) (sym (append-nil xs))))
  ]
  new_left-place fuel xs (b ∷ bs) ys s d l r h =
      let place_it = take (place heap get_item self (b ∷ bs) [] []) (b ∷ bs) in
      rw (new_left, detect_conflict-between heap self parent.start xs b bs ys s d l r)
        (resolve_conflict-place fuel xs (b ∷ bs) ys s d l r h
          ∙ ap some (last_of-append none xs place_it))

deletes_none :
    (heap : Heap) (parent : Branch) (p : ℕ) (left right : Option ℕ)
    → (link heap parent p none left right).deleted ≡ none
unfolding link
deletes_none heap parent p left none = refl
deletes_none heap parent p left (some r) = refl

-- An item without a key, with its neighbours at the ends of two parts of its parent's items, which
-- do not contain it, and more fuel than there are items between these parts, is integrated: the
-- items of the parent are the old ones with the new one among those between its neighbours, at the
-- place that the rules for conflicts give it, linked both ways; no item is deleted, no item
-- changes but in its links, and the items outside of the list do not change.
pub integrate_item-Items :
    (fuel : ℕ) (get_item : BlockId → Option ℕ) (heap : Heap) (parent : Branch) (p : ℕ)
    (xs between ys : List ℕ)
    → Items heap parent (xs ++ (between ++ ys))
    → is_among p (xs ++ (between ++ ys)) ≡ false
    → (heap p).parent_sub ≡ none
    → (heap p).left ≡ last_of none xs
    → (heap p).right ≡ first_of ys none
    → length between < fuel
    → let k = place heap get_item (heap p) between [] [] in
      (l : Linked) × (integrate_item fuel get_item heap parent p ≡ some l)
      × Items l.heap l.parent ((xs ++ take k between) ++ p ∷ (drop k between ++ ys))
      × (l.deleted ≡ none)
      × ((q : ℕ) → unlinked (l.heap q) ≡ unlinked (heap q))
      × ((q : ℕ) → is_among q (p ∷ (xs ++ (between ++ ys))) ≡ false → l.heap q ≡ heap q)
unfolding integrate_item
integrate_item-Items fuel get_item heap parent p xs between ys i out plain l r h =
    let k = place heap get_item (heap p) between [] [] in
    let zs = xs ++ take k between in
    let rest = drop k between ++ ys in
    let same : zs ++ rest ≡ xs ++ (between ++ ys) =
      append_assoc xs (take k between) rest
      ∙ ap (λ r. xs ++ r)
          (sym (append_assoc (take k between) (drop k between) ys)
            ∙ ap (λ r. r ++ ys) (take-append-drop k between)) in
    let left =
      new_left-place heap get_item parent (heap p) plain fuel xs between ys i.0 i.1 l r h in
    let right = follower_lem heap get_item parent (heap p) plain fuel zs rest (rw same i.0) in
    (
      link heap parent p none (last_of none zs) (first_of rest none),
      rw (integrate_item, left, right, plain) refl,
      link-Items heap parent p zs rest (rw same i) (rw same out),
      deletes_none heap parent p (last_of none zs) (first_of rest none),
      λ q. link-unlinked heap parent p none (last_of none zs) (first_of rest none) q,
      λ q out. link-other heap parent p zs rest q (rw same out),
    )
