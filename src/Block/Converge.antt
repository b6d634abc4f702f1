-- ===== src/Block/Converge.antt =====
-- yrs/src/block.rs: items that were inserted at the same place at the same time.
use y_crdt.Block.Link.{is_among-append, either, Items, unlinked}
use y_crdt.Common.{
  ℕ, suc, ◌<◌, ◌≡◌, ◌≢◌, refl, sym, ◌∙◌, ap, true, false, Option, none, some, List, [], ◌∷◌, ◌++◌,
  append_assoc, ltb, ◌==◌, if◌then◌else◌, is_among, length, take, drop, arith, Bool-cases, inl, inr,
}
use y_crdt.Block.{
  BlockId, Item, Heap, Branch, Linked, same_id, verdict, stop, advance, integrate_item,
}
use y_crdt.Block.Segment.{last_of, first_of}
use y_crdt.Block.Resolve.{place}
use y_crdt.Block.Integrate.{integrate_item-Items}

-- The item was inserted between the same two items.
abbrev pub IsRival : Item → Item → Type 0
IsRival self item =
    (same_id self.origin item.origin ≡ true) × (same_id self.right_origin item.right_origin ≡ true)

abbrev pub AllRivals : Heap → Item → List ℕ → Type 0
AllRivals heap self [] = Unit
AllRivals heap self (x ∷ xs) = IsRival self (heap x) × AllRivals heap self xs

-- The list with an item put before the first item of a client that is not smaller.
abbrev pub insert_by_client : (ℕ → ℕ) → ℕ → List ℕ → List ℕ
insert_by_client client p [] = p ∷ []
insert_by_client client p (x ∷ xs) =
    let rest = insert_by_client client p xs in
    if ltb (client x) (client p) then x ∷ rest else p ∷ x ∷ xs

insert_by_client-swap :
    (client : ℕ → ℕ) (p q : ℕ) (xs : List ℕ)
    → client p ≢ client q
    → insert_by_client client q (insert_by_client client p xs)
      ≡ insert_by_client client p (insert_by_client client q xs)
insert_by_client-swap client p q [] h = ground arith
insert_by_client-swap client p q (x ∷ xs) h = ground (arith, insert_by_client-swap client p q xs h)

-- Among rivals only the clients count.
place-rivals :
    (heap : Heap) (get_item : BlockId → Option ℕ) (p : ℕ) (client : ℕ → ℕ)
    (xs conflicting before : List ℕ)
    → ((x : ℕ) → client x ≡ (heap x).id.client)
    → AllRivals heap (heap p) xs
    → let k = place heap get_item (heap p) xs conflicting before in
      take k xs ++ p ∷ drop k xs ≡ insert_by_client client p xs
unfolding place verdict
place-rivals heap get_item p client [] conflicting before h r = refl
place-rivals heap get_item p client (x ∷ xs) conflicting before h r =
    let ih = place-rivals heap get_item p client xs [] (x ∷ before) h r.1 in
    let at_x = verdict heap get_item (heap p) x (x ∷ conflicting) (x ∷ before) in
    elim (Bool-cases (ltb (heap x).id.client (heap p).id.client)) [
      | inl e ↦
          let v : at_x ≡ advance = rw (verdict, r.0.0, e) refl in
          rw (place, v, h x, h p, e) (ap (λ zs. x ∷ zs) ih)
      | inr e ↦
          let v : at_x ≡ stop = rw (verdict, r.0.0, e, r.0.1) refl in
          rw (place, v, h x, h p, e) refl
    ]

-- An item without a key, between whose neighbours there are only rivals, comes before the first of
-- them whose client is not smaller.
pub integrate_item-rivals :
    (fuel : ℕ) (get_item : BlockId → Option ℕ) (heap : Heap) (parent : Branch) (p : ℕ)
    (client : ℕ → ℕ) (xs between ys : List ℕ)
    → Items heap parent (xs ++ (between ++ ys))
    → is_among p (xs ++ (between ++ ys)) ≡ false
    → (heap p).parent_sub ≡ none
    → (heap p).left ≡ last_of none xs
    → (heap p).right ≡ first_of ys none
    → length between < fuel
    → ((x : ℕ) → client x ≡ (heap x).id.client)
    → AllRivals heap (heap p) between
    → (l : Linked) × (integrate_item fuel get_item heap parent p ≡ some l)
      × Items l.heap l.parent (xs ++ (insert_by_client client p between ++ ys))
      × ((q : ℕ) → unlinked (l.heap q) ≡ unlinked (heap q))
      × ((q : ℕ) → is_among q (p ∷ (xs ++ (between ++ ys))) ≡ false → l.heap q ≡ heap q)
integrate_item-rivals fuel get_item heap parent p client xs between ys i out plain l r h ids
      rivals =
    let done = integrate_item-Items fuel get_item heap parent p xs between ys i out plain l r h in
    let k = place heap get_item (heap p) between [] [] in
    let same : (xs ++ take k between) ++ p ∷ (drop k between ++ ys)
        ≡ xs ++ (insert_by_client client p between ++ ys) =
      append_assoc xs (take k between) (p ∷ (drop k between ++ ys))
      ∙ ap (λ zs. xs ++ zs)
          (sym (append_assoc (take k between) (p ∷ drop k between) ys)
            ∙ ap (λ zs. zs ++ ys) (place-rivals heap get_item p client between [] [] ids rivals)) in
    (done.0, done.1, rw same at (done.2), done.4, done.5)

AllRivals-insert :
    (heap : Heap) (self : Item) (client : ℕ → ℕ) (p : ℕ) (xs : List ℕ)
    → IsRival self (heap p)
    → AllRivals heap self xs
    → AllRivals heap self (insert_by_client client p xs)
AllRivals-insert heap self client p [] one all = (one, tt)
AllRivals-insert heap self client p (x ∷ xs) one all =
    elim (Bool-cases (ltb (client x) (client p))) [
      | inl e ↦ rw e (all.0, AllRivals-insert heap self client p xs one all.1)
      | inr e ↦ rw e (one, all)
    ]

AllRivals-unlinked :
    (heap heap' : Heap) (self : Item) (xs : List ℕ)
    → ((q : ℕ) → unlinked (heap' q) ≡ unlinked (heap q))
    → AllRivals heap self xs
    → AllRivals heap' self xs
AllRivals-unlinked heap heap' self [] same all = tt
AllRivals-unlinked heap heap' self (x ∷ xs) same all =
    let origin : (heap' x).origin ≡ (heap x).origin = ap (λ i. i.origin) (same x) in
    let right : (heap' x).right_origin ≡ (heap x).right_origin =
      ap (λ i. i.right_origin) (same x) in
    ((rw origin all.0.0, rw right all.0.1), AllRivals-unlinked heap heap' self xs same all.1)

is_among-insert :
    (client : ℕ → ℕ) (p q : ℕ) (xs : List ℕ)
    → is_among q (insert_by_client client p xs) ≡ is_among q (p ∷ xs)
is_among-insert client p q [] = refl
is_among-insert client p q (x ∷ xs) = ground (arith, is_among-insert client p q xs)

length-insert :
    (client : ℕ → ℕ) (p : ℕ) (xs : List ℕ) → length (insert_by_client client p xs) ≡ suc (length xs)
length-insert client p [] = refl
length-insert client p (x ∷ xs) = ground (arith, length-insert client p xs)

still_out :
    (client : ℕ → ℕ) (p q : ℕ) (xs between ys : List ℕ)
    → is_among q (p ∷ (xs ++ (between ++ ys))) ≡ false
    → is_among q (xs ++ (insert_by_client client p between ++ ys)) ≡ false
still_out client p q xs between ys out =
    let parts = either (p == q) (is_among q (xs ++ (between ++ ys))) out in
    let split =
      either (is_among q xs) (is_among q (between ++ ys))
        (sym (is_among-append q xs (between ++ ys)) ∙ parts.1) in
    let rest =
      either (is_among q between) (is_among q ys) (sym (is_among-append q between ys) ∙ split.1) in
    rw
      (
        is_among-append q xs (insert_by_client client p between ++ ys),
        is_among-append q (insert_by_client client p between) ys,
        is_among-insert client p q between,
        split.0,
        parts.0,
        rest.0,
        rest.1,
      )
      refl

-- Integrating the first item and then the second succeeds and leaves these items.
abbrev pub Leaves : ℕ → (BlockId → Option ℕ) → Heap → Branch → ℕ → ℕ → List ℕ → Type 0
Leaves fuel get_item heap parent p q items =
    (l : Linked) × (m : Linked) × (integrate_item fuel get_item heap parent p ≡ some l)
    × (integrate_item fuel get_item l.heap l.parent q ≡ some m)
    × Items m.heap m.parent items

-- Two items in one order.
both :
    (fuel : ℕ) (get_item : BlockId → Option ℕ) (heap : Heap) (parent : Branch) (p q : ℕ)
    (client : ℕ → ℕ) (xs between ys : List ℕ)
    → Items heap parent (xs ++ (between ++ ys))
    → is_among p (xs ++ (between ++ ys)) ≡ false
    → is_among q (p ∷ (xs ++ (between ++ ys))) ≡ false
    → (heap p).parent_sub ≡ none
    → (heap p).left ≡ last_of none xs
    → (heap p).right ≡ first_of ys none
    → (heap q).parent_sub ≡ none
    → (heap q).left ≡ last_of none xs
    → (heap q).right ≡ first_of ys none
    → suc (length between) < fuel
    → ((x : ℕ) → client x ≡ (heap x).id.client)
    → AllRivals heap (heap p) between
    → AllRivals heap (heap q) (p ∷ between)
    → Leaves fuel get_item heap parent p q
        (xs ++ (insert_by_client client q (insert_by_client client p between) ++ ys))
both fuel get_item heap parent p q client xs between ys i out out' sp lp rp sq lq rq h ids rp' rq' =
    let one =
      integrate_item-rivals fuel get_item heap parent p client xs between ys i out sp lp rp
        (omega arith) ids rp' in
    let l = one.0 in
    let same : l.heap q ≡ heap q = one.4 q out' in
    let all : AllRivals l.heap (l.heap q) (insert_by_client client p between) = rw same (
      AllRivals-unlinked heap l.heap (heap q) (insert_by_client client p between) one.3
        (AllRivals-insert heap (heap q) client p between rq'.0 rq'.1)) in
    let two =
      integrate_item-rivals fuel get_item l.heap l.parent q client xs
        (insert_by_client client p between) ys one.2 (still_out client p q xs between ys out')
        (rw same sq) (rw same lq) (rw same rq) (omega (arith, length-insert client p between))
        (λ x. ids x ∙ ap (λ i. i.id.client) (sym (one.3 x))) all in
    (l, two.0, one.1, two.1, two.2)

-- Two items without keys and of different clients, inserted between the same two items as each
-- other and as all items between these, lead to the same list of items in whichever order they are
-- integrated, and fuel above the number of items between by two is enough for both.
pub integrate_item-swap :
    (fuel : ℕ) (get_item : BlockId → Option ℕ) (heap : Heap) (parent : Branch) (p q : ℕ)
    (xs between ys : List ℕ)
    → Items heap parent (xs ++ (between ++ ys))
    → is_among p (q ∷ (xs ++ (between ++ ys))) ≡ false
    → is_among q (p ∷ (xs ++ (between ++ ys))) ≡ false
    → (heap p).parent_sub ≡ none
    → (heap p).left ≡ last_of none xs
    → (heap p).right ≡ first_of ys none
    → (heap q).parent_sub ≡ none
    → (heap q).left ≡ last_of none xs
    → (heap q).right ≡ first_of ys none
    → suc (length between) < fuel
    → AllRivals heap (heap p) (q ∷ between)
    → AllRivals heap (heap q) (p ∷ between)
    → (heap p).id.client ≢ (heap q).id.client
    → (items : List ℕ) × Leaves fuel get_item heap parent p q items
      × Leaves fuel get_item heap parent q p items
integrate_item-swap fuel get_item heap parent p q xs between ys i outp outq sp lp rp sq lq rq h rivp
      rivq differ =
    let client = λ (x : ℕ). (heap x).id.client in
    let p_out = (either (q == p) (is_among p (xs ++ (between ++ ys))) outp).1 in
    let q_out = (either (p == q) (is_among q (xs ++ (between ++ ys))) outq).1 in
    let swapped = insert_by_client-swap client p q between differ in
    (
      xs ++ (insert_by_client client q (insert_by_client client p between) ++ ys),
      both fuel get_item heap parent p q client xs between ys i p_out outq sp lp rp sq lq rq h
          (λ x. refl) rivp.1 rivq,
      rw swapped (
          both fuel get_item heap parent q p client xs between ys i q_out outp sq lq rq sp lp rp h
            (λ x. refl) rivq.1 rivp),
    )
