-- ===== src/Update/Lossless.antt =====
-- yrs/src/update.rs: the loop of `Update::integrate` loses no block.
use y_crdt.Common.{
  ℕ, ◌+◌, ◌*◌, ◌≤◌, ◌≡◌, ◌⊎◌, refl, sym, ap, ◌∙◌, Bool, true, false, ◌||◌, Option, none, some, List,
  [], ◌∷◌, ◌==◌, arith, ==_iff, Bool-cases, inl, inr, is_among,
}
use mathlib.Core.Path.{subst}
use y_crdt.StateVector.{set_min}
use y_crdt.BTree.{get}
use y_crdt.HashMap.{put, IsUnique, get-put, put-IsUnique}
use y_crdt.Update.Counts.{count, count_all, count_all-put, Found-cases, List-cases}
use y_crdt.Update.Steps.{head_count, next-waiting, next-unapplicable}
use y_crdt.Update.Sound.{IsSound, IsPicked, AllOf, restack, next-IsPicked, other_key, drop-IsSound}
use y_crdt.Update.Drain.{not_past, drain_stack-IsSound, get-put_other}
use y_crdt.Update.Fuel.{any, Ends, integrate_blocks-invariant}
use y_crdt.Update.{
  UpdateBlock, BlockMap, BlockPicker, next, drain_stack, has_client, abandon, switch, new_picker,
  pending, PendingUpdate, Target, Progress, Outcome, out_of_fuel, failed, finished,
  integrate_blocks, sorted_clients, insert_client,
}

module _ (P : UpdateBlock → Bool) where
  -- The blocks that the picker holds or has given up, and the one that it has just given out.
  abbrev held_count : Option UpdateBlock → BlockPicker → ℕ
  held_count head p = not_past P p + count P p.stack + head_count P head

  abbrev IsKept : ℕ → Option UpdateBlock × BlockPicker → Type 0
  IsKept n (head, p) = IsPicked head p p.stack × (held_count head p ≡ n)

  next-IsKept :
      (p : BlockPicker) → IsSound p p.stack → IsKept (not_past P p + count P p.stack) (next p)
  next-IsKept p s =
      let counts = next-waiting P p in
      let given_up = ap (λ m. count_all P m) (next-unapplicable p) in
      (next-IsPicked p s, omega (arith, counts, given_up))

  abandon-IsKept :
      (p : BlockPicker) (c clock : ℕ)
      → IsSound p p.stack
      → IsKept (not_past P p + count P p.stack) (abandon p c clock)
  unfolding abandon
  abandon-IsKept p c clock s =
      let m = set_min p.missing c clock in
      let drained =
        drain_stack-IsSound P p.stack [] (record p { missing = m })
          (restack p p.stack p.stack m s) in
      let q = drain_stack p.stack (record p { missing = m }) in
      let kept = next-IsKept (record q { stack = [] }) (restack q [] [] q.missing drained.0) in
      (kept.0, omega (arith, kept.1, drained.1))

  -- A block of the missing client goes on top of the stack.
  dive-IsSound :
      (p : BlockPicker) (c : ℕ) (b : UpdateBlock) (rest held : List UpdateBlock)
      → IsSound p held
      → get c p.store ≡ some (b ∷ rest)
      → has_client c held ≡ false
      → IsSound (record p { store = put c rest p.store }) (b ∷ held)
  dive-IsSound p c b rest held s e h =
      let all = s.keyed c (b ∷ rest) e in
      let still : (k : ℕ) → get k p.store ≡ none → get k (put c rest p.store) ≡ none =
        λ k n. get-put_other p.store c k rest (other_key p.store c k e n) n in
      record {
        unique = put-IsUnique p.store c rest s.unique;
        known = λ k. elim (s.known k) [ inl n ↦ inl (still k n) | inr q ↦ inr q ];
        keyed = λ k xs f. elim (Bool-cases (c == k)) [
          | inl q ↦
              let same = (==_iff c k).0 q in
              let new : some rest ≡ some xs = sym (get-put p.store c k rest ∙ rw q refl) ∙ f in
              let blocks : rest ≡ xs = cc in
              subst (λ j. AllOf j xs) same (subst (λ ys. AllOf c ys) blocks all.1)
          | inr q ↦ s.keyed k xs (sym (get-put p.store c k rest ∙ rw q refl) ∙ f)
        ];
        latest_keyed = s.latest_keyed;
        latest_taken = λ d xs l. still d (s.latest_taken d xs l);
        apart = λ k. elim (s.apart k) [
          | inl n ↦ inl n
          | inr (n, l, g) ↦
              let other = other_key p.store c k e n in inr (still k n, l, rw (all.0, other) g)
        ];
        distinct = (rw all.0 h, s.distinct);
      }

  switch-IsKept :
      (p : BlockPicker) (b : UpdateBlock) (c : ℕ) (f : ℕ → ℕ)
      → IsSound p (b ∷ p.stack)
      → IsKept (held_count (some b) p) (switch p b c f)
  unfolding switch
  switch-IsKept p b c f s =
      let q : BlockPicker = record p { stack = b ∷ p.stack } in
      let part = abandon-IsKept q c (f c) (restack p (b ∷ p.stack) (b ∷ p.stack) p.missing s) in
      let given_up : IsKept (held_count (some b) p) (abandon q c (f c)) =
        (part.0, omega (arith, part.1)) in
      elim (Found-cases (get c p.store)) [
        | inl e ↦ rw (switch, e) given_up
        | inr (inl e) ↦ rw (switch, e) given_up
        | inr (inr (d, rest, e)) ↦ elim (Bool-cases (has_client c (b ∷ p.stack))) [
          | inl h ↦ rw (switch, e, h) given_up
          | inr h ↦
              let less : count_all P (put c rest p.store) + count P (d ∷ rest)
                  ≡ count_all P p.store + count P rest =
                rw e at (count_all-put P c rest p.store) in
              let dived = dive-IsSound p c d rest (b ∷ p.stack) s e h in
              rw (switch, e, h)
                (
                  (
                    restack (record p { store = put c rest p.store }) (b ∷ p.stack)
                        (d ∷ b ∷ p.stack) p.missing dived,
                    refl,
                    tt,
                  ),
                  omega (arith, less),
                )
        ]
      ]

  -- What every step of the loop keeps.
  abbrev IsAccounted : ℕ → BlockPicker → List UpdateBlock → Option UpdateBlock → Type 0
  IsAccounted n p past head = IsPicked head p p.stack × (held_count head p + count P past ≡ n)

  IsAccounted-next :
      (n : ℕ) (p : BlockPicker) (past : List UpdateBlock) (b : UpdateBlock)
      → IsAccounted n p past (some b)
      → IsAccounted n (next p).1 (b ∷ past) (next p).0
  IsAccounted-next n p past b i =
      let kept = next-IsKept p (drop-IsSound p b p.stack i.0.0) in
      (kept.0, omega (arith, kept.1, i.1))

  IsAccounted-switch :
      (n : ℕ) (p : BlockPicker) (past : List UpdateBlock) (b : UpdateBlock) (c : ℕ) (f : ℕ → ℕ)
      → IsAccounted n p past (some b)
      → IsAccounted n (switch p b c f).1 past (switch p b c f).0
  IsAccounted-switch n p past b c f i =
      let kept = switch-IsKept p b c f i.0.0 in (kept.0, omega (arith, kept.1, i.1))

is_among-insert_client :
    (k c : ℕ) (ds : List ℕ) → is_among k (insert_client c ds) ≡ ((c == k) || is_among k ds)
is_among-insert_client k c [] = refl
is_among-insert_client k c (d ∷ ds) = ground (arith, is_among-insert_client k c ds)

sorted_clients-get :
    (k : ℕ) (m : BlockMap) → (get k m ≡ none) ⊎ (is_among k (sorted_clients m) ≡ true)
unfolding get
sorted_clients-get k [] = inl refl
sorted_clients-get k ((c, bs) ∷ m) = elim (Bool-cases (c == k)) [
  | inl e ↦ inr (is_among-insert_client k c (sorted_clients m) ∙ rw e refl)
  | inr e ↦ elim (sorted_clients-get k m) [
    | inl n ↦ inl (rw e n)
    | inr h ↦ inr (is_among-insert_client k c (sorted_clients m) ∙ rw (e, h) refl)
  ]
]

-- The blocks of each entry have the client of its key.
abbrev pub IsKeyed : BlockMap → Type 0
IsKeyed [] = Unit
IsKeyed ((c, bs) ∷ m) = AllOf c bs × IsKeyed m

IsKeyed-get :
    (m : BlockMap) (k : ℕ) (bs : List UpdateBlock) → IsKeyed m → get k m ≡ some bs → AllOf k bs
unfolding get
IsKeyed-get [] k bs a e = absurd (cc)
IsKeyed-get ((c, xs) ∷ m) k bs a e = elim (Bool-cases (c == k)) [
  | inl q ↦
      let same = (==_iff c k).0 q in
      let blocks : xs ≡ bs = ground arith in
      subst (λ j. AllOf j bs) same (subst (λ ys. AllOf c ys) blocks a.0)
  | inr q ↦ IsKeyed-get m k bs a.1 (rw q at e)
]

new_picker-IsSound :
    (blocks : BlockMap) → IsUnique blocks → IsKeyed blocks → IsSound (new_picker blocks) []
unfolding get
new_picker-IsSound blocks u a = record {
  unique = u;
  known = λ k. sorted_clients-get k blocks;
  keyed = λ k bs e. IsKeyed-get blocks k bs a e;
  latest_keyed = λ c bs l. absurd (cc);
  latest_taken = λ c bs l. absurd (cc);
  apart = λ k. inl refl;
  distinct = tt;
}

no_entry : (P : UpdateBlock → Bool) (m : BlockMap) → ((k : ℕ) → get k m ≡ none) → count_all P m ≡ 0
unfolding get
no_entry P [] h = refl
no_entry P ((c, bs) ∷ m) h = absurd (ground (arith, h c))

settled :
    (P : UpdateBlock → Bool) (n : ℕ) (p : BlockPicker) (past : List UpdateBlock)
    → IsAccounted P n p past none
    → count P past + count_all P p.unapplicable ≡ n
settled P n p past i =
    let (clients, stack, latest) = i.0.2 in
    let store = no_entry P p.store (λ k. elim (i.0.0.known k) [
      | inl e ↦ e
      | inr h ↦ absurd (let bad : is_among k [] ≡ true = rw clients at h in cc)
    ]) in
    let held : count P p.stack ≡ 0 = rw stack refl in omega (arith, i.1, store, latest P, held)

Ends-map :
    {S : Type 0} {Q R : Progress S → Type 0}
    → ((g : Progress S) → Q g → R g)
    → (o : Outcome S) → Ends Q o
    → Ends R o
Ends-map f out_of_fuel e = e
Ends-map f failed e = e
Ends-map f (finished g) e = f g e

-- The blocks of the update that `integrate` hands back.
abbrev pub pending_blocks : Option PendingUpdate → BlockMap
pending_blocks none = []
pending_blocks (some u) = u.blocks

pending_blocks-pending : (p : BlockPicker) → pending_blocks (pending p) ≡ p.unapplicable
unfolding pending
pending_blocks-pending p = elim (List-cases p.unapplicable) [
  | inl e ↦ rw (pending, e) refl
  | inr (entry, m, e) ↦ rw (pending, e) refl
]

-- For an update that lists every client once, each with blocks of its own, and fuel for two rounds
-- for each of its blocks, the loop of integrate has an outcome, and if it finishes, then for every
-- test on blocks, the blocks that pass the test are as many in the update as among those that were
-- integrated or skipped and those that are handed back as pending: no block is lost and none is
-- doubled.
pub integrate_blocks-lossless :
    {S : Type 0} (t : Target S) (P : UpdateBlock → Bool) (fuel : ℕ) (s : S) (blocks : BlockMap)
    → IsUnique blocks
    → IsKeyed blocks
    → 2 * count_all any blocks ≤ fuel
    → Ends
        (λ g. count P g.past + count_all P (pending_blocks (pending g.picker)) ≡ count_all P blocks)
        (integrate_blocks t fuel s blocks)
integrate_blocks-lossless t P fuel s blocks u a h =
    let n = count_all P blocks in
    let start = next-IsKept P (new_picker blocks) (new_picker-IsSound blocks u a) in
    Ends-map
      (λ g i.
        let same = ap (λ m. count_all P m) (pending_blocks-pending g.picker) in
        omega (arith, same, settled P n g.picker g.past i))
      (integrate_blocks t fuel s blocks)
      (integrate_blocks-invariant t (IsAccounted P n) (IsAccounted-next P n)
        (IsAccounted-switch P n) fuel s blocks h (start.0, omega (arith, start.1)))
