-- ===== src/Update/Sound.antt =====
-- yrs/src/update.rs: which blocks a `BlockPicker` holds, and that its steps lose none.
use y_crdt.Common.{
  ℕ, ◌≡◌, ◌⊎◌, refl, sym, ap, ◌∙◌, Bool, true, false, Option, none, some, List, [], ◌∷◌, ◌==◌,
  if◌then◌else◌, arith, ==_iff, Bool-cases, inl, inr, is_among,
}
use mathlib.Core.Path.{subst}
use y_crdt.StateVector.{StateVector}
use y_crdt.BTree.{get, remove}
use y_crdt.HashMap.{IsUnique, get-remove, remove-IsUnique}
use y_crdt.Update.Steps.{Next-cases}
use y_crdt.Update.Counts.{count_latest, Found-cases}
use y_crdt.Update.{UpdateBlock, BlockPicker, next_client, next, latest_blocks, has_client}

-- All blocks of a list have the client.
abbrev pub AllOf : ℕ → List UpdateBlock → Type 0
AllOf c [] = Unit
AllOf c (b ∷ bs) = (b.client ≡ c) × AllOf c bs

abbrev pub IsDistinct : List UpdateBlock → Type 0
IsDistinct [] = Unit
IsDistinct (b ∷ bs) = (has_client b.client bs ≡ false) × IsDistinct bs

-- What `switch` and `next` rely on, for a picker and the blocks that are on the stack or its head:
-- a client's blocks are in one place, and given up only when no other place has blocks of the client.
pub record IsSound (p : BlockPicker) (held : List UpdateBlock) : Type 0 where
  pub unique : IsUnique p.store
  pub known : (k : ℕ) → (get k p.store ≡ none) ⊎ (is_among k p.clients ≡ true)
  pub keyed : (k : ℕ) (bs : List UpdateBlock) → get k p.store ≡ some bs → AllOf k bs
  pub latest_keyed : (c : ℕ) (bs : List UpdateBlock) → p.latest ≡ some (c, bs) → AllOf c bs
  pub latest_taken :
      (c : ℕ) (bs : List UpdateBlock) → p.latest ≡ some (c, bs) → get c p.store ≡ none
  pub apart :
      (k : ℕ)
      → (get k p.unapplicable ≡ none)
        ⊎ ((get k p.store ≡ none) × (latest_blocks k p.latest ≡ []) × (has_client k held ≡ false))
  pub distinct : IsDistinct held

pub drop-IsSound :
    (p : BlockPicker) (b : UpdateBlock) (held : List UpdateBlock)
    → IsSound p (b ∷ held)
    → IsSound p held
drop-IsSound p b held s = record {
  unique = s.unique;
  known = s.known;
  keyed = s.keyed;
  latest_keyed = s.latest_keyed;
  latest_taken = s.latest_taken;
  apart = λ k. elim (s.apart k) [ inl e ↦ inl e | inr (e, l, h) ↦ inr (e, l, ground arith) ];
  distinct = s.distinct.1;
}

abbrev pub with_head : Option UpdateBlock → List UpdateBlock → List UpdateBlock
with_head none held = held
with_head (some b) held = b ∷ held

-- Without a next block, the picker has no client left to go on with.
abbrev pub IsLast : Option UpdateBlock → BlockPicker → Type 0
IsLast none p =
    (p.clients ≡ []) × (p.stack ≡ []) × ((P : UpdateBlock → Bool) → count_latest P p.latest ≡ 0)
IsLast (some b) p = Unit

abbrev pub IsPicked : Option UpdateBlock → BlockPicker → List UpdateBlock → Type 0
IsPicked head p stack = IsSound p (with_head head stack) × (p.stack ≡ stack) × IsLast head p

-- Two keys differ when a map has only one of them.
pub other_key :
    {V : Type 0} (m : List (ℕ × V)) (j k : ℕ) {v : V}
    → get j m ≡ some v
    → get k m ≡ none
    → (j == k) ≡ false
other_key m j k e n = elim (Bool-cases (j == k)) [
  | inl q ↦ let same = (==_iff j k).0 q in absurd (cc)
  | inr q ↦ q
]

pub get-remove-some :
    {V : Type 0} (m : List (ℕ × V)) (c k : ℕ) (v : V)
    → IsUnique m
    → get k (remove c m) ≡ some v
    → get k m ≡ some v
get-remove-some m c k v u e = elim (Bool-cases (c == k)) [
  | inl q ↦ absurd (
      let gone = get-remove m c k u in
      let none : get k (remove c m) ≡ none = gone ∙ rw q refl in cc)
  | inr q ↦ let same : get k (remove c m) ≡ get k m = get-remove m c k u ∙ rw q refl in sym same ∙ e
]

pub has_client-AllOf :
    (c k : ℕ) (bs : List UpdateBlock) → (c == k) ≡ false → AllOf c bs → has_client k bs ≡ false
has_client-AllOf c k [] q a = refl
has_client-AllOf c k (b ∷ bs) q a = rw (a.0, q) (has_client-AllOf c k bs q a.1)

skip_client :
    (c : ℕ) (cs : List ℕ) (p : BlockPicker)
    → IsSound (record p { clients = c ∷ cs }) []
    → get c p.store ≡ none
    → IsSound (record p { clients = cs; latest = none }) []
skip_client c cs p s e = record {
  unique = s.unique;
  known = λ k. elim (s.known k) [ inl n ↦ inl n | inr h ↦ ground arith ];
  keyed = s.keyed;
  latest_keyed = λ d bs l. absurd (cc);
  latest_taken = λ d bs l. absurd (cc);
  apart = λ k. elim (s.apart k) [ inl n ↦ inl n | inr (n, l, h) ↦ inr (n, refl, refl) ];
  distinct = tt;
}

-- The blocks of the next client move to the latest ones, but for those that are held.
take_client :
    (c : ℕ) (cs : List ℕ) (bs rest held : List UpdateBlock) (p : BlockPicker)
    → IsSound (record p { clients = c ∷ cs }) []
    → get c p.store ≡ some bs
    → AllOf c rest
    → AllOf c held
    → IsDistinct held
    → IsSound (record p { clients = cs; latest = some (c, rest); store = remove c p.store }) held
take_client c cs bs rest held p s e a b d =
    let gone : (k : ℕ) → get k (remove c p.store) ≡ (if c == k then none else get k p.store) =
      λ k. get-remove p.store c k s.unique in
    record {
      unique = remove-IsUnique p.store c s.unique;
      known = λ k. elim (Bool-cases (c == k)) [
        | inl q ↦ inl (rw (gone k, q) refl)
        | inr q ↦ elim (s.known k) [ inl n ↦ inl (rw (gone k, q) n) | inr h ↦ inr (rw q at h) ]
      ];
      keyed = λ k xs f. s.keyed k xs (get-remove-some p.store c k xs s.unique f);
      latest_keyed = λ d xs l.
          let client : c ≡ d = cc in
          let blocks : rest ≡ xs = cc in
          subst (λ ys. AllOf d ys) blocks (subst (λ k. AllOf k rest) client a);
      latest_taken = λ d xs l.
          let client : c ≡ d = cc in let same = (==_iff c d).1 client in rw (gone d, same) refl;
      apart = λ k. elim (s.apart k) [
        | inl n ↦ inl n
        | inr (n, l, h) ↦
            let other : (c == k) ≡ false = other_key p.store c k e n in
            inr (rw (gone k, other) n, rw other refl, has_client-AllOf c k held other b)
      ];
      distinct = d;
    }

next_client-IsPicked :
    (cs : List ℕ) (p : BlockPicker)
    → IsSound (record p { clients = cs }) []
    → ((c : ℕ) → latest_blocks c p.latest ≡ [])
    → ((P : UpdateBlock → Bool) → count_latest P p.latest ≡ 0)
    → p.stack ≡ []
    → IsPicked (next_client cs p).0 (next_client cs p).1 []
unfolding next_client
next_client-IsPicked [] p s l z e = (s, e, (refl, e, z))
next_client-IsPicked (c ∷ cs) p s l z e = elim (Found-cases (get c p.store)) [
  | inl f ↦
      rw (next_client, f)
        (next_client-IsPicked cs (record p { latest = none }) (skip_client c cs p s f) (λ d. refl)
          (λ P. refl) e)
  | inr (inl f) ↦
      rw (next_client, f)
        (next_client-IsPicked cs (record p { latest = some (c, []); store = remove c p.store })
          (take_client c cs [] [] [] p s f tt tt tt) (λ d. ground arith) (λ P. refl) e)
  | inr (inr (b, rest, f)) ↦
      let all = s.keyed c (b ∷ rest) f in
      rw (next_client, f)
        (take_client c cs (b ∷ rest) rest (b ∷ []) p s f all.1 (all.0, tt) (refl, tt), e, tt)
]

latest_client :
    (p : BlockPicker) (c : ℕ) (b : UpdateBlock) (rest : List UpdateBlock)
    → IsSound p []
    → p.latest ≡ some (c, b ∷ rest)
    → IsSound (record p { latest = some (c, rest) }) (b ∷ [])
latest_client p c b rest s e =
    let all = s.latest_keyed c (b ∷ rest) e in
    record {
      unique = s.unique;
      known = s.known;
      keyed = s.keyed;
      latest_keyed = λ d xs l.
          let client : c ≡ d = cc in
          let blocks : rest ≡ xs = cc in
          subst (λ ys. AllOf d ys) blocks (subst (λ k. AllOf k rest) client all.1);
      latest_taken =
          λ d xs l. let client : c ≡ d = cc in rw⁻¹ client (s.latest_taken c (b ∷ rest) e);
      apart = λ k. elim (s.apart k) [
        | inl n ↦ inl n
        | inr (n, l, h) ↦
            let other : (c == k) ≡ false =
              other_latest c k b rest (sym (ap (λ o. latest_blocks k o) e) ∙ l) in
            inr (n, rw other refl, has_client-AllOf c k (b ∷ []) other (all.0, tt))
      ];
      distinct = (refl, tt);
    }
  where
    other_latest :
        (c k : ℕ) (b : UpdateBlock) (rest : List UpdateBlock)
        → latest_blocks k (some (c, b ∷ rest)) ≡ []
        → (c == k) ≡ false
    other_latest c k b rest l = elim (Bool-cases (c == k)) [
      | inl q ↦ let bad : b ∷ rest ≡ [] = rw q at l in absurd (cc)
      | inr q ↦ q
    ]

-- The stack of the picker and the missing clocks do not matter.
pub restack :
    (p : BlockPicker) (stack held : List UpdateBlock) (m : StateVector)
    → IsSound p held
    → IsSound (record p { stack = stack; missing = m }) held
restack p stack held m s = record {
  unique = s.unique;
  known = s.known;
  keyed = s.keyed;
  latest_keyed = s.latest_keyed;
  latest_taken = s.latest_taken;
  apart = s.apart;
  distinct = s.distinct;
}

pub next-IsPicked :
    (p : BlockPicker) → IsSound p p.stack → IsPicked (next p).0 (next p).1 (next p).1.stack
next-IsPicked p s = elim (Next-cases p) [
  | inl (b, rest, e, n) ↦
      rw (n) (restack p rest (b ∷ rest) p.missing (subst (λ held. IsSound p held) e s), refl, tt)
  | inr (inl (c, b, rest, e, l, n)) ↦ rw (n) (
    subst (λ st. IsSound (record p { latest = some (c, rest) }) (b ∷ st)) (sym e)
        (latest_client p c b rest (subst (λ held. IsSound p held) e s) l),
    refl,
    tt,
  )
  | inr (inr (e, z, y, n)) ↦
      let part = next_client-IsPicked p.clients p (subst (λ held. IsSound p held) e s) z y e in
      let picked =
        subst (λ st. IsPicked (next_client p.clients p).0 (next_client p.clients p).1 st)
          (sym part.1) part in
      subst (λ x. IsPicked x.0 x.1 x.1.stack) (sym n) picked
]
