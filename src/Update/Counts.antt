-- ===== src/Update/Counts.antt =====
-- yrs/src/update.rs: how many blocks that pass a test a list and a map of blocks hold.
use y_crdt.Common.{
  some, ◌∷◌, List, Option, Bool, ℕ, ◌+◌, ◌≡◌, ◌⊎◌, refl, none, [], ◌==◌, if◌then◌else◌, arith,
  Bool-cases, inl, inr,
}
use y_crdt.BTree.{get, remove}
use y_crdt.HashMap.{put}
use y_crdt.Update.{UpdateBlock, BlockMap}

abbrev pub count : (UpdateBlock → Bool) → List UpdateBlock → ℕ
count P [] = 0
count P (b ∷ bs) = (if P b then 1 else 0) + count P bs

abbrev pub count_all : (UpdateBlock → Bool) → BlockMap → ℕ
count_all P [] = 0
count_all P ((c, bs) ∷ m) = count P bs + count_all P m

abbrev pub count_found : (UpdateBlock → Bool) → Option (List UpdateBlock) → ℕ
count_found P none = 0
count_found P (some bs) = count P bs

abbrev pub count_latest : (UpdateBlock → Bool) → Option (ℕ × List UpdateBlock) → ℕ
count_latest P none = 0
count_latest P (some (c, bs)) = count P bs

module _ (P : UpdateBlock → Bool) where
  pub count_all-remove :
      (c : ℕ) (m : BlockMap) → count_all P (remove c m) + count_found P (get c m) ≡ count_all P m
  unfolding get remove
  count_all-remove c [] = refl
  count_all-remove c ((d, bs) ∷ m) = elim (Bool-cases (d == c)) [
    | inl e ↦ rw e (omega arith)
    | inr e ↦ let ih = count_all-remove c m in rw e (omega (arith, ih))
  ]

  pub count_all-put :
      (c : ℕ) (new : List UpdateBlock) (m : BlockMap)
      → count_all P (put c new m) + count_found P (get c m) ≡ count_all P m + count P new
  unfolding get put
  count_all-put c new [] = omega arith
  count_all-put c new ((d, bs) ∷ m) = elim (Bool-cases (d == c)) [
    | inl e ↦ rw e (omega arith)
    | inr e ↦ let ih = count_all-put c new m in rw e (omega (arith, ih))
  ]

-- What a lookup finds: nothing, an empty list, or a list with a first block.
pub Found-cases :
    {A : Type 0} (o : Option (List A))
    → (o ≡ none) ⊎ ((o ≡ some []) ⊎ ((x : A) × (xs : List A) × (o ≡ some (x ∷ xs))))
Found-cases none = inl refl
Found-cases (some []) = inr (inl refl)
Found-cases (some (x ∷ xs)) = inr (inr (x, xs, refl))

pub List-cases :
    {A : Type 0} (xs : List A) → (xs ≡ []) ⊎ ((x : A) × (rest : List A) × (xs ≡ x ∷ rest))
List-cases [] = inl refl
List-cases (x ∷ xs) = inr (x, xs, refl)

-- No block is left of the latest client, or one is.
pub Latest-cases :
    (l : Option (ℕ × List UpdateBlock))
    → (l ≡ none)
      ⊎ (((c : ℕ) × (l ≡ some (c, [])))
          ⊎ ((c : ℕ) × (b : UpdateBlock) × (bs : List UpdateBlock) × (l ≡ some (c, b ∷ bs))))
Latest-cases none = inl refl
Latest-cases (some (c, [])) = inr (inl (c, refl))
Latest-cases (some (c, b ∷ bs)) = inr (inr (c, b, bs, refl))

pub Dependency-cases :
    {S : Type 0} (o : Option (Option ℕ × S))
    → (o ≡ none) ⊎ (((c : ℕ) × (s : S) × (o ≡ some (some c, s))) ⊎ ((s : S) × (o ≡ some (none, s))))
Dependency-cases none = inl refl
Dependency-cases (some (some c, s)) = inr (inl (c, s, refl))
Dependency-cases (some (none, s)) = inr (inr (s, refl))
