-- ===== src/BTree.antt =====
-- `std::collections::BTreeMap` with numeric keys, as the list of its entries in key order.
use y_crdt.Common.{
  ℕ, suc, ◌≤◌, ◌<◌, ◌≡◌, refl, Option, none, some, List, [], ◌∷◌, if◌then◌else◌, ltb, ◌==◌, arith,
  ==_iff, Bool-cases, Option-cases, inl, inr,
}
use mathlib.Core.Path.{subst, sym}

module _ {V : Type 0} where
  unfoldable pub get : ℕ → List (ℕ × V) → Option V
  get key [] = none
  get key ((k, v) ∷ m) = if k == key then some v else get key m

  -- `insert`: replace the value of a key, or add the key in its place.
  unfoldable pub insert : ℕ → V → List (ℕ × V) → List (ℕ × V)
  insert key value [] = (key, value) ∷ []
  insert key value ((k, v) ∷ m) =
      if ltb key k
      then (key, value) ∷ (k, v) ∷ m
      else if k == key
      then (key, value) ∷ m
      else (k, v) ∷ insert key value m

  unfoldable pub remove : ℕ → List (ℕ × V) → List (ℕ × V)
  remove key [] = []
  remove key ((k, v) ∷ m) = if k == key then m else (k, v) ∷ remove key m

  abbrev pub keep_entry : ℕ → Option V → List (ℕ × V) → List (ℕ × V)
  keep_entry k none m = m
  keep_entry k (some v) m = (k, v) ∷ m

  -- `retain` with a closure that may also rewrite the value it keeps.
  unfoldable pub retain : (ℕ → V → Option V) → List (ℕ × V) → List (ℕ × V)
  retain keep [] = []
  retain keep ((k, v) ∷ m) = keep_entry k (keep k v) (retain keep m)

  -- Keys from `lo` on, each once, in order.
  abbrev pub IsSorted : ℕ → List (ℕ × V) → Type 0
  IsSorted lo [] = Unit
  IsSorted lo ((k, v) ∷ m) = (lo ≤ k) × IsSorted (suc k) m

  abbrev pub AllValues : (V → Type 0) → List (ℕ × V) → Type 0
  AllValues P [] = Unit
  AllValues P ((k, v) ∷ m) = P v × AllValues P m

  pub get-IsSorted : (m : List (ℕ × V)) (lo key : ℕ) → IsSorted lo m → key < lo → get key m ≡ none
  unfolding get
  get-IsSorted [] lo key s h = refl
  get-IsSorted ((k, v) ∷ m) lo key s h = ground (arith, get-IsSorted m (suc k) key s.1)

  pub get-insert :
      (m : List (ℕ × V)) (lo key j : ℕ) (value : V)
      → IsSorted lo m
      → get j (insert key value m) ≡ (if key == j then some value else get j m)
  unfolding get insert
  get-insert [] lo key j value s = refl
  get-insert ((k, v) ∷ m) lo key j value s = ground (arith, get-insert m (suc k) key j value s.1)

  pub IsSorted-le : (m : List (ℕ × V)) {lo lo' : ℕ} → lo' ≤ lo → IsSorted lo m → IsSorted lo' m
  IsSorted-le [] h s = tt
  IsSorted-le ((k, v) ∷ m) h s = (omega arith, s.1)

  pub insert-IsSorted :
      (m : List (ℕ × V)) (lo key : ℕ) (value : V)
      → lo ≤ key
      → IsSorted lo m
      → IsSorted lo (insert key value m)
  unfolding insert
  insert-IsSorted [] lo key value h s = (h, tt)
  insert-IsSorted ((k, v) ∷ m) lo key value h s =
      ground (arith, insert-IsSorted m (suc k) key value)

  pub get-remove :
      (m : List (ℕ × V)) (lo key j : ℕ)
      → IsSorted lo m
      → get j (remove key m) ≡ (if key == j then none else get j m)
  unfolding get remove
  get-remove [] lo key j s = ground arith
  get-remove ((k, v) ∷ m) lo key j s =
      ground (arith, get-remove m (suc k) key j s.1, get-IsSorted m (suc k) j s.1)

  pub remove-IsSorted : (m : List (ℕ × V)) (lo key : ℕ) → IsSorted lo m → IsSorted lo (remove key m)
  unfolding remove
  remove-IsSorted [] lo key s = tt
  remove-IsSorted ((k, v) ∷ m) lo key s = ground (
    arith,
    remove-IsSorted m (suc k) key s.1,
    IsSorted-le m {lo = suc k} {lo' = lo} (omega arith) s.1,
  )

  pub remove-AllValues :
      (P : V → Type 0) (m : List (ℕ × V)) (key : ℕ) → AllValues P m → AllValues P (remove key m)
  unfolding remove
  remove-AllValues P [] key a = tt
  remove-AllValues P ((k, v) ∷ m) key a = elim (Bool-cases (k == key)) [
    | inl e ↦ rw e a.1
    | inr e ↦ rw e (a.0, remove-AllValues P m key a.1)
  ]

  pub insert-AllValues :
      (P : V → Type 0) (m : List (ℕ × V)) (key : ℕ) (value : V)
      → P value
      → AllValues P m
      → AllValues P (insert key value m)
  unfolding insert
  insert-AllValues P [] key value p a = (p, tt)
  insert-AllValues P ((k, v) ∷ m) key value p a = elim (Bool-cases (ltb key k)) [
    | inl e ↦ rw e (p, (a.0, a.1))
    | inr e ↦ elim (Bool-cases (k == key)) [
      | inl f ↦ rw (e, f) (p, a.1)
      | inr f ↦ rw (e, f) (a.0, insert-AllValues P m key value p a.1)
    ]
  ]

  pub get-AllValues :
      (P : V → Type 0) (m : List (ℕ × V)) (key : ℕ) (v : V)
      → AllValues P m
      → get key m ≡ some v
      → P v
  unfolding get
  get-AllValues P [] key v a h = absurd (cc)
  get-AllValues P ((k, w) ∷ m) key v a h = elim (Bool-cases (k == key)) [
    | inl e ↦ let q : w ≡ v = ground arith in subst P q a.0
    | inr e ↦ get-AllValues P m key v a.1 (rw e at h)
  ]

  abbrev pub and_then : Option V → (V → Option V) → Option V
  and_then none f = none
  and_then (some v) f = f v

  pub get-retain :
      (keep : ℕ → V → Option V) (m : List (ℕ × V)) (lo key : ℕ)
      → IsSorted lo m
      → get key (retain keep m) ≡ and_then (get key m) (keep key)
  unfolding get retain
  get-retain keep [] lo key s = refl
  get-retain keep ((k, v) ∷ m) lo key s =
      let ih = get-retain keep m (suc k) key s.1 in
      let none_later = get-IsSorted m (suc k) key s.1 in
      elim (Option-cases (keep k v)) [
        | inl e ↦ elim (Bool-cases (k == key)) [
          | inl q ↦
              let same : k ≡ key = (==_iff k key).0 q in
              let gone : get key m ≡ none = none_later (omega arith) in
              rw (e, q, ih, gone) (sym (rw same at e))
          | inr q ↦ rw (e, q) ih
        ]
        | inr (w, e) ↦ elim (Bool-cases (k == key)) [
          | inl q ↦ let same : k ≡ key = (==_iff k key).0 q in rw (e, q) (sym (rw same at e))
          | inr q ↦ rw (e, q) ih
        ]
      ]

  pub retain-IsSorted :
      (keep : ℕ → V → Option V) (m : List (ℕ × V)) (lo : ℕ)
      → IsSorted lo m
      → IsSorted lo (retain keep m)
  unfolding retain
  retain-IsSorted keep [] lo s = tt
  retain-IsSorted keep ((k, v) ∷ m) lo s = elim (Option-cases (keep k v)) [
    | inl e ↦
        rw (e, keep_entry)
          (IsSorted-le (retain keep m) (omega arith) (retain-IsSorted keep m (suc k) s.1))
    | inr (w, e) ↦ rw (e, keep_entry) (s.0, retain-IsSorted keep m (suc k) s.1)
  ]

  pub retain-AllValues :
      (P Q : V → Type 0) (keep : ℕ → V → Option V) (m : List (ℕ × V))
      → ((k : ℕ) (v w : V) → P v → keep k v ≡ some w → Q w)
      → AllValues P m
      → AllValues Q (retain keep m)
  unfolding retain
  retain-AllValues P Q keep [] f a = tt
  retain-AllValues P Q keep ((k, v) ∷ m) f a = elim (Option-cases (keep k v)) [
    | inl e ↦ rw (e, keep_entry) (retain-AllValues P Q keep m f a.1)
    | inr (w, e) ↦ rw (e, keep_entry) (f k v w a.0 e, retain-AllValues P Q keep m f a.1)
  ]

  -- Two sorted lists that give every key the same value are equal.
  pub sorted_unique :
      (m n : List (ℕ × V)) (lo lo' : ℕ)
      → IsSorted lo m
      → IsSorted lo' n
      → ((key : ℕ) → get key m ≡ get key n)
      → m ≡ n
  sorted_unique [] [] lo lo' s t h = refl
  sorted_unique [] ((k, v) ∷ n) lo lo' s t h = absurd (unfold get in ground (arith, h k))
  sorted_unique ((k, v) ∷ m) [] lo lo' s t h = absurd (unfold get in ground (arith, h k))
  sorted_unique ((k, v) ∷ m) ((j, w) ∷ n) lo lo' s t h =
      let keys : k ≡ j =
        unfold get in
        ground (arith, h k, h j, get-IsSorted m (suc k) j s.1, get-IsSorted n (suc j) k t.1) in
      let values : v ≡ w = unfold get in ground (arith, h k) in
      let rest = sorted_unique m n (suc k) (suc j) s.1 t.1 (λ key.
        unfold get in
        ground (arith, h key, get-IsSorted m (suc k) key s.1, get-IsSorted n (suc j) key t.1)) in
      ground arith
