-- ===== src/HashMap.antt =====
-- `std::collections::HashMap` and `DashMap` with numeric keys: the list of the entries in the order in
-- which the map iterates, each key once. A new key may stand anywhere, here at the end, and no theorem
-- rests on that order.
use y_crdt.Common.{
  ℕ, ◌≡◌, refl, Option, none, some, List, [], ◌∷◌, ◌==◌, if◌then◌else◌, arith, ==_iff, Bool-cases,
  inl, inr, sym, ◌∙◌, ◌++◌, ◌≢◌, append-nil, append_assoc,
}
use y_crdt.BTree.{get, remove}

module _ {V : Type 0} where
  -- The map's own `insert`, which replaces the value of a key that is there.
  unfoldable pub put : ℕ → V → List (ℕ × V) → List (ℕ × V)
  put key value [] = (key, value) ∷ []
  put key value ((k, v) ∷ m) = if k == key then (key, value) ∷ m else (k, v) ∷ put key value m

  -- Every key once.
  abbrev pub IsUnique : List (ℕ × V) → Type 0
  IsUnique [] = Unit
  IsUnique ((k, v) ∷ m) = (get k m ≡ none) × IsUnique m

  pub get-put :
      (m : List (ℕ × V)) (key j : ℕ) (value : V)
      → get j (put key value m) ≡ (if key == j then some value else get j m)
  unfolding get put
  get-put [] key j value = refl
  get-put ((k, v) ∷ m) key j value = ground (arith, get-put m key j value)

  pub put-IsUnique :
      (m : List (ℕ × V)) (key : ℕ) (value : V) → IsUnique m → IsUnique (put key value m)
  unfolding put
  put-IsUnique [] key value u = (unfold get in refl, tt)
  put-IsUnique ((k, v) ∷ m) key value u =
      ground (arith, put-IsUnique m key value u.1, get-put m key k value)

  -- One map put on top of another.
  abbrev pub add_all : List (ℕ × V) → List (ℕ × V) → List (ℕ × V)
  add_all acc [] = acc
  add_all acc ((k, v) ∷ m) = add_all (put k v acc) m

  abbrev pub or_old : Option V → Option V → Option V
  or_old none y = y
  or_old (some x) y = some x

  pub or_old-none : (o : Option V) → or_old o none ≡ o
  or_old-none none = refl
  or_old-none (some x) = refl

  pub get-add_all :
      (acc m : List (ℕ × V)) (j : ℕ)
      → IsUnique m
      → get j (add_all acc m) ≡ or_old (get j m) (get j acc)
  unfolding get
  get-add_all acc [] j u = refl
  get-add_all acc ((k, v) ∷ m) j u =
      let ih = get-add_all (put k v acc) m j u.1 in
      elim (Bool-cases (k == j)) [
        | inl e ↦
            let gone : get j m ≡ none = rw ((==_iff k j).0 e) at u.0 in
            let new : get j (put k v acc) ≡ some v = rw (get-put acc k j v, e) refl in
            rw (ih, gone, new, e) refl
        | inr e ↦
            let old : get j (put k v acc) ≡ get j acc = rw (get-put acc k j v, e) refl in
            rw (ih, old, e) refl
      ]

  pub get-remove :
      (m : List (ℕ × V)) (key j : ℕ)
      → IsUnique m
      → get j (remove key m) ≡ (if key == j then none else get j m)
  unfolding get remove
  get-remove [] key j u = ground arith
  get-remove ((k, v) ∷ m) key j u = ground (arith, get-remove m key j u.1, u.0)

  pub remove-IsUnique : (m : List (ℕ × V)) (key : ℕ) → IsUnique m → IsUnique (remove key m)
  unfolding remove
  remove-IsUnique [] key u = tt
  remove-IsUnique ((k, v) ∷ m) key u =
      ground (arith, remove-IsUnique m key u.1, get-remove m key k u.1, u.0)

  pub put-append :
      (acc : List (ℕ × V)) (k : ℕ) (v : V) → get k acc ≡ none → put k v acc ≡ acc ++ (k, v) ∷ []
  unfolding put get
  put-append [] k v n = refl
  put-append ((j, w) ∷ acc) k v n = ground (arith, put-append acc k v)

  get-append :
      (acc : List (ℕ × V)) (k : ℕ) (v : V) (m : List (ℕ × V)) → get k (acc ++ (k, v) ∷ m) ≢ none
  unfolding get
  get-append [] k v m e = ground arith
  get-append ((j, w) ∷ acc) k v m e = elim (Bool-cases (j == k)) [
    | inl q ↦ ground arith
    | inr q ↦ get-append acc k v m (rw q at e)
  ]

  pub IsUnique-append :
      (acc : List (ℕ × V)) (k : ℕ) (v : V) (m : List (ℕ × V))
      → IsUnique (acc ++ (k, v) ∷ m)
      → get k acc ≡ none
  unfolding get
  IsUnique-append [] k v m u = refl
  IsUnique-append ((j, w) ∷ acc) k v m u =
      let ih = IsUnique-append acc k v m u.1 in
      elim (Bool-cases (j == k)) [
        | inl q ↦ absurd (let same = (==_iff j k).0 q in get-append acc k v m (rw same at u.0))
        | inr q ↦ rw q ih
      ]

  -- The entries of a map without repetitions, put in one by one, are that map.
  pub add_all-append : (acc m : List (ℕ × V)) → IsUnique (acc ++ m) → add_all acc m ≡ acc ++ m
  add_all-append acc [] u = sym (append-nil acc)
  add_all-append acc ((k, v) ∷ m) u =
      let new = put-append acc k v (IsUnique-append acc k v m u) in
      let regroup = append_assoc acc ((k, v) ∷ []) m in
      rw new (add_all-append (acc ++ (k, v) ∷ []) m (rw regroup u) ∙ regroup)
