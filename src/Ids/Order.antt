-- ===== src/Ids/Order.antt =====
-- Laws of ordered and canonical lists of entries, and of `push_coalesced`.
use y_crdt.Common.{ℕ, ◌≤◌, ◌<◌, ◌≡◌, Option, none, some, List, [], ◌∷◌, ◌++◌, if◌then◌else◌, arith}
use y_crdt.Ids.{Merge, Entry, within, value_at, IsOrdered, EndsBy, push_coalesced, IsCanonical}

module _ {T : Type 0} where
  unfoldable pub or_else : Option T → Option T → Option T
  or_else none b = b
  or_else (some a) b = some a

  pub value_at-append :
      (xs ys : List (Entry T)) (c : ℕ)
      → value_at (xs ++ ys) c ≡ or_else (value_at xs c) (value_at ys c)
  unfolding value_at or_else
  value_at-append [] ys c = ground arith
  value_at-append (x ∷ xs) ys c = ground (arith, value_at-append xs ys c)

  pub value_at-EndsBy :
      (xs : List (Entry T)) {hi : ℕ} (c : ℕ) → EndsBy hi xs → hi ≤ c → value_at xs c ≡ none
  unfolding value_at
  value_at-EndsBy [] c eb h = ground arith
  value_at-EndsBy (x ∷ xs) c eb h = ground (arith, value_at-EndsBy xs c eb.1 h)

  pub value_at-IsOrdered :
      (xs : List (Entry T)) {lo : ℕ} (c : ℕ) → IsOrdered lo xs → c < lo → value_at xs c ≡ none
  unfolding value_at
  value_at-IsOrdered [] c o h = ground arith
  value_at-IsOrdered (x ∷ xs) c o h =
      ground (arith, value_at-IsOrdered xs {lo = x.end} c o.2 (omega arith))

  pub IsOrdered-le :
      (xs : List (Entry T)) {lo lo' : ℕ} → lo' ≤ lo → IsOrdered lo xs → IsOrdered lo' xs
  IsOrdered-le [] h o = tt
  IsOrdered-le (x ∷ xs) h o = (omega arith, o.1, o.2)

  pub EndsBy-le : (xs : List (Entry T)) {hi hi' : ℕ} → hi ≤ hi' → EndsBy hi xs → EndsBy hi' xs
  EndsBy-le [] h e = tt
  EndsBy-le (x ∷ xs) h e = (omega arith, EndsBy-le xs h e.1)

  pub EndsBy-append :
      (xs ys : List (Entry T)) (hi : ℕ) → EndsBy hi xs → EndsBy hi ys → EndsBy hi (xs ++ ys)
  EndsBy-append [] ys hi ex ey = ey
  EndsBy-append (x ∷ xs) ys hi ex ey = (ex.0, EndsBy-append xs ys hi ex.1 ey)

  pub IsOrdered-append :
      (xs ys : List (Entry T)) {lo mid : ℕ}
      → lo ≤ mid
      → IsOrdered lo xs
      → EndsBy mid xs
      → IsOrdered mid ys
      → IsOrdered lo (xs ++ ys)
  IsOrdered-append [] ys h ox ex oy = IsOrdered-le ys h oy
  IsOrdered-append (x ∷ xs) ys h ox ex oy = (ox.0, ox.1, IsOrdered-append xs ys ex.0 ox.2 ex.1 oy)

module _ {T : Type 0} ⦃m : Merge T⦄ where
  pub value_at-push_coalesced :
      (xs : List (Entry T)) (start end : ℕ) (v : T) (c : ℕ)
      → EndsBy start xs
      → IsOrdered 0 xs
      → value_at (push_coalesced xs start end v) c
        ≡ (if within start end c then some v else value_at xs c)
  unfolding value_at push_coalesced
  value_at-push_coalesced [] s t v c eb o = ground arith
  value_at-push_coalesced (x ∷ []) s t v c eb o = ground (arith, m.beq_iff x.value v)
  value_at-push_coalesced (x ∷ y ∷ r) s t v c eb o =
      ground (arith, value_at-push_coalesced (y ∷ r) s t v c eb.1)

  pub push_coalesced-EndsBy :
      (xs : List (Entry T)) (start end : ℕ) (v : T) {hi : ℕ}
      → EndsBy start xs
      → start ≤ hi
      → end ≤ hi
      → EndsBy hi (push_coalesced xs start end v)
  unfolding push_coalesced
  push_coalesced-EndsBy [] s t v eb h k = ground arith
  push_coalesced-EndsBy (x ∷ []) s t v eb h k = ground arith
  push_coalesced-EndsBy (x ∷ y ∷ r) s t v eb h k =
      (omega arith, push_coalesced-EndsBy (y ∷ r) s t v eb.1 h k)

  -- The list keeps its first start and value.
  unfoldable pub SameHead : List (Entry T) → List (Entry T) → Type 0
  SameHead [] ys = Unit
  SameHead (x ∷ xs) [] = ⊥
  SameHead (x ∷ xs) (y ∷ ys) = (x.start ≡ y.start) × (x.value ≡ y.value) × (x.end ≤ y.end)

  pub IsCanonical-IsOrdered :
      (e : Entry T) (xs : List (Entry T)) {lo : ℕ}
      → lo ≤ e.start
      → IsCanonical (e ∷ xs)
      → IsOrdered lo (e ∷ xs)
  IsCanonical-IsOrdered e [] h k = (h, k, tt)
  IsCanonical-IsOrdered e (f ∷ r) h k = (h, k.0, IsCanonical-IsOrdered f r k.1 k.3)

  pub IsCanonical-IsOrdered_zero : (xs : List (Entry T)) → IsCanonical xs → IsOrdered 0 xs
  IsCanonical-IsOrdered_zero [] k = tt
  IsCanonical-IsOrdered_zero (x ∷ xs) k = IsCanonical-IsOrdered x xs (omega arith) k

  pub IsCanonical-tail : (x : Entry T) (xs : List (Entry T)) → IsCanonical (x ∷ xs) → IsCanonical xs
  IsCanonical-tail x [] k = tt
  IsCanonical-tail x (y ∷ r) k = k.3

  -- A new head of the same start and value keeps what stands before it canonical.
  pub IsCanonical-SameHead :
      (x y : Entry T) (r ys : List (Entry T))
      → IsCanonical (x ∷ y ∷ r)
      → SameHead (y ∷ r) ys
      → IsCanonical ys
      → IsCanonical (x ∷ ys)
  unfolding SameHead
  IsCanonical-SameHead x y r [] k sh kys = absurd sh
  IsCanonical-SameHead x y r (z ∷ zs) k sh kys = (k.0, omega arith, ground (arith, k.2, sh), kys)

  push_coalesced-SameHead :
      (x : Entry T) (xs : List (Entry T)) (s t : ℕ) (v : T)
      → SameHead (x ∷ xs) (push_coalesced (x ∷ xs) s t v)
  unfolding SameHead push_coalesced
  push_coalesced-SameHead x [] s t v = ground arith
  push_coalesced-SameHead x (y ∷ r) s t v = ground arith

  pub push_coalesced-IsCanonical :
      (xs : List (Entry T)) (s t : ℕ) (v : T)
      → EndsBy s xs
      → IsCanonical xs
      → IsCanonical (push_coalesced xs s t v)
  unfolding push_coalesced
  push_coalesced-IsCanonical [] s t v eb k = ground arith
  push_coalesced-IsCanonical (x ∷ []) s t v eb k = ground (arith, m.beq_iff x.value v)
  push_coalesced-IsCanonical (x ∷ y ∷ r) s t v eb k =
      IsCanonical-SameHead x y r _ k (push_coalesced-SameHead y r s t v)
        (push_coalesced-IsCanonical (y ∷ r) s t v eb.1 k.3)

  pub push_coalesced-IsOrdered :
      (xs : List (Entry T)) (s t : ℕ) (v : T) (lo : ℕ)
      → EndsBy s xs
      → lo ≤ s
      → IsOrdered lo xs
      → IsOrdered lo (push_coalesced xs s t v)
  unfolding push_coalesced
  push_coalesced-IsOrdered [] s t v lo eb h o = ground arith
  push_coalesced-IsOrdered (x ∷ []) s t v lo eb h o = ground arith
  push_coalesced-IsOrdered (x ∷ y ∷ r) s t v lo eb h o =
      (o.0, o.1, push_coalesced-IsOrdered (y ∷ r) s t v x.end eb.1 eb.0 o.2)
