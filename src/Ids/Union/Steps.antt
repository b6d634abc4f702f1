-- ===== src/Ids/Union/Steps.antt =====
-- What one push of the sweep of `merge` does.
use y_crdt.Common.{
  ◌∙◌, ℕ, ◌≤◌, min, max, ◌≡◌, refl, true, Option, none, some, List, [], ◌∷◌, foldl, if◌then◌else◌,
  ltb, arith, Bool-cases, inl, inr,
}
use y_crdt.Ids.{Merge, Entry, push_coalesced, value_at, within, IsOrdered, IsCanonical}
use y_crdt.Ids.Order.{or_else, value_at-EndsBy}
use y_crdt.Ids.Push.{Built, push_if, push_if-Built, value_at-push_if}
use y_crdt.Ids.Union.{start_or_zero, push_entry, drain, push_prefix, push_overlap}

module _ {T : Type 0} where
  -- What is left of a side, its first entry cut to start at `cur`.
  abbrev pub cut : ℕ → List (Entry T) → List (Entry T)
  cut cur [] = []
  cut cur (e ∷ r) = record e { start = cur } ∷ r

  pub cut-start : (xs : List (Entry T)) → cut (start_or_zero xs) xs ≡ xs
  unfolding start_or_zero
  cut-start [] = refl
  cut-start (x ∷ r) = refl

module _ {T : Type 0} ⦃m : Merge T⦄ where
  -- The value of a union at one clock.
  abbrev pub both : Option T → Option T → Option T
  both none y = y
  both (some x) none = some x
  both (some x) (some y) = some (m.merge x y)

  -- One push of a whole range.
  pub push-Built :
      (xs : List (Entry T)) (s t : ℕ) (v : T) (lo hi : ℕ)
      → Built lo hi xs
      → lo ≤ s
      → hi ≤ s
      → s ≤ t
      → Built lo t (push_coalesced xs s t v)
  unfolding push_if
  push-Built xs s t v lo hi k h g st =
      push_if-Built true xs s t v lo hi t k h (omega arith) (λ _. (g, st, omega arith))

  pub value_at-push :
      (xs : List (Entry T)) (s t : ℕ) (v : T) (lo hi c : ℕ)
      → Built lo hi xs
      → hi ≤ s
      → value_at (push_coalesced xs s t v) c ≡ (if within s t c then some v else value_at xs c)
  unfolding push_if
  value_at-push xs s t v lo hi c k g = value_at-push_if true xs s t v lo hi c k (λ _. g)

  pub record Swept (result : List (Entry T)) (old : ℕ → Option T) (ys : List (Entry T))
      : Type 0 where
    pub canonical : IsCanonical ys
    pub values : (c : ℕ) → value_at ys c ≡ or_else (value_at result c) (old c)

  pub fold-Swept :
      (xs result : List (Entry T)) (lo hi : ℕ)
      → Built lo hi result
      → lo ≤ hi
      → IsOrdered hi xs
      → Swept result (value_at xs) (foldl push_entry result xs)
  unfolding push_entry value_at or_else
  fold-Swept [] result lo hi k lh o = record { canonical = k.canonical; values = λ c. ground arith }
  fold-Swept (x ∷ xs) result lo hi k lh o =
      let rest =
        fold-Swept xs (push_coalesced result x.start x.end x.value) lo x.end
          (push-Built result x.start x.end x.value lo hi k (omega arith) o.0 (omega arith))
          (omega arith) o.2 in
      record {
        canonical = rest.canonical;
        values = λ c. ground (
          arith,
          rest.values c,
          value_at-push result x.start x.end x.value lo hi c k o.0,
          value_at-EndsBy result {hi = hi} c k.ends,
        );
      }

  pub drain-Swept :
      (xs result : List (Entry T)) (cur lo hi : ℕ)
      → Built lo hi result
      → lo ≤ hi
      → IsOrdered hi (cut cur xs)
      → Swept result (value_at (cut cur xs)) (drain result cur xs)
  unfolding drain push_entry
  drain-Swept [] result cur lo hi k lh o = fold-Swept [] result lo hi k lh o
  drain-Swept (x ∷ xs) result cur lo hi k lh o =
      fold-Swept (record x { start = cur } ∷ xs) result lo hi k lh o

  -- The sweep may go on from another state that stands for the same values.
  pub Swept-from :
      (result result' ys : List (Entry T)) (old old' : ℕ → Option T)
      → Swept result' old' ys
      → ((c : ℕ) → or_else (value_at result' c) (old' c) ≡ or_else (value_at result c) (old c))
      → Swept result old ys
  Swept-from result result' ys old old' k h = record {
    canonical = k.canonical;
    values = λ c. k.values c ∙ h c;
  }

  pub push_prefix-Built :
      (result : List (Entry T)) (x_cur y_cur : ℕ) (x y : Entry T) (lo hi : ℕ)
      → Built lo hi result
      → lo ≤ hi
      → hi ≤ x_cur
      → hi ≤ y_cur
      → Built lo (max x_cur y_cur) (push_prefix result x_cur x y_cur y)
  unfolding push_prefix push_if
  push_prefix-Built result a b x y lo hi k lh ha hb = elim (Bool-cases (ltb a b)) [
    | inl e ↦ rw e (
        push_if-Built true result a b x.value lo hi (max a b) k (omega arith) (omega arith)
          (λ _. (ha, omega arith, omega arith)))
    | inr e ↦ rw e (
        push_if-Built (ltb b a) result b a y.value lo hi (max a b) k (omega arith) (omega arith)
          (λ _. (hb, omega arith, omega arith)))
  ]

  pub value_at-push_prefix :
      (result : List (Entry T)) (x_cur y_cur : ℕ) (x y : Entry T) (lo hi c : ℕ)
      → Built lo hi result
      → hi ≤ x_cur
      → hi ≤ y_cur
      → value_at (push_prefix result x_cur x y_cur y) c ≡ (
          if within x_cur y_cur c
          then some x.value
          else if within y_cur x_cur c
          then some y.value
          else value_at result c)
  unfolding push_prefix
  value_at-push_prefix result a b x y lo hi c k ha hb = ground (
    arith,
    value_at-push result a b x.value lo hi c k ha,
    value_at-push result b a y.value lo hi c k hb,
  )

  pub push_overlap-Built :
      (result : List (Entry T)) (x_cur y_cur : ℕ) (x y : Entry T) (lo hi : ℕ)
      → Built lo hi result
      → lo ≤ hi
      → hi ≤ x_cur
      → hi ≤ y_cur
      → max x_cur y_cur ≤ min x.end y.end
      → Built lo (min x.end y.end) (push_overlap result x_cur x y_cur y)
  unfolding push_overlap
  push_overlap-Built result a b x y lo hi k lh ha hb g =
      push-Built _ (max a b) (min x.end y.end) (m.merge x.value y.value) lo (max a b)
        (push_prefix-Built result a b x y lo hi k lh ha hb) (omega arith) (omega arith) g

  pub value_at-push_overlap :
      (result : List (Entry T)) (x_cur y_cur : ℕ) (x y : Entry T) (lo hi c : ℕ)
      → Built lo hi result
      → lo ≤ hi
      → hi ≤ x_cur
      → hi ≤ y_cur
      → value_at (push_overlap result x_cur x y_cur y) c ≡ (
          if within (max x_cur y_cur) (min x.end y.end) c
          then some (m.merge x.value y.value)
          else value_at (push_prefix result x_cur x y_cur y) c)
  unfolding push_overlap
  value_at-push_overlap result a b x y lo hi c k lh ha hb =
      value_at-push _ (max a b) (min x.end y.end) (m.merge x.value y.value) lo (max a b) c
        (push_prefix-Built result a b x y lo hi k lh ha hb) (omega arith)
