-- ===== src/Ids/Union/Cases.antt =====
-- The branches of the sweep of `merge`.
use y_crdt.Common.{
  ℕ, ◌≤◌, ◌<◌, min, max, ◌≡◌, refl, Option, none, some, List, ◌∷◌, if◌then◌else◌, ltb, arith,
}
use y_crdt.Ids.{Merge, Entry, push_coalesced, value_at, within, IsOrdered}
use y_crdt.Ids.Order.{or_else, value_at-IsOrdered, value_at-EndsBy}
use y_crdt.Ids.Push.{Built}
use y_crdt.Ids.Union.{start_or_zero, push_prefix, push_overlap}
use y_crdt.Ids.Union.Steps.{
  cut, cut-start, both, value_at-push, Swept, Swept-from, value_at-push_prefix,
  value_at-push_overlap,
}

module _ {T : Type 0} ⦃m : Merge T⦄ where
  -- The overlap and its prefix, read at one clock, for two current entries that overlap.
  pub overlap_values :
      (xc yc xe ye c : ℕ) (v w : T) (r p o x y x' y' : Option T)
      → xc < xe
      → yc < ye
      → yc < xe
      → xc < ye
      → (min xc yc ≤ c → r ≡ none)
      → p ≡ (if within xc yc c then some v else if within yc xc c then some w else r)
      → o ≡ (if within (max xc yc) (min xe ye) c then some (m.merge v w) else p)
      → x ≡ (if within xc xe c then some v else x')
      → y ≡ (if within yc ye c then some w else y')
      → (c < xe → x' ≡ none)
      → (c < ye → y' ≡ none)
      → or_else o (if ltb c (min xe ye) then none else both x y) ≡ or_else r (both x y)
  unfolding or_else
  overlap_values xc yc xe ye c v w r p o x y x' y' h1 h2 h3 h4 rn ep eo ex ey nx ny =
      ground (arith, rn, nx, ny)

  -- One overlap, then the rest of the sweep.
  pub overlap-Swept :
      (result : List (Entry T)) (x_cur y_cur : ℕ) (x y : Entry T) (xs ys zs : List (Entry T))
      → (lo hi : ℕ) → (old' : ℕ → Option T) → Built lo hi result
      → lo ≤ hi
      → IsOrdered hi (cut x_cur (x ∷ xs))
      → IsOrdered hi (cut y_cur (y ∷ ys))
      → y_cur < x.end
      → x_cur < y.end
      → ((c : ℕ)
          → old' c ≡ (
              if ltb c (min x.end y.end)
              then none
              else both (value_at (cut x_cur (x ∷ xs)) c) (value_at (cut y_cur (y ∷ ys)) c)))
      → Swept (push_overlap result x_cur x y_cur y) old' zs
      → Swept result
          (λ c. both (value_at (cut x_cur (x ∷ xs)) c) (value_at (cut y_cur (y ∷ ys)) c))
          zs
  unfolding value_at
  overlap-Swept result a b x y xs ys zs lo hi old' k lh ox oy bx ay eq rest =
      Swept-from result (push_overlap result a x b y) zs _ old' rest (λ c. rw (eq c) (
        overlap_values a b x.end y.end c x.value y.value (value_at result c)
          (value_at (push_prefix result a x b y) c) (value_at (push_overlap result a x b y) c)
          (value_at (cut a (x ∷ xs)) c) (value_at (cut b (y ∷ ys)) c) (value_at xs c)
          (value_at ys c) ox.1 oy.1 bx ay
          (λ h. value_at-EndsBy result {hi = hi} c k.ends (omega arith))
          (value_at-push_prefix result a b x y lo hi c k ox.0 oy.0)
          (value_at-push_overlap result a b x y lo hi c k lh ox.0 oy.0) refl refl
          (λ h. value_at-IsOrdered xs {lo = x.end} c ox.2 h)
          (λ h. value_at-IsOrdered ys {lo = y.end} c oy.2 h)))

  pub x_before-Swept :
      (result : List (Entry T)) (a b : ℕ) (x y : Entry T) (xs ys zs : List (Entry T)) (lo hi : ℕ)
      → Built lo hi result
      → IsOrdered hi (cut a (x ∷ xs))
      → IsOrdered hi (cut b (y ∷ ys))
      → x.end ≤ b
      → Swept
          (push_coalesced result a x.end x.value)
          (λ c. both (value_at (cut (start_or_zero xs) xs) c) (value_at (cut b (y ∷ ys)) c))
          zs
      → Swept result (λ c. both (value_at (cut a (x ∷ xs)) c) (value_at (cut b (y ∷ ys)) c)) zs
  unfolding value_at or_else
  x_before-Swept result a b x y xs ys zs lo hi k ox oy h rest =
      Swept-from result _ zs _ _ rest (λ c. rw (cut-start xs) (
        ground (
          arith,
          value_at-push result a x.end x.value lo hi c k ox.0,
          value_at-EndsBy result {hi = hi} c k.ends,
          value_at-IsOrdered xs {lo = x.end} c ox.2,
          value_at-IsOrdered ys {lo = y.end} c oy.2,
        )))

  pub y_before-Swept :
      (result : List (Entry T)) (a b : ℕ) (x y : Entry T) (xs ys zs : List (Entry T)) (lo hi : ℕ)
      → Built lo hi result
      → IsOrdered hi (cut a (x ∷ xs))
      → IsOrdered hi (cut b (y ∷ ys))
      → y.end ≤ a
      → Swept
          (push_coalesced result b y.end y.value)
          (λ c. both (value_at (cut a (x ∷ xs)) c) (value_at (cut (start_or_zero ys) ys) c))
          zs
      → Swept result (λ c. both (value_at (cut a (x ∷ xs)) c) (value_at (cut b (y ∷ ys)) c)) zs
  unfolding value_at or_else
  y_before-Swept result a b x y xs ys zs lo hi k ox oy h rest =
      Swept-from result _ zs _ _ rest (λ c. rw (cut-start ys) (
        ground (
          arith,
          value_at-push result b y.end y.value lo hi c k oy.0,
          value_at-EndsBy result {hi = hi} c k.ends,
          value_at-IsOrdered xs {lo = x.end} c ox.2,
          value_at-IsOrdered ys {lo = y.end} c oy.2,
        )))

  pub x_shorter_values :
      (a b low : ℕ) (x y : Entry T) (xs ys : List (Entry T)) (hi : ℕ)
      → IsOrdered hi (cut a (x ∷ xs))
      → IsOrdered hi (cut b (y ∷ ys))
      → low ≡ min x.end y.end
      → (x.end < y.end) × (max a b ≤ low)
      → (c : ℕ)
      → both (value_at (cut (start_or_zero xs) xs) c) (value_at (cut low (y ∷ ys)) c) ≡ (
          if ltb c (min x.end y.end)
          then none
          else both (value_at (cut a (x ∷ xs)) c) (value_at (cut b (y ∷ ys)) c))
  unfolding value_at
  x_shorter_values a b low x y xs ys hi ox oy e h c = rw (cut-start xs) (
      ground (
        arith,
        value_at-IsOrdered xs {lo = x.end} c ox.2,
        value_at-IsOrdered ys {lo = y.end} c oy.2,
      ))

  pub y_shorter_values :
      (a b low : ℕ) (x y : Entry T) (xs ys : List (Entry T)) (hi : ℕ)
      → IsOrdered hi (cut a (x ∷ xs))
      → IsOrdered hi (cut b (y ∷ ys))
      → low ≡ min x.end y.end
      → (y.end < x.end) × (max a b ≤ low)
      → (c : ℕ)
      → both (value_at (cut low (x ∷ xs)) c) (value_at (cut (start_or_zero ys) ys) c) ≡ (
          if ltb c (min x.end y.end)
          then none
          else both (value_at (cut a (x ∷ xs)) c) (value_at (cut b (y ∷ ys)) c))
  unfolding value_at
  y_shorter_values a b low x y xs ys hi ox oy e h c = rw (cut-start ys) (
      ground (
        arith,
        value_at-IsOrdered xs {lo = x.end} c ox.2,
        value_at-IsOrdered ys {lo = y.end} c oy.2,
      ))

  pub both_end_values :
      (a b low : ℕ) (x y : Entry T) (xs ys : List (Entry T)) (hi : ℕ)
      → IsOrdered hi (cut a (x ∷ xs))
      → IsOrdered hi (cut b (y ∷ ys))
      → low ≡ min x.end y.end
      → (x.end ≡ y.end) × (max a b ≤ low)
      → (c : ℕ)
      → both (value_at (cut (start_or_zero xs) xs) c) (value_at (cut (start_or_zero ys) ys) c) ≡ (
          if ltb c (min x.end y.end)
          then none
          else both (value_at (cut a (x ∷ xs)) c) (value_at (cut b (y ∷ ys)) c))
  unfolding value_at
  both_end_values a b low x y xs ys hi ox oy e h c =
      rw (cut-start xs, cut-start ys)
        (ground (
          arith,
          value_at-IsOrdered xs {lo = x.end} c ox.2,
          value_at-IsOrdered ys {lo = y.end} c oy.2,
        ))
