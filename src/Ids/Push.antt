-- ===== src/Ids/Push.antt =====
-- `push_coalesced` on a list that is well formed between two clocks, also under a test.
use y_crdt.Common.{ℕ, ◌≤◌, ◌≡◌, refl, Bool, true, false, ◌&&◌, List, if◌then◌else◌, arith, some}
use y_crdt.Ids.{Merge, Entry, within, value_at, IsOrdered, EndsBy, IsCanonical, push_coalesced}
use y_crdt.Ids.Order.{
  EndsBy-le, push_coalesced-EndsBy, push_coalesced-IsOrdered, push_coalesced-IsCanonical,
  value_at-push_coalesced, IsCanonical-IsOrdered_zero,
}

module _ {T : Type 0} ⦃m : Merge T⦄ where
  -- `ys` is well formed between `lo` and `hi`.
  pub record Built (lo hi : ℕ) (ys : List (Entry T)) : Type 0 where
    pub ends : EndsBy hi ys
    pub ordered : IsOrdered lo ys
    pub canonical : IsCanonical ys

  -- A push under a test.
  unfoldable pub push_if : Bool → List (Entry T) → ℕ → ℕ → T → List (Entry T)
  push_if b xs s t v = if b then push_coalesced xs s t v else xs

  pub push_if-Built :
      (b : Bool) (xs : List (Entry T)) (s t : ℕ) (v : T) (lo mid hi : ℕ)
      → Built lo mid xs
      → lo ≤ s
      → mid ≤ hi
      → (b ≡ true → (mid ≤ s) × (s ≤ hi) × (t ≤ hi))
      → Built lo hi (push_if b xs s t v)
  unfolding push_if
  push_if-Built false xs s t v lo mid hi k h g j = record {
    ends = EndsBy-le xs g k.ends;
    ordered = k.ordered;
    canonical = k.canonical;
  }
  push_if-Built true xs s t v lo mid hi k h g j =
      let (a, b, c) = j refl in
      let e = EndsBy-le xs a k.ends in
      record {
        ends = push_coalesced-EndsBy xs s t v e b c;
        ordered = push_coalesced-IsOrdered xs s t v lo e h k.ordered;
        canonical = push_coalesced-IsCanonical xs s t v e k.canonical;
      }

  pub value_at-push_if :
      (b : Bool) (xs : List (Entry T)) (s t : ℕ) (v : T) (lo mid c : ℕ)
      → Built lo mid xs
      → (b ≡ true → mid ≤ s)
      → value_at (push_if b xs s t v) c ≡ (if b && within s t c then some v else value_at xs c)
  unfolding push_if
  value_at-push_if false xs s t v lo mid c k j = ground arith
  value_at-push_if true xs s t v lo mid c k j = ground (
    arith,
    value_at-push_coalesced xs s t v c (EndsBy-le xs (j refl) k.ends)
        (IsCanonical-IsOrdered_zero xs k.canonical),
  )
