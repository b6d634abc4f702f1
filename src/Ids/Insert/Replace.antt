-- ===== src/Ids/Insert/Replace.antt =====
-- The loop of `insert_with` over the touching entries.
use y_crdt.Ids.Push.{Built, push_if, push_if-Built, value_at-push_if}
use y_crdt.Common.{
  ℕ, ◌≤◌, ◌<◌, min, max, ◌≡◌, refl, ◌&&◌, ◌⊎◌, inl, inr, Option, none, some, List, [], ◌∷◌, foldl,
  leb, ltb, if◌then◌else◌, arith, tests, length,
}
use y_crdt.Ids.{Merge, Entry, IsOrdered, EndsBy, IsCanonical, value_at, overlay, within}
use y_crdt.Ids.Order.{value_at-EndsBy, value_at-IsOrdered}
use y_crdt.Ids.Insert.{replace_step, replace_rest, replacement}
use y_crdt.Ids.Insert.Split.{last_end, StartsBy, EndsFrom}

-- The tests of the four pushes of a step, each met with its range, as plain ranges.
gap_range :
    (s t a cursor c : ℕ)
    → a ≤ t
    → ((leb s cursor && ltb cursor a) && within cursor (min a t) c)
      ≡ (leb s cursor && within cursor a c)
gap_range s t a cursor c at = ground arith

prefix_range : (s a c : ℕ) → (ltb a s && within a s c) ≡ within a s c
prefix_range s a c = ground arith

overlap_range :
    (s t a b c : ℕ)
    → (ltb (max a s) (min b t) && within (max a s) (min b t) c) ≡ (within a b c && within s t c)
overlap_range s t a b c = ground arith

module _ {T : Type 0} ⦃m : Merge T⦄ where
  -- The four pushes of a step, read at one clock.
  step_values :
      (s t a b cursor c : ℕ) (v w : T) (x g p o u : Option T)
      → s < t
      → a < b
      → a ≤ t
      → s ≤ b
      → cursor ≤ a
      → (s ≤ cursor) ⊎ (cursor ≡ a)
      → (cursor ≤ c → x ≡ none)
      → g ≡ (if leb s cursor && within cursor a c then some v else x)
      → p ≡ (if within a s c then some w else g)
      → o ≡ (if within a b c && within s t c then some (m.merge w v) else p)
      → u ≡ (if within t b c then some w else o)
      → u ≡ (if within cursor b c then overlay s t v c (if leb a c then some w else none) else x)
  step_values s t a b cursor c v w x g p o u st ab at sb ca side none_after eg ep eo eu =
      ground (arith, none_after)

  -- One step: the entry's part of the list is laid over, and all before the cursor stays.
  record Stepped (s t : ℕ) (v : T) (lo cursor : ℕ) (xs : List (Entry T)) (e : Entry T)
      : Type 0 where
    pub built : Built lo e.end (replace_step s t v (xs, cursor) e).0
    pub values :
        (c : ℕ)
        → value_at (replace_step s t v (xs, cursor) e).0 c ≡ (
            if within cursor e.end c
            then overlay s t v c (if leb e.start c then some e.value else none)
            else value_at xs c)

  replace_step-Stepped :
      (s t : ℕ) (v : T) (lo cursor : ℕ) (xs : List (Entry T)) (e : Entry T)
      → s < t
      → e.start < e.end
      → e.start ≤ t
      → s ≤ e.end
      → lo ≤ cursor
      → cursor ≤ e.start
      → (s ≤ cursor) ⊎ (cursor ≡ e.start)
      → Built lo cursor xs
      → Stepped s t v lo cursor xs e
  unfolding replace_step push_if
  replace_step-Stepped s t v lo cursor xs e st se est sle lc ce side k =
      let gap_test = leb s cursor && ltb cursor e.start in
      let gap = push_if gap_test xs cursor (min e.start t) v in
      let gap_built : Built lo e.start gap =
        push_if-Built gap_test xs cursor (min e.start t) v lo cursor e.start k lc ce
          (λ _. (omega arith, omega arith, omega arith)) in
      let prefix_test = ltb e.start s in
      let prefix = push_if prefix_test gap e.start s e.value in
      let prefix_built : Built lo (max e.start s) prefix =
        push_if-Built prefix_test gap e.start s e.value lo e.start (max e.start s) gap_built
          (omega arith) (omega arith) (λ _. (omega arith, omega arith, omega arith)) in
      let o_test = ltb (max e.start s) (min e.end t) in
      let middle = push_if o_test prefix (max e.start s) (min e.end t) (m.merge e.value v) in
      let middle_built : Built lo (min e.end t) middle =
        push_if-Built o_test prefix (max e.start s) (min e.end t) (m.merge e.value v) lo
          (max e.start s) (min e.end t) prefix_built (omega arith) (omega arith)
          (λ h. (omega arith, omega arith, omega arith)) in
      let s_test = ltb t e.end in
      record {
        built =
            push_if-Built s_test middle t e.end e.value lo (min e.end t) e.end middle_built
              (omega arith) (omega arith) (λ h. (omega arith, omega (tests, h), omega arith));
        values = λ c.
            step_values s t e.start e.end cursor c v e.value (value_at xs c) (value_at gap c)
              (value_at prefix c) (value_at middle c) _ st se est sle ce side
              (λ h. value_at-EndsBy xs {hi = cursor} c k.ends h)
              (rw (gap_range s t e.start cursor c est) at (
                value_at-push_if gap_test xs cursor (min e.start t) v lo cursor c k
                  (λ _. omega arith)))
              (rw (prefix_range s e.start c) at (
                value_at-push_if prefix_test gap e.start s e.value lo e.start c gap_built
                  (λ _. omega arith)))
              (rw (overlap_range s t e.start e.end c) at (
                value_at-push_if o_test prefix (max e.start s) (min e.end t) (m.merge e.value v) lo
                  (max e.start s) c prefix_built (λ _. omega arith)))
              (rw (prefix_range e.end t c) at (
                value_at-push_if s_test middle t e.end e.value lo (min e.end t) c middle_built
                  (λ _. omega arith)));
      }

  abbrev StartsAt : ℕ → List (Entry T) → Type 0
  StartsAt n [] = ⊥
  StartsAt n (e ∷ r) = n ≡ e.start

  -- The loop and what follows it, from any state that it can be in.
  record Laid (s t : ℕ) (v : T) (lo cursor : ℕ) (xs es ys : List (Entry T)) : Type 0 where
    pub built : Built lo (max t (last_end cursor es)) ys
    pub values :
        (c : ℕ)
        → value_at ys c ≡ (if leb cursor c then overlay s t v c (value_at es c) else value_at xs c)

  replace_rest-Laid :
      (s t : ℕ) (v : T) (lo cursor : ℕ) (xs : List (Entry T))
      → s < t
      → lo ≤ cursor
      → s ≤ cursor
      → Built lo cursor xs
      → Laid s t v lo cursor xs [] (replace_rest t v (xs, cursor))
  unfolding replace_rest push_if
  replace_rest-Laid s t v lo cursor xs st lc sc k = record {
    built =
        push_if-Built (ltb cursor t) xs cursor t v lo cursor (max t cursor) k lc (omega arith)
          (λ _. (omega arith, omega arith, omega arith));
    values = λ c.
        unfold value_at in
        ground (
          arith,
          value_at-push_if (ltb cursor t) xs cursor t v lo cursor c k (λ _. omega arith),
          value_at-EndsBy xs {hi = cursor} c k.ends,
        );
  }

  replace_step-cursor :
      (s t : ℕ) (v : T) (cursor : ℕ) (xs : List (Entry T)) (e : Entry T)
      → replace_step s t v (xs, cursor) e ≡ ((replace_step s t v (xs, cursor) e).0, e.end)
  unfolding replace_step
  replace_step-cursor s t v cursor xs e = refl

  Laid-cons :
      (s t : ℕ) (v : T) (lo cursor : ℕ) (xs es ys : List (Entry T)) (e : Entry T)
      → cursor ≤ e.start
      → e.start < e.end
      → IsOrdered e.end es
      → Stepped s t v lo cursor xs e
      → Laid s t v lo e.end (replace_step s t v (xs, cursor) e).0 es ys
      → Laid s t v lo cursor xs (e ∷ es) ys
  unfolding value_at
  Laid-cons s t v lo cursor xs es ys e ce se o step rest = record {
    built = rest.built;
    values =
        λ c. ground (arith, rest.values c, step.values c, value_at-IsOrdered es {lo = e.end} c o);
  }

  loop-Laid :
      (s t : ℕ) (v : T) (lo cursor : ℕ) (xs es : List (Entry T))
      → s < t
      → lo ≤ cursor
      → IsOrdered cursor es
      → StartsBy t es
      → EndsFrom s es
      → Built lo cursor xs
      → (s ≤ cursor) ⊎ StartsAt cursor es
      → Laid s t v lo cursor xs es (replace_rest t v (foldl (replace_step s t v) (xs, cursor) es))
  loop-Laid s t v lo cursor xs [] st lc o sb ef k (inl h) =
      replace_rest-Laid s t v lo cursor xs st lc h k
  loop-Laid s t v lo cursor xs [] st lc o sb ef k (inr h) = absurd h
  loop-Laid s t v lo cursor xs (e ∷ es) st lc o sb ef k side =
      let step = replace_step-Stepped s t v lo cursor xs e st o.1 sb.0 ef.0 lc o.0 side k in
      rw (replace_step-cursor s t v cursor xs e) (
        Laid-cons s t v lo cursor xs es _ e o.0 o.1 o.2 step (
          loop-Laid s t v lo e.end (replace_step s t v (xs, cursor) e).0 es st (omega arith) o.2
            sb.1 ef.1 step.built (inl ef.0)))

  pub record Replaced (s t : ℕ) (v : T) (lo : ℕ) (es ys : List (Entry T)) : Type 0 where
    pub ends : EndsBy (max t (last_end lo es)) ys
    pub ordered : IsOrdered lo ys
    pub canonical : IsCanonical ys
    pub values : (c : ℕ) → value_at ys c ≡ overlay s t v c (value_at es c)

  -- The replacement of the touching entries: the old ones with the new range laid over.
  pub replacement-Replaced :
      (s t : ℕ) (v : T) (lo : ℕ) (es : List (Entry T))
      → s < t
      → lo ≤ s
      → IsOrdered lo es
      → StartsBy t es
      → EndsFrom s es
      → 0 < length es
      → Replaced s t v lo es (replacement es s t v)
  replacement-Replaced s t v lo [] st ls o sb ef ne = absurd (omega arith)
  replacement-Replaced s t v lo (e ∷ es) st ls o sb ef ne = replaced
    where
      cursor : ℕ
      cursor = min e.start s

      laid : Laid s t v lo cursor [] (e ∷ es) (replacement (e ∷ es) s t v)
      laid =
          unfold replacement in
          loop-Laid s t v lo cursor [] (e ∷ es) st (omega arith) (omega arith, o.1, o.2) sb ef
            (record { ends = tt; ordered = tt; canonical = tt }) (ground arith)

      replaced : Replaced s t v lo (e ∷ es) (replacement (e ∷ es) s t v)
      replaced = record {
        ends = laid.built.ends;
        ordered = laid.built.ordered;
        canonical = laid.built.canonical;
        values = λ c.
            unfold value_at in
            ground (arith, laid.values c, value_at-IsOrdered es {lo = e.end} c o.2);
      }
