-- ===== src/Ids/Insert/Correct.antt =====
-- `insert_with` on a canonical list: the range is laid over, and the list stays canonical.
use y_crdt.Ids.Insert.Replace.{replacement-Replaced, Replaced}
use y_crdt.Ids.Insert.{
  replacement, insert_at_tail, insert_general, insert_with, coalesce_at, first_touching,
  touching_count,
}
use y_crdt.Common.{
  Option, none, some, ◌≤◌, if◌then◌else◌, ◌==◌, ==_iff, Bool-cases, leb, inl, inr, tests, ℕ, zero,
  suc, ◌+◌, ◌<◌, max, ◌≡◌, refl, ap, ◌∙◌, List, [], ◌∷◌, ◌++◌, arith, length, take, drop,
  take-append-drop,
}
use y_crdt.Ids.Insert.Tail.{insert_at_tail-Settled}
use y_crdt.Ids.Insert.Split.{
  length-take-first_touching, drop-first_touching, EndsFrom, take-touching_count, StartsBy,
  last_end, IsOrdered-suffix, EndsFrom-take, touching_count-pos, IsOrdered-prefix, last_end-ge,
  EndsBy-last_end, last_end-EndsBy, IsOrdered-max, EndsBefore, EndsBefore-EndsBy, IsOrdered-drop,
  take-first_touching, drop-touching_count, IsCanonical-drop, IsCanonical-take,
}
use native.Mathlib.Nat.{zero-add}
use y_crdt.Ids.{Merge, Entry, IsOrdered, IsCanonical, value_at, overlay}
use y_crdt.Ids.Order.{
  IsCanonical-IsOrdered_zero, value_at-EndsBy, value_at-IsOrdered, IsOrdered-le, IsOrdered-append,
  value_at-append, or_else,
}

module _ {T : Type 0} ⦃m : Merge T⦄ where
  value_at-coalesce_at :
      (i : ℕ) (xs : List (Entry T)) (lo c : ℕ)
      → IsOrdered lo xs
      → value_at (coalesce_at i xs) c ≡ value_at xs c
  unfolding value_at coalesce_at
  value_at-coalesce_at zero xs lo c o = refl
  value_at-coalesce_at (suc zero) [] lo c o = refl
  value_at-coalesce_at (suc (suc i)) [] lo c o = refl
  value_at-coalesce_at (suc zero) (x ∷ []) lo c o = refl
  value_at-coalesce_at (suc zero) (x ∷ y ∷ r) lo c o = ground (arith, m.beq_iff x.value y.value)
  value_at-coalesce_at (suc (suc i)) (x ∷ r) lo c o =
      ground (arith, value_at-coalesce_at (suc i) r x.end c o.2)

  IsOrdered-coalesce_at :
      (i : ℕ) (xs : List (Entry T)) (lo : ℕ) → IsOrdered lo xs → IsOrdered lo (coalesce_at i xs)
  unfolding coalesce_at
  IsOrdered-coalesce_at zero xs lo o = o
  IsOrdered-coalesce_at (suc zero) [] lo o = tt
  IsOrdered-coalesce_at (suc (suc i)) [] lo o = tt
  IsOrdered-coalesce_at (suc zero) (x ∷ []) lo o = o
  IsOrdered-coalesce_at (suc zero) (x ∷ y ∷ r) lo o = ground (arith, o)
  IsOrdered-coalesce_at (suc (suc i)) (x ∷ r) lo o =
      (o.0, o.1, IsOrdered-coalesce_at (suc i) r x.end o.2)

  -- Two canonical lists, one after the other, are canonical once their seam is joined.
  IsCanonical-coalesce_at :
      (xs ys : List (Entry T)) (lo : ℕ)
      → IsOrdered lo (xs ++ ys)
      → IsCanonical xs
      → IsCanonical ys
      → IsCanonical (coalesce_at (length xs) (xs ++ ys))
  unfolding coalesce_at
  IsCanonical-coalesce_at [] ys lo o kx ky = ky
  IsCanonical-coalesce_at (x ∷ []) [] lo o kx ky = kx
  IsCanonical-coalesce_at (x ∷ []) (y ∷ []) lo o kx ky = ground (arith, m.beq_iff x.value y.value)
  IsCanonical-coalesce_at (x ∷ []) (y ∷ z ∷ r) lo o kx ky =
      ground (arith, m.beq_iff x.value y.value)
  IsCanonical-coalesce_at (x ∷ y ∷ []) [] lo o kx ky = kx
  IsCanonical-coalesce_at (x ∷ y ∷ []) (z ∷ r) lo o kx ky =
      ground (arith, IsCanonical-coalesce_at (y ∷ []) (z ∷ r) x.end o.2 kx.3 ky)
  IsCanonical-coalesce_at (x ∷ y ∷ w ∷ r) ys lo o kx ky =
      (kx.0, kx.1, kx.2, IsCanonical-coalesce_at (y ∷ w ∷ r) ys x.end o.2 kx.3 ky)

  coalesce_at-append :
      (xs ys : List (Entry T)) (i : ℕ)
      → coalesce_at (suc (length xs + i)) (xs ++ ys) ≡ xs ++ coalesce_at (suc i) ys
  unfolding coalesce_at
  coalesce_at-append [] ys i = rw zero-add
  coalesce_at-append (x ∷ xs) ys i =
      let e : suc (length xs) + i ≡ suc (length xs + i) = omega arith in
      rw e (ap (λ r. x ∷ r) (coalesce_at-append xs ys i))

  -- The three parts of the list, the middle one replaced, joined at both seams.
  record Joined (f n b ys : List (Entry T)) : Type 0 where
    pub values : (c : ℕ) → value_at ys c ≡ value_at (f ++ (n ++ b)) c
    pub canonical : IsCanonical ys

  joined :
      (f n b : List (Entry T)) (e : Entry T)
      → IsOrdered 0 (f ++ ((e ∷ n) ++ b))
      → IsCanonical f
      → IsCanonical (e ∷ n)
      → IsCanonical b
      → Joined f
          (e ∷ n)
          b
          (coalesce_at (length f) (coalesce_at (length f + length (e ∷ n)) (f ++ ((e ∷ n) ++ b))))
  joined f n b e o kf kn kb =
      let seam : length f + suc (length n) ≡ suc (length f + length n) = omega arith in
      let right = coalesce_at-append f ((e ∷ n) ++ b) (length n) in
      let o' = IsOrdered-coalesce_at (suc (length f + length n)) (f ++ ((e ∷ n) ++ b)) 0 o in
      let o'' : IsOrdered 0 (f ++ coalesce_at (suc (length n)) ((e ∷ n) ++ b)) = rw right at o' in
      let k =
        IsCanonical-coalesce_at (e ∷ n) b (last_end 0 f) (IsOrdered-suffix f ((e ∷ n) ++ b) 0 o) kn
          kb in
      rw seam (record {
        values = λ c.
            value_at-coalesce_at (length f) _ 0 c o'
            ∙ value_at-coalesce_at (suc (length f + length n)) _ 0 c o;
        canonical = rw right (IsCanonical-coalesce_at f _ 0 o'' kf k);
      })

  pub record Inserted (xs : List (Entry T)) (s t : ℕ) (v : T) (ys : List (Entry T)) : Type 0 where
    pub values : (c : ℕ) → value_at ys c ≡ overlay s t v c (value_at xs c)
    pub canonical : IsCanonical ys

  -- The three parts of a canonical list that the general path cuts it into.
  record Parts (s t : ℕ) (f es b : List (Entry T)) : Type 0 where
    pub ordered : IsOrdered 0 (f ++ (es ++ b))
    pub before : EndsBefore s f
    pub after : IsOrdered (suc t) b
    pub front : IsCanonical f
    pub back : IsCanonical b

  Parts-IsOrdered :
      (s t : ℕ) (v : T) (f es b n : List (Entry T))
      → s < t
      → Parts s t f es b
      → Replaced s t v (last_end 0 f) es n
      → IsOrdered 0 (f ++ (n ++ b))
  Parts-IsOrdered s t v f es b n st k r =
      let ob = IsOrdered-suffix es b (last_end 0 f) (IsOrdered-suffix f (es ++ b) 0 k.ordered) in
      let of = IsOrdered-prefix f (es ++ b) 0 k.ordered in
      let hi = max t (last_end (last_end 0 f) es) in
      IsOrdered-append f (n ++ b) (last_end-ge f 0 of) of (EndsBy-last_end f 0 of) (
        IsOrdered-append n b
          (omega (arith, last_end-EndsBy f 0 s (omega arith) (EndsBefore-EndsBy f s k.before)))
          r.ordered r.ends
          (IsOrdered-max b t (last_end (last_end 0 f) es) (IsOrdered-le b (omega arith) k.after)
            ob))

  Replaced-values :
      (s t : ℕ) (v : T) (f es b n : List (Entry T))
      → Parts s t f es b
      → Replaced s t v (last_end 0 f) es n
      → (c : ℕ) → value_at (f ++ (n ++ b)) c ≡ overlay s t v c (value_at (f ++ (es ++ b)) c)
  unfolding or_else
  Replaced-values s t v f es b n k r c = ground (
    arith,
    value_at-append f (n ++ b) c,
    value_at-append n b c,
    value_at-append f (es ++ b) c,
    value_at-append es b c,
    r.values c,
    value_at-EndsBy f {hi = s} c (EndsBefore-EndsBy f s k.before),
    value_at-IsOrdered b {lo = suc t} c k.after,
  )

  Replaced-Inserted :
      (s t : ℕ) (v : T) (f es b n : List (Entry T))
      → s < t
      → Parts s t f es b
      → Replaced s t v (last_end 0 f) es n
      → Inserted
          (f ++ (es ++ b))
          s
          t
          v
          (coalesce_at (length f) (coalesce_at (length f + length n) (f ++ (n ++ b))))
  Replaced-Inserted s t v f es b [] st k r = absurd (unfold value_at in ground (arith, r.values s))
  Replaced-Inserted s t v f es b (e ∷ n) st k r =
      let j =
        joined f n b e (Parts-IsOrdered s t v f es b (e ∷ n) st k r) k.front r.canonical k.back in
      record {
        values = λ c. j.values c ∙ Replaced-values s t v f es b (e ∷ n) k r c;
        canonical = j.canonical;
      }

  -- The general path, on the parts that it cuts.
  general-Parts :
      (xs : List (Entry T)) (s t : ℕ)
      → IsCanonical xs
      → Parts s t
          (take (first_touching xs s) xs)
          (take (touching_count (drop (first_touching xs s) xs) t) (drop (first_touching xs s) xs))
          (drop (touching_count (drop (first_touching xs s) xs) t) (drop (first_touching xs s) xs))
  general-Parts xs s t k =
      let lo = first_touching xs s in
      let rest = drop lo xs in
      let o = IsCanonical-IsOrdered_zero xs k in
      record {
        ordered = rw (take-append-drop (touching_count rest t) rest, take-append-drop lo xs) o;
        before = take-first_touching xs s 0 o;
        after = drop-touching_count rest t 0 (IsOrdered-drop lo xs 0 o);
        front = IsCanonical-take lo xs k;
        back = IsCanonical-drop (touching_count rest t) rest (IsCanonical-drop lo xs k);
      }

  singleton-Replaced :
      (s t : ℕ) (v : T) (lo : ℕ)
      → s < t
      → lo ≤ s
      → Replaced s t v lo [] (record { start = s; end = t; value = v } ∷ [])
  singleton-Replaced s t v lo st ls = record {
    ends = (omega arith, tt);
    ordered = (ls, st, tt);
    canonical = st;
    values = λ c. unfold value_at in ground arith;
  }

  -- The two ways to fill the place of the touching entries.
  filled-Inserted :
      (xs : List (Entry T)) (s t : ℕ) (v : T) (f es b : List (Entry T)) (lo count : ℕ)
      → s < t
      → Parts s t f es b
      → StartsBy t es
      → EndsFrom s es
      → f ++ (es ++ b) ≡ xs
      → length f ≡ lo
      → (count ≡ 0 → es ≡ [])
      → (0 < count → 0 < length es)
      → Inserted xs s t v (
          if count == 0
          then coalesce_at lo
              (coalesce_at (lo + 1) (f ++ (record { start = s; end = t; value = v } ∷ b)))
          else coalesce_at lo
              (coalesce_at (lo + length (replacement es s t v)) (f ++ (replacement es s t v ++ b))))
  filled-Inserted xs s t v f es b lo count st k sb ef whole len zero_case pos_case =
      let below : last_end 0 f ≤ s =
        last_end-EndsBy f 0 s (omega arith) (EndsBefore-EndsBy f s k.before) in
      let o = IsOrdered-prefix es b (last_end 0 f) (IsOrdered-suffix f (es ++ b) 0 k.ordered) in
      rw (← whole, ← len)
        (elim (Bool-cases (count == 0)) [
          | inl z ↦
              let e = zero_case ((==_iff count 0).0 z) in
              rw z (
                Replaced-Inserted s t v f es b (record { start = s; end = t; value = v } ∷ []) st k
                  (rw e (singleton-Replaced s t v (last_end 0 f) st below)))
          | inr z ↦ rw z (
              Replaced-Inserted s t v f es b (replacement es s t v) st k (
                replacement-Replaced s t v (last_end 0 f) es st below o sb ef
                  (pos_case (ground arith))))
        ])

  insert_general-Inserted :
      (xs : List (Entry T)) (s t : ℕ) (v : T)
      → s < t
      → IsCanonical xs
      → Inserted xs s t v (insert_general xs s t v)
  unfolding insert_general
  insert_general-Inserted xs s t v st k =
      let lo = first_touching xs s in
      let rest = drop lo xs in
      let count = touching_count rest t in
      filled-Inserted xs s t v (take lo xs) (take count rest) (drop count rest) lo count st
        (general-Parts xs s t k) (take-touching_count rest t)
        (EndsFrom-take count rest s (drop-first_touching xs s 0 (IsCanonical-IsOrdered_zero xs k)))
        (rw (take-append-drop count rest, take-append-drop lo xs)) (length-take-first_touching xs s)
        (λ e. rw e) (touching_count-pos rest t)

module _ {T : Type 0} ⦃m : Merge T⦄ (idem : (a : T) → m.merge a a ≡ a) where
  -- For a canonical list of ranges, and a merge of values that is idempotent, inserting a range
  -- with a value gives a canonical list, in which every clock of the range holds the new value
  -- merged into the old one, or the new value alone where there was none, and every other clock
  -- holds what it held.
  pub insert_with-Inserted :
      (xs : List (Entry T)) (s t : ℕ) (v : T)
      → IsCanonical xs
      → Inserted xs s t v (insert_with xs s t v)
  unfolding insert_with
  insert_with-Inserted xs s t v k = elim (Bool-cases (leb t s)) [
    | inl none_new ↦ rw none_new (record { values = λ c. ground arith; canonical = k })
    | inr new ↦ rw new (settle xs k (insert_at_tail xs s t v) refl (omega (tests, new)))
  ]
    where
      settle :
          (xs : List (Entry T))
          → IsCanonical xs
          → (o : Option (List (Entry T))) → insert_at_tail xs s t v ≡ o
          → s < t
          → Inserted xs s t v (elim o [ some ys ↦ ys | none ↦ insert_general xs s t v ])
      settle xs kx none e st = insert_general-Inserted xs s t v st kx
      settle [] kx (some ys) e st = absurd (unfold insert_at_tail in cc e)
      settle (x ∷ r) kx (some ys) e st =
          let d = insert_at_tail-Settled idem x r s t v ys st kx e in
          record { values = d.values; canonical = d.canonical }
