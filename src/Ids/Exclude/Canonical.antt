-- ===== src/Ids/Exclude/Canonical.antt =====
-- `exclude` keeps the canonical form.
use y_crdt.Ids.Exclude.{
  cut_range-left_IsOrdered, skip_before-IsOrdered, skip_before, cut_range, exclude_loop, exclude,
}
use y_crdt.Common.{
  ℕ, ◌≤◌, ◌<◌, max, ◌≡◌, false, ◌&&◌, Option, none, some, List, [], ◌∷◌, ◌++◌, ltb, leb, arith,
  Bool-cases, inl, inr, tests,
}
use y_crdt.Ids.{Merge, Entry, IsOrdered, IsCanonical}
use y_crdt.Ids.Order.{IsCanonical-tail}

module _ {T : Type 0} ⦃m : Merge T⦄ where
  -- A list behind an optional first entry.
  abbrev behind : Option (Entry T) → List (Entry T) → List (Entry T)
  behind none xs = xs
  behind (some p) xs = p ∷ xs

  -- A range from `s` with value `v` may follow the entry.
  abbrev MayFollow : Option (Entry T) → ℕ → T → Type 0
  MayFollow none s v = Unit
  MayFollow (some p) s v =
      (p.start < p.end) × (p.end ≤ s) × ((leb s p.end && m.beq p.value v) ≡ false)

  MayFollow-later :
      (p : Option (Entry T)) (s s' : ℕ) (v : T) → s ≤ s' → MayFollow p s v → MayFollow p s' v
  MayFollow-later none s s' v h k = tt
  MayFollow-later (some p) s s' v h k = (k.0, omega arith, ground (arith, k.1, k.2))

  behind-piece :
      (p : Option (Entry T)) (s e : ℕ) (v : T) (rest : List (Entry T))
      → MayFollow p s v
      → IsCanonical (record { start = s; end = e; value = v } ∷ rest)
      → IsCanonical (behind p (record { start = s; end = e; value = v } ∷ rest))
  behind-piece none s e v rest f k = k
  behind-piece (some p) s e v rest f k = (f.0, f.1, f.2, k)

  MayFollow-head :
      (p : Option (Entry T)) (x : Entry T) (xs : List (Entry T))
      → IsCanonical (behind p (x ∷ xs))
      → MayFollow p x.start x.value
  MayFollow-head none x xs k = tt
  MayFollow-head (some p) x xs k = (k.0, k.1, k.2)

  behind-skip :
      (p : Option (Entry T)) (x : Entry T) (xs : List (Entry T))
      → IsCanonical (behind p (x ∷ xs))
      → IsCanonical (behind p xs)
  behind-skip none x xs k = IsCanonical-tail x xs k
  behind-skip (some p) x [] k = k.0
  behind-skip (some p) x (y ∷ r) k = ground arith

  shorter-IsCanonical :
      (x : Entry T) (xs : List (Entry T)) (a b : ℕ)
      → IsCanonical (x ∷ xs)
      → a < b
      → b ≤ x.end
      → IsCanonical (record { start = a; end = b; value = x.value } ∷ xs)
  shorter-IsCanonical x [] a b k h g = h
  shorter-IsCanonical x (y ∷ r) a b k h g = ground arith

  behind-here :
      (p : Option (Entry T)) (xs : List (Entry T)) → IsCanonical (behind p xs) → IsCanonical xs
  behind-here none xs k = k
  behind-here (some p) xs k = IsCanonical-tail p xs k

module _ {T U : Type 0} ⦃m : Merge T⦄ where
  -- The pieces of one range between an entry that may stand before and the rest of the result.
  cut_range-IsCanonical :
      (s e : ℕ) (v : T) (os : List (Entry U)) (lo : ℕ) (p : Option (Entry T))
      (rest : List (Entry T))
      → IsOrdered lo os
      → MayFollow p s v
      → IsCanonical (behind p rest)
      → ((a b : ℕ) → a < b → b ≤ e → IsCanonical (record { start = a; end = b; value = v } ∷ rest))
      → IsCanonical (behind p ((cut_range s e v os).0 ++ rest))
  unfolding cut_range
  cut_range-IsCanonical s e v [] lo p rest o f kp kr = elim (Bool-cases (ltb s e)) [
    | inl h ↦ rw h (behind-piece p s e v rest f (kr s e (omega tests) (omega arith)))
    | inr h ↦ rw h kp
  ]
  cut_range-IsCanonical s e v (x ∷ os) lo p rest o f kp kr = elim (Bool-cases (ltb s e)) [
    | inr h1 ↦ rw h1 kp
    | inl h1 ↦ elim (Bool-cases (leb e x.start)) [
      | inl h2 ↦ rw (h1, h2) (behind-piece p s e v rest f (kr s e (omega tests) (omega arith)))
      | inr h2 ↦ elim (Bool-cases (ltb s x.start)) [
        | inl h3 ↦
            let g : Entry T = record { start = s; end = x.start; value = v } in
            elim (Bool-cases (ltb x.end e)) [
              | inl h4 ↦
                  rw (h1, h2, h3, h4)
                    (behind-piece p s x.start v _ f (
                      cut_range-IsCanonical (max s x.end) e v os x.end (some g) rest o.2
                        (omega tests, omega arith, ground arith)
                        (kr s x.start (omega tests) (omega tests)) kr))
              | inr h4 ↦
                  rw (h1, h2, h3, h4)
                    (behind-piece p s x.start v rest f (kr s x.start (omega tests) (omega tests)))
            ]
        | inr h3 ↦ elim (Bool-cases (ltb x.end e)) [
          | inl h4 ↦
              rw (h1, h2, h3, h4)
                (cut_range-IsCanonical (max s x.end) e v os x.end p rest o.2
                  (MayFollow-later p s (max s x.end) v (omega arith) f) kp kr)
          | inr h4 ↦ rw (h1, h2, h3, h4) kp
        ]
      ]
    ]
  ]

  exclude_loop-IsCanonical :
      (xs : List (Entry T)) (os : List (Entry U)) (lo : ℕ) (p : Option (Entry T))
      → IsOrdered lo os
      → IsCanonical (behind p xs)
      → IsCanonical (behind p (exclude_loop xs os))
  unfolding exclude_loop
  exclude_loop-IsCanonical [] os lo p o k = k
  exclude_loop-IsCanonical (x ∷ xs) os lo p o k =
      let skipped = skip_before x.start os in
      let oskipped = skip_before-IsOrdered x.start os lo o in
      let oleft = cut_range-left_IsOrdered x.start x.end x.value skipped lo oskipped in
      let left = (cut_range x.start x.end x.value skipped).1 in
      cut_range-IsCanonical x.start x.end x.value skipped lo p (exclude_loop xs left) oskipped
        (MayFollow-head p x xs k)
        (exclude_loop-IsCanonical xs left lo p oleft (behind-skip p x xs k))
        (λ a b h g.
          exclude_loop-IsCanonical xs left lo
            (some (record { start = a; end = b; value = x.value })) oleft
            (shorter-IsCanonical x xs a b (behind-here p (x ∷ xs) k) h g))

  -- Excluding an ordered list of ranges from a canonical list gives a canonical list.
  pub exclude-IsCanonical :
      (xs : List (Entry T)) (os : List (Entry U))
      → IsCanonical xs
      → IsOrdered 0 os
      → IsCanonical (exclude xs os)
  unfolding exclude
  exclude-IsCanonical xs [] k o = k
  exclude-IsCanonical xs (y ∷ os) k o = exclude_loop-IsCanonical xs (y ∷ os) 0 none o k
