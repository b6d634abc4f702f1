-- ===== src/Ids/Insert.antt =====
-- yrs/src/ids.rs: `IdRanges::insert_with`, with its tail path and its general path.
-- An index `lo..hi` into the vector is a cut of the list by `take` and `drop`.
pub mod Split
pub mod Tail
pub mod Replace
pub mod Correct
use y_crdt.Common.{
  ℕ, zero, suc, ◌+◌, ◌-◌, min, max, ◌≡◌, Bool, true, false, ◌&&◌, Option, none, some, List, [], ◌∷◌,
  ◌++◌, foldl, length, get_elem?, take, drop, partition_point, leb, ltb, ◌==◌, if◌then◌else◌,
}
use mathlib.Core.Option
use y_crdt.Ids.{Merge, Entry, push_coalesced, joins}

module _ {T : Type 0} where
  -- `self.0[i].0.end`
  abbrev pub end_at : List (Entry T) → ℕ → ℕ
  end_at xs i = elim (get_elem? xs i) [ none ↦ 0 | some e ↦ e.end ]

  -- `lo`: the first entry that touches the range or starts in or after it.
  unfoldable pub first_touching : List (Entry T) → ℕ → ℕ
  first_touching xs start =
      let lo = partition_point (λ e. ltb e.start start) xs in
      if ltb 0 lo && leb start (end_at xs (lo - 1)) then lo - 1 else lo

  -- `hi - lo`: how many entries from `lo` on start in the range or at its end.
  unfoldable pub touching_count : List (Entry T) → ℕ → ℕ
  touching_count xs end = partition_point (λ e. leb e.start end) xs

module _ {T : Type 0} ⦃m : Merge T⦄ where
  -- The tail path: what becomes of the list if the last entry settles the insertion.
  unfoldable pub insert_at_tail : List (Entry T) → ℕ → ℕ → T → Option (List (Entry T))
  insert_at_tail [] start end value = none
  insert_at_tail (last ∷ []) start end value =
      if leb last.start start
      then (if ltb last.end start
          then some (last ∷ record { start = start; end = end; value = value } ∷ [])
          else if m.beq last.value value
          then some (record last { end = max last.end end } ∷ [])
          else if start == last.end
          then some (last ∷ record { start = start; end = end; value = value } ∷ [])
          else none)
      else none
  insert_at_tail (x ∷ y ∷ r) start end value =
      Option.map (λ ys. x ∷ ys) (insert_at_tail (y ∷ r) start end value)

  -- Join the entries at `i - 1` and `i`, if both are there, touch and agree.
  unfoldable pub coalesce_at : ℕ → List (Entry T) → List (Entry T)
  coalesce_at zero xs = xs
  coalesce_at (suc i) [] = []
  coalesce_at (suc zero) (x ∷ []) = x ∷ []
  coalesce_at (suc zero) (x ∷ y ∷ r) =
      if joins x y then record x { end = max x.end y.end } ∷ r else x ∷ y ∷ r
  coalesce_at (suc (suc i)) (x ∷ r) = x ∷ coalesce_at (suc i) r

  -- The body of the loop over the touching entries, on `(replacement, cursor)`.
  unfoldable pub replace_step : ℕ → ℕ → T → List (Entry T) × ℕ → Entry T → List (Entry T) × ℕ
  replace_step new_start new_end value (replacement, cursor) e =
      let gap =
        if leb new_start cursor && ltb cursor e.start
        then push_coalesced replacement cursor (min e.start new_end) value
        else replacement in
      let prefix =
        if ltb e.start new_start then push_coalesced gap e.start new_start e.value else gap in
      let overlap_start = max e.start new_start in
      let overlap_end = min e.end new_end in
      let overlap =
        if ltb overlap_start overlap_end
        then push_coalesced prefix overlap_start overlap_end (m.merge e.value value)
        else prefix in
      let suffix =
        if ltb new_end e.end then push_coalesced overlap new_end e.end e.value else overlap in
      (suffix, e.end)

  -- The gap that is left after the last touching entry.
  unfoldable pub replace_rest : ℕ → T → List (Entry T) × ℕ → List (Entry T)
  replace_rest new_end value (replacement, cursor) =
      if ltb cursor new_end then push_coalesced replacement cursor new_end value else replacement

  abbrev pub cursor_start : List (Entry T) → ℕ → ℕ
  cursor_start [] new_start = new_start
  cursor_start (e ∷ r) new_start = min e.start new_start

  -- What takes the place of the touching entries.
  unfoldable pub replacement : List (Entry T) → ℕ → ℕ → T → List (Entry T)
  replacement touching start end value =
      replace_rest end value
        (foldl (replace_step start end value) ([], cursor_start touching start) touching)

  -- The general path.
  unfoldable pub insert_general : List (Entry T) → ℕ → ℕ → T → List (Entry T)
  insert_general xs start end value =
      let lo = first_touching xs start in
      let count = touching_count (drop lo xs) end in
      let front = take lo xs in
      let touching = take count (drop lo xs) in
      let back = drop count (drop lo xs) in
      if count == 0
      then coalesce_at lo (
          coalesce_at (lo + 1) (front ++ record { start = start; end = end; value = value } ∷ back))
      else (let new = replacement touching start end value in
          coalesce_at lo (coalesce_at (lo + length new) (front ++ (new ++ back))))

  unfoldable pub insert_with : List (Entry T) → ℕ → ℕ → T → List (Entry T)
  insert_with xs start end value =
      if leb end start then xs else elim (insert_at_tail xs start end value) [
        | some ys ↦ ys
        | none ↦ insert_general xs start end value
      ]
