-- ===== src/Ids/Union.antt =====
-- yrs/src/ids.rs: `IdRanges::merge`, the union of two lists of ranges by one sweep.
-- `x_cur` and `y_cur` are the effective starts of the first entries of what is left of each side.
pub mod Steps
pub mod Cases
pub mod Correct
use y_crdt.Common.{ℕ, min, max, List, [], ◌∷◌, foldl, if◌then◌else◌, ltb, leb}
use y_crdt.Ids.{Merge, Entry, push_coalesced}

module _ {T : Type 0} where
  -- `if ai < a.len() { a[ai].0.start } else { 0 }`
  unfoldable pub start_or_zero : List (Entry T) → ℕ
  start_or_zero [] = 0
  start_or_zero (e ∷ r) = e.start

module _ {T : Type 0} ⦃m : Merge T⦄ where
  pub push_entry : List (Entry T) → Entry T → List (Entry T)
  push_entry result e = push_coalesced result e.start e.end e.value

  -- Only one side remains: drain it.
  pub drain : List (Entry T) → ℕ → List (Entry T) → List (Entry T)
  drain result cur [] = result
  drain result cur (e ∷ r) = foldl push_entry (push_coalesced result cur e.end e.value) r

  -- The prefix before the overlap of the two current entries.
  pub push_prefix : List (Entry T) → ℕ → Entry T → ℕ → Entry T → List (Entry T)
  push_prefix result x_cur x y_cur y =
      if ltb x_cur y_cur
      then push_coalesced result x_cur y_cur x.value
      else if ltb y_cur x_cur
      then push_coalesced result y_cur x_cur y.value
      else result

  pub push_overlap : List (Entry T) → ℕ → Entry T → ℕ → Entry T → List (Entry T)
  push_overlap result x_cur x y_cur y =
      push_coalesced (push_prefix result x_cur x y_cur y) (max x_cur y_cur) (min x.end y.end)
        (m.merge x.value y.value)

  pub merge_loop : List (Entry T) → ℕ → List (Entry T) → ℕ → List (Entry T) → List (Entry T)
  merge_loop result x_cur xs y_cur [] = drain result x_cur xs
  merge_loop result x_cur [] y_cur (y ∷ ys) = drain result y_cur (y ∷ ys)
  merge_loop result x_cur (x ∷ xs) y_cur (y ∷ ys) =
      let x_before =
        merge_loop (push_coalesced result x_cur x.end x.value) (start_or_zero xs) xs y_cur
          (y ∷ ys) in
      let y_before =
        merge_loop (push_coalesced result y_cur y.end y.value) x_cur (x ∷ xs) (start_or_zero ys)
          ys in
      let overlapped = push_overlap result x_cur x y_cur y in
      let overlap_end = min x.end y.end in
      let x_shorter = merge_loop overlapped (start_or_zero xs) xs overlap_end (y ∷ ys) in
      let y_shorter = merge_loop overlapped overlap_end (x ∷ xs) (start_or_zero ys) ys in
      let both_end = merge_loop overlapped (start_or_zero xs) xs (start_or_zero ys) ys in
      if leb x.end y_cur
      then x_before
      else if leb y.end x_cur
      then y_before
      else if ltb x.end y.end
      then x_shorter
      else if ltb y.end x.end
      then y_shorter
      else both_end

  pub merge : List (Entry T) → List (Entry T) → List (Entry T)
  merge xs [] = xs
  merge [] (y ∷ ys) = y ∷ ys
  merge (x ∷ xs) (y ∷ ys) = merge_loop [] x.start (x ∷ xs) y.start (y ∷ ys)
