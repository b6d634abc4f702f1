-- ===== src/IdMap/Build.antt =====
-- yrs/src/ids.rs: `IdRanges<()>::insert`, `from_ranges` and `IdMapInner::map`; yrs/src/id_set.rs:
-- `IdSet::insert`.
use y_crdt.Common.{
  ℕ, ◌+◌, ◌^◌, ◌≡◌, refl, ◌∙◌, Bool, true, false, ◌||◌, Option, none, some, List, [], ◌∷◌, foldl,
  ltb, if◌then◌else◌, arith,
}
use y_crdt.Encoding.{Result, ok, panic}
use y_crdt.Ids.{Merge, Entry, IsCanonical, value_at, within, merge_into}
use y_crdt.Ids.Insert.{insert_with}
use y_crdt.Ids.Insert.Correct.{insert_with-Inserted}
use y_crdt.Ids.Query.{is_some}
use y_crdt.IdMap.{IdMap, insert_range}

module _ {T U : Type 0} ⦃u : Merge U⦄ where
  unfoldable pub map_entry : (T → U) → List (Entry U) → Entry T → List (Entry U)
  map_entry f ranges e = insert_with ranges e.start e.end (f e.value)

  -- Remap the values of all ranges, and squash what then agrees.
  unfoldable pub map_ranges : (T → U) → List (Entry T) → List (Entry U)
  map_ranges f ranges = foldl (map_entry f) [] ranges

  unfoldable pub map_values : (T → U) → IdMap T → IdMap U
  map_values f [] = []
  map_values f ((client, ranges) ∷ m) = (client, map_ranges f ranges) ∷ map_values f m

  map_fold-IsCanonical :
      ((a : U) → u.merge a a ≡ a)
      → (f : T → U) (xs : List (Entry T)) (acc : List (Entry U)) → IsCanonical acc
      → IsCanonical (foldl (map_entry f) acc xs)
  unfolding map_entry
  map_fold-IsCanonical idem f [] acc k = k
  map_fold-IsCanonical idem f (x ∷ xs) acc k =
      map_fold-IsCanonical idem f xs (insert_with acc x.start x.end (f x.value))
        (insert_with-Inserted idem acc x.start x.end (f x.value) k).canonical

  -- Where the merge of the new values is idempotent, mapping the values of any list of ranges
  -- gives a canonical list.
  pub map_ranges-IsCanonical :
      (idem : (a : U) → u.merge a a ≡ a)
      → (f : T → U) (ranges : List (Entry T)) → IsCanonical (map_ranges f ranges)
  unfolding map_ranges
  map_ranges-IsCanonical idem f ranges = map_fold-IsCanonical idem f ranges [] tt

module _ ⦃m : Merge Unit⦄ where
  -- `IdRanges<()>::insert`
  unfoldable pub insert_one : List (Entry Unit) → ℕ × ℕ → List (Entry Unit)
  insert_one ranges (start, end) = insert_with ranges start end tt

  unfoldable pub from_ranges : List (ℕ × ℕ) → List (Entry Unit)
  from_ranges ranges = foldl insert_one [] ranges

  -- `IdSet::insert`, with the sum of `u32`.
  unfoldable pub insert_id : IdMap Unit → ℕ → ℕ → ℕ → Result (IdMap Unit)
  insert_id set client clock len =
      if ltb (clock + len) (2 ^ 32)
      then ok (insert_range set client clock (clock + len) tt)
      else panic

  -- Some range holds the clock.
  abbrev pub any_holds : List (ℕ × ℕ) → ℕ → Bool
  any_holds [] clock = false
  any_holds ((start, end) ∷ r) clock = within start end clock || any_holds r clock

  overlay_held :
      {T : Type 0} ⦃n : Merge T⦄ (o : Option T) (b r : Bool) (v : T)
      → (is_some (if b then some (merge_into o v) else o) || r) ≡ (is_some o || (b || r))
  overlay_held none true r v = refl
  overlay_held none false r v = refl
  overlay_held (some x) true r v = refl
  overlay_held (some x) false r v = refl

  fold_one-values :
      (rs : List (ℕ × ℕ)) (acc : List (Entry Unit)) (c : ℕ)
      → IsCanonical acc
      → IsCanonical (foldl insert_one acc rs)
        × (is_some (value_at (foldl insert_one acc rs) c)
            ≡ (is_some (value_at acc c) || any_holds rs c))
  unfolding insert_one
  fold_one-values [] acc c k = (k, ground arith)
  fold_one-values ((s, t) ∷ rs) acc c k =
      let new = insert_with-Inserted (λ a. refl) acc s t tt k in
      let ih = fold_one-values rs (insert_with acc s t tt) c new.canonical in
      (
        ih.0,
        ih.1 ∙ rw (new.values c) (overlay_held (value_at acc c) (within s t c) (any_holds rs c) tt),
      )

  -- For any list of ranges, in any order and overlapping, from_ranges gives a canonical list,
  -- which holds a clock if and only if some range of the list does.
  pub from_ranges_lem :
      (rs : List (ℕ × ℕ)) (c : ℕ)
      → IsCanonical (from_ranges rs) × (is_some (value_at (from_ranges rs) c) ≡ any_holds rs c)
  unfolding from_ranges value_at
  from_ranges_lem rs c = fold_one-values rs [] c tt
