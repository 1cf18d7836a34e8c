-- ===== src/Services/Memstore/Refine.antt =====
-- The array of points as a list with one point for each timestamp.
pub mod Entries
use muc_opcua.Common.{
  ℕ, zero, suc, ◌+◌, ◌≤◌, ◌<◌, ◌≡◌, refl, sym, ap, ap₂, ◌∙◌, inl, inr, List, [], ◌∷◌, ◌++◌, Option,
  none, some, Bool, true, false, not, ◌&&◌, ltb, leb, ◌==◌, ◌/=◌, if◌then◌else◌, if_cases,
  Bool-cases, subst, length, get_elem?, set, take, drop, filter, arith, length-set, length-take_le,
  append_nil, append_assoc, get_elem?-lt, drop-get, take-get, take-set_end, take-set_inside,
  drop-set_before, length-append, le→ltb, lt→ltb, filter-append,
}
use muc_opcua.Status.{
  good, bad_out_of_memory, bad_entry_exists, bad_no_entry_exists, bad_invalid_argument,
}
use muc_opcua.Services.Memstore.{
  Point, Memstore, max_points, point_in_range, find_in, find_timestamp, update_point, update_data,
  delete_loop, delete_raw_modified,
}
use muc_opcua.Services.Memstore.Refine.Entries.{
  has, index_of, replace, Unique, index_of-lt, has-index_of, set-index_of, Unique-append,
  Unique-replace, Unique-filter, length-replace,
}

module _ {V : Type 0} where
  -- The points in use.
  abbrev pub live : Memstore V → List (Point V)
  live s = take s.count s.points

  pub record Valid (s : Memstore V) : Type 0 where
    pub size : length s.points ≡ max_points
    pub count_small : s.count ≤ max_points
    pub unique : Unique (live s)

  -- What the operations promise, on the list alone.
  abbrev pub insert : Point V → List (Point V) → ℕ × List (Point V)
  insert p xs =
      if has p.source_timestamp xs
      then (bad_entry_exists, xs)
      else if leb max_points (length xs)
      then (bad_out_of_memory, xs)
      else (good, xs ++ (p ∷ []))

  abbrev pub overwrite_entry : Point V → List (Point V) → ℕ × List (Point V)
  overwrite_entry p xs =
      if has p.source_timestamp xs then (good, replace p xs) else (bad_no_entry_exists, xs)

  abbrev pub update_entry : ℕ → Point V → List (Point V) → ℕ × List (Point V)
  update_entry mode p xs =
      if mode == 1
      then insert p xs
      else if mode == 2
      then overwrite_entry p xs
      else (bad_invalid_argument, xs)

  -- The store stands for the result on the list, and is valid again.
  abbrev Stands : ℕ × Memstore V → ℕ × List (Point V) → Type 0
  Stands r e = (r.0 ≡ e.0) × (live r.1 ≡ e.1) × Valid r.1

  find_in-index_of :
      (points : List (Point V)) (n ts : ℕ)
      → n ≤ length points
      → find_in points n ts ≡ index_of ts (take n points)
  find_in-index_of points zero ts h = refl
  find_in-index_of [] (suc n) ts h = elim h [ ]
  find_in-index_of (p ∷ ps) (suc n) ts h =
      ap (λ k. if p.source_timestamp == ts then 0 else suc k)
        (find_in-index_of ps n ts (omega arith))

  find_timestamp-index_of :
      (s : Memstore V) (ts : ℕ) → Valid s → find_timestamp s ts ≡ index_of ts (live s)
  unfolding find_timestamp
  find_timestamp-index_of s ts v =
      let size : length s.points ≡ max_points = v.size in
      let small : s.count ≤ max_points = v.count_small in
      find_in-index_of s.points s.count ts (omega arith)

  length-live : (s : Memstore V) → Valid s → length (live s) ≡ s.count
  length-live s v =
      let size : length s.points ≡ max_points = v.size in
      let small : s.count ≤ max_points = v.count_small in
      length-take_le s.count s.points (omega arith)

  -- The test of the code is membership.
  found : (s : Memstore V) (ts : ℕ) → Valid s → ltb (find_timestamp s ts) s.count ≡ has ts (live s)
  found s ts v =
      rw (find_timestamp-index_of s ts v)
        (ap (ltb (index_of ts (live s))) (sym (length-live s v)) ∙ has-index_of ts (live s))

  Stands-same : (s : Memstore V) (e : ℕ) → Valid s → Stands (e, s) (e, live s)
  Stands-same s e v = (refl, refl, v)

  insert-Stands :
      (s : Memstore V) (p : Point V)
      → Valid s
      → has p.source_timestamp (live s) ≡ false
      → leb max_points s.count ≡ false
      → Stands
          (good, record { points = set s.points s.count p; count = s.count + 1 })
          (good, live s ++ (p ∷ []))
  insert-Stands s p v fresh room =
      let size : length s.points ≡ max_points = v.size in
      let fits : s.count < length s.points = ground arith in
      let same : take (suc s.count) (set s.points s.count p) ≡ live s ++ (p ∷ []) =
        take-set_end s.points s.count p fits in
      let plus : s.count + 1 ≡ suc s.count = omega arith in
      let held : take (s.count + 1) (set s.points s.count p) ≡ live s ++ (p ∷ []) = rw plus same in
      (
        refl,
        held,
        record {
          size = length-set s.points s.count p ∙ size;
          count_small = ground arith;
          unique = subst Unique (sym held) (Unique-append p (live s) v.unique fresh);
        },
      )

  replace-Stands :
      (s : Memstore V) (p : Point V)
      → Valid s
      → has p.source_timestamp (live s) ≡ true
      → Stands
          (good, record s { points = set s.points (find_timestamp s p.source_timestamp) p })
          (good, replace p (live s))
  replace-Stands s p v there =
      let at : ℕ = index_of p.source_timestamp (live s) in
      let inside : at < length (live s) = index_of-lt p.source_timestamp (live s) there in
      let held : take s.count (set s.points at p) ≡ replace p (live s) =
        take-set_inside s.points s.count at p (omega (arith, length-live s v))
        ∙ set-index_of p (live s) v.unique there in
      rw (find_timestamp-index_of s p.source_timestamp v) (
        refl,
        held,
        record {
          size = length-set s.points at p ∙ v.size;
          count_small = v.count_small;
          unique = subst Unique (sym held) (Unique-replace p (live s) v.unique);
        },
      )

  update_point-Stands :
      (s : Memstore V) (mode : ℕ) (p : Point V)
      → Valid s
      → Stands (update_point s mode p) (update_entry mode p (live s))
  unfolding update_point
  update_point-Stands s mode p v = elim (Bool-cases (mode == 1)) [
    | inl ins ↦ elim (Bool-cases (has p.source_timestamp (live s))) [
      | inl there ↦ rw (found s p.source_timestamp v, ins, there) (Stands-same s bad_entry_exists v)
      | inr fresh ↦ elim (Bool-cases (leb max_points s.count)) [
        | inl full ↦
            rw (found s p.source_timestamp v, length-live s v, ins, fresh, full)
              (Stands-same s bad_out_of_memory v)
        | inr room ↦
            rw (found s p.source_timestamp v, length-live s v, ins, fresh, room)
              (insert-Stands s p v fresh room)
      ]
    ]
    | inr not_ins ↦ elim (Bool-cases (mode == 2)) [
      | inl rep ↦ elim (Bool-cases (has p.source_timestamp (live s))) [
        | inl there ↦
            rw (found s p.source_timestamp v, not_ins, rep, there) (replace-Stands s p v there)
        | inr fresh ↦
            rw (found s p.source_timestamp v, not_ins, rep, fresh)
              (Stands-same s bad_no_entry_exists v)
      ]
      | inr other ↦ rw (not_ins, other) (Stands-same s bad_invalid_argument v)
    ]
  ]

  -- The requests of a call, one after the other on the list.
  abbrev pub update_entries : ℕ → List (Point V) → List (Point V) → List ℕ × List (Point V)
  update_entries mode [] xs = ([], xs)
  update_entries mode (p ∷ ps) xs =
      let (result, ys) = update_entry mode p xs in
      let (results, zs) = update_entries mode ps ys in (result ∷ results, zs)

  -- mu_memstore_update_data on a valid store does to its points what the requests say, in their
  -- order: an insert of a new timestamp appends the point while there is room, a replacement of a
  -- known one puts the point in its place, and every other request changes nothing; the results are
  -- those of the requests, and the store is valid again, with one point for each timestamp.
  pub update_data-Refines :
      (s : Memstore V) (mode : ℕ) (ps : List (Point V))
      → Valid s
      → ((update_data s mode ps).0 ≡ (update_entries mode ps (live s)).0)
        × (live (update_data s mode ps).1 ≡ (update_entries mode ps (live s)).1)
        × Valid (update_data s mode ps).1
  unfolding update_data
  update_data-Refines s mode [] v = (refl, refl, v)
  update_data-Refines s mode (p ∷ ps) v =
      let (result, held, v') = update_point-Stands s mode p v in
      let (results, rest, v'') = update_data-Refines (update_point s mode p).1 mode ps v' in
      (
        ap₂ ◌∷◌ result (results ∙ ap (λ ys. (update_entries mode ps ys).0) held),
        rest ∙ ap (λ ys. (update_entries mode ps ys).1) held,
        v'',
      )
